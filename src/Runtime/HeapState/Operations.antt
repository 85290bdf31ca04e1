-- ===== src/Runtime/HeapState/Operations.antt =====
-- runtime/initck_heap.c: NEW, lookups, DISPOSE and the release of a referent.
pub mod Forget
pub mod State
pub mod Insertion
pub mod Growth
pub mod New
pub mod Release
use native_pascal.Prelude.{
  ℕ, ◌+◌, ◌*◌, Bool, true, false, not, ◌&&◌, ◌||◌, leb, ltb, ◌==◌, if◌then◌else◌, Option, none,
  some,
}
use native_pascal.Prelude.Int.{ℤ, pos, negsuc, ltb_ℤ, ◌-ℤ◌}
use native_pascal.Runtime.HeapState.{
  Entry, Heap, Leaves, Stop, at, absent, exhausted, tombstone, find, free_loop, slot_of, set, grow,
  rehash, count_live,
}

-- What an operation comes to. `failed` is `heap_error`, which ends the program, and `stuck` a scan
-- that ran out of rounds.
pub data Outcome (A : Type 0) : Type 0 where
  done : A → Outcome A
  failed stuck : Outcome A

-- `memset(buffer, byte, n)` of a buffer, from its start.
abbrev pub memset : ℕ → ℕ → ℤ → Leaves → Leaves
memset buffer byte n leaves b i = if b == buffer && ltb_ℤ (pos i) n then byte else leaves b i

-- `has_memory` is whether calloc gives a new table.
unfoldable pub reserve : Heap → (has_memory : Bool) → Outcome Heap
unfolding grow rehash
reserve h has_memory =
    let live = count_live h.table h.capacity in
    let start = if h.capacity == 0 then 64 else h.capacity in
    let cap = grow ((live + 1) * 2) live start in
    if leb ((h.occupied + 1) * 4) (h.capacity * 3)
    then done h
    else if has_memory
    then elim (rehash h.table cap h.capacity) [
      | none ↦ stuck
      | some fresh ↦
          done (record { table = fresh; capacity = cap; occupied = live; leaves = h.leaves })
    ]
    else failed

-- The entry of a new referent, in a table with room.
unfoldable pub insert_new : Heap → (data_at : ℕ) → ℤ → (shadow : ℕ) → Outcome Heap
unfolding free_loop slot_of
insert_new h data_at n shadow =
    elim (free_loop h.capacity h.table h.capacity (slot_of data_at h.capacity)) [
      | at i ↦ done (record {
        table = set h.table i (record { key = data_at; shadow = shadow; n = n; released = false });
        capacity = h.capacity;
        occupied = h.occupied + (if (h.table i).key == 0 then 1 else 0);
        leaves = h.leaves;
      })
      | absent ↦ stuck
      | exhausted ↦ stuck
    ]

-- `shadow` is what calloc returns for the leaves.
unfoldable pub heap_new :
    Heap → (data_at : ℕ) → ℤ → (shadow : ℕ) → (has_memory : Bool) → Outcome Heap
unfolding find reserve insert_new
heap_new h data_at n shadow has_memory =
    let cleared : Heap = record {
      table = h.table;
      capacity = h.capacity;
      occupied = h.occupied;
      leaves = memset shadow 0 n h.leaves;
    } in
    if data_at == 0 || not (ltb_ℤ (pos 0) n)
    then done h
    else if shadow == 0
    then failed
    else elim (find cleared data_at) [
      | at i ↦ done (record {
        table = set h.table i (record { key = data_at; shadow = shadow; n = n; released = false });
        capacity = h.capacity;
        occupied = h.occupied;
        leaves = memset shadow 0 n h.leaves;
      })
      | absent ↦ elim (reserve cleared has_memory) [
        | done roomy ↦ insert_new roomy data_at n shadow
        | failed ↦ failed
        | stuck ↦ stuck
      ]
      | exhausted ↦ stuck
    ]

-- `e && !e->released && e->n == n`, and what more a lookup wants of the leaves.
abbrev pub tracked : Entry → ℤ → Bool → Bool
tracked e n within = not e.released && not (ltb_ℤ e.n n) && not (ltb_ℤ n e.n) && within

-- The state that a lookup returns: a buffer and an index in it. `buffer` is the fallback or, where
-- that is NULL, the thread's scratch run, which has room.
abbrev pub state_of : Heap → Stop → ℤ → Bool → ℕ → (buffer : ℕ) → ℤ → Outcome (Heap × (ℕ × ℕ))
state_of h stop n within offset buffer count =
    let untracked : Outcome (Heap × (ℕ × ℕ)) = done (
      record {
        table = h.table;
        capacity = h.capacity;
        occupied = h.occupied;
        leaves = memset buffer 1 count h.leaves;
      },
      (buffer, 0),
    ) in
    elim stop [
      | at i ↦
          if tracked (h.table i) n within && not ((h.table i).shadow == 0)
          then done (h, ((h.table i).shadow, offset))
          else untracked
      | absent ↦ untracked
      | exhausted ↦ stuck
    ]

unfoldable pub heap_at : Heap → (data_at : ℕ) → ℤ → (buffer : ℕ) → Outcome (Heap × (ℕ × ℕ))
unfolding find
heap_at h data_at n buffer = state_of h (find h data_at) n true 0 buffer n

-- The offset of leaves in an array's, as an index where it is not negative.
abbrev pub to_index : ℤ → ℕ
to_index (pos k) = k
to_index (negsuc _) = 0

unfoldable pub heap_part_at :
    Heap → (data_at : ℕ) → (n offset count : ℤ) → (buffer : ℕ) → Outcome (Heap × (ℕ × ℕ))
unfolding find
heap_part_at h data_at n offset count buffer =
    let within =
      not (ltb_ℤ offset (pos 0)) && not (ltb_ℤ count (pos 0)) && not (ltb_ℤ (n -ℤ count) offset) in
    state_of h (find h data_at) n within (to_index offset) buffer count

unfoldable pub dispose : Heap → (data_at : ℕ) → Outcome Heap
unfolding find
dispose h data_at = elim (find h data_at) [
  | at i ↦ done (record {
    table = set h.table i (record { key = tombstone; shadow = 0; n = pos 0; released = false });
    capacity = h.capacity;
    occupied = h.occupied;
    leaves = h.leaves;
  })
  | absent ↦ done h
  | exhausted ↦ stuck
]

unfoldable pub release : Heap → (data_at : ℕ) → Outcome Heap
unfolding find
release h data_at = elim (find h data_at) [
  | at i ↦
      let e = h.table i in
      if e.released
      then done h
      else done (record {
        table = set h.table i (record { key = e.key; shadow = e.shadow; n = e.n; released = true });
        capacity = h.capacity;
        occupied = h.occupied;
        leaves = memset e.shadow 1 e.n h.leaves;
      })
  | absent ↦ done h
  | exhausted ↦ stuck
]
