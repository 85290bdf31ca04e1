-- ===== src/Runtime/HeapState.antt =====
-- runtime/initck_heap.c: the table from addresses of heap referents to their initialization state.
-- An operation holds the lock throughout, so operations are in sequence. What calloc returns is an
-- argument, 0 for no memory. A scan that ran out of rounds is `exhausted`, a value of the model.
pub mod Probe
pub mod WellFormed
pub mod Room
pub mod Insert
pub mod Rehash
pub mod Operations
use native_pascal.Prelude.{
  ℕ, zero, suc, ◌+◌, ◌-◌, ◌*◌, ◌/◌, ◌%◌, ◌^◌, Bool, true, false, not, ◌&&◌, ◌||◌, leb, ltb, ◌==◌,
  if◌then◌else◌, Option, none, some, bit_xor,
}
use native_pascal.Prelude.Int.{ℤ, pos, negsuc, ltb_ℤ, ◌-ℤ◌}

-- `struct heap_entry`. The key is an address, 0 in an empty slot, and 1 (TOMBSTONE) in a deleted one.
-- `shadow` is the address of the leaves' bytes, 0 for NULL.
pub record Entry : Type 0 where
  pub key : ℕ
  pub shadow : ℕ
  pub n : ℤ
  pub released : Bool

abbrev pub tombstone : ℕ
tombstone = 1

abbrev pub empty_entry : Entry
empty_entry = record { key = 0; shadow = 0; n = pos 0; released = false }

-- The bytes of a buffer, by the buffer's address and an index.
abbrev pub Leaves : Type 0
Leaves = ℕ → ℕ → ℕ

-- The static variables, and the bytes behind the shadows.
pub record Heap : Type 0 where
  pub table : ℕ → Entry
  pub capacity : ℕ
  pub occupied : ℕ
  pub leaves : Leaves

-- On 64 bits, and a capacity that is a power of two.
unfoldable pub slot_of : ℕ → ℕ → ℕ
slot_of key cap =
    let h = bit_xor key (key / 2 ^ 33) in
    let m = (h * 0xff51afd7ed558ccd) % 2 ^ 64 in bit_xor m (m / 2 ^ 33) % cap

-- `(i + 1) & (capacity - 1)`.
abbrev pub next_slot : ℕ → ℕ → ℕ
next_slot cap i = (i + 1) % cap

abbrev pub is_live : ℕ → Bool
is_live key = not (key == 0) && not (key == tombstone)

-- Where a scan stops.
pub data Stop : Type 0 where
  at : ℕ → Stop
  absent exhausted : Stop

-- The loop of `find` from a slot on.
pub find_loop : ℕ → (ℕ → Entry) → ℕ → ℕ → ℕ → Stop
find_loop zero table cap key i = exhausted
find_loop (suc rounds) table cap key i =
    let later = find_loop rounds table cap key (next_slot cap i) in
    if (table i).key == key then at i else if (table i).key == 0 then absent else later

-- A round for each slot.
unfoldable pub find : Heap → ℕ → Stop
unfolding find_loop slot_of
find h key =
    if h.capacity == 0 || key == 0 || key == tombstone
    then absent
    else find_loop h.capacity h.table h.capacity key (slot_of key h.capacity)

-- `table[i] = e`.
abbrev pub set : (ℕ → Entry) → ℕ → Entry → ℕ → Entry
set table i e j = if j == i then e else table j

-- The loop of a scan for a slot that a new entry may take.
pub free_loop : ℕ → (ℕ → Entry) → ℕ → ℕ → Stop
free_loop zero table cap i = exhausted
free_loop (suc rounds) table cap i =
    let later = free_loop rounds table cap (next_slot cap i) in
    if is_live (table i).key then later else at i

-- The loop of a scan of a fresh table for an empty slot.
pub empty_loop : ℕ → (ℕ → Entry) → ℕ → ℕ → Stop
empty_loop zero table cap i = exhausted
empty_loop (suc rounds) table cap i =
    let later = empty_loop rounds table cap (next_slot cap i) in
    if (table i).key == 0 then at i else later

-- The number of live entries in the first slots.
abbrev pub count_live : (ℕ → Entry) → ℕ → ℕ
count_live table zero = 0
count_live table (suc i) = count_live table i + (if is_live (table i).key then 1 else 0)

-- `while ((live + 1) * 2 > cap) cap *= 2;`, a round for each doubling.
pub grow : ℕ → ℕ → ℕ → ℕ
grow zero live cap = cap
grow (suc rounds) live cap =
    let more = grow rounds live (cap * 2) in if ltb cap ((live + 1) * 2) then more else cap

-- The loop that moves the first slots' live entries to a fresh table, or none if a scan fails.
pub rehash : (ℕ → Entry) → ℕ → ℕ → Option (ℕ → Entry)
unfolding empty_loop slot_of
rehash table cap zero = some (λ _. empty_entry)
rehash table cap (suc i) = elim (rehash table cap i) [
  | none ↦ none
  | some fresh ↦
      if is_live (table i).key
      then elim (empty_loop cap fresh cap (slot_of (table i).key cap)) [
        | at j ↦ some (set fresh j (table i))
        | _ ↦ none
      ]
      else some fresh
]
