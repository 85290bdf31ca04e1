-- ===== src/Runtime/Tests/Leaves.antt =====
-- Runs of the table of runtime/initck_heap.c on a small heap, and instances of its theorems.
use native_pascal.Prelude.{
  ℕ, ◌<◌, ◌≡◌, ◌≢◌, ◌↔◌, ◌⊎◌, refl, sym, ◌∙◌, true, false, ◌==◌, arith, Bool-cases, inl, inr,
}
use native_pascal.Prelude.Int.{pos, ltb_ℤ}
use native_pascal.Runtime.HeapState.{
  Entry, Heap, at, exhausted, empty_entry, is_live, slot_of, find, set,
}
use native_pascal.Runtime.HeapState.WellFormed.{Reached, WellFormed, find_iff}
use native_pascal.Runtime.HeapState.Operations.{done, heap_new, heap_part_at, dispose, release}
use native_pascal.Runtime.HeapState.Room.{Counted}
use native_pascal.Runtime.HeapState.Operations.Insertion.{Adds}
use native_pascal.Runtime.HeapState.Operations.Release.{Releases, release-Releases}
use native_pascal.Runtime.HeapState.Operations.New.{heap_new-Adds}
use native_pascal.Runtime.HeapState.Operations.Forget.{Registered, Forgets, dispose-Forgets}
use native_pascal.Runtime.HeapState.Operations.State.{
  Own, Fallback, Untracked, part_within, heap_part_at-found,
}

-- A referent at 4096 with 8 leaves, at 512.
abbrev one_entry : Entry
one_entry = record { key = 4096; shadow = 512; n = pos 8; released = false }

abbrev small : Heap
small = record {
  table = set (λ _. empty_entry) 0 one_entry;
  capacity = 2;
  occupied = 1;
  leaves = λ _ _. 0;
}

slot_runs : slot_of 4096 2 ≡ 0
unfolding slot_of
slot_runs = refl

only_slot : (j : ℕ) → is_live (small.table j).key ≡ true → j ≡ 0
only_slot j l = elim (Bool-cases (j == 0)) [
  | inl y ↦ ground arith
  | inr n ↦ absurd (cc (rw n at l))
]

small-Reached : Reached small 0
unfolding slot_of
small-Reached = record {
  steps = 0;
  few = omega arith;
  ends = refl;
  full = λ e b. absurd (omega arith);
}

small-WellFormed : WellFormed small
small-WellFormed = record {
  reached = λ j b l. rw (only_slot j l) small-Reached;
  unique = λ i j b c l same. only_slot i l ∙ sym (only_slot j (rw same at l));
  room = λ _. (1, omega arith, refl);
}

find_iff_example :
    ((i : ℕ) → (find small 4096 ≡ at i) ↔ ((i < 2) × ((small.table i).key ≡ 4096)))
    × (find small 4096 ≢ exhausted)
find_iff_example = find_iff small small-WellFormed 4096 refl

dispose-Forgets_example :
    (h' : Heap) × (dispose small 4096 ≡ done h')
    × WellFormed h'
    × Counted h'
    × Forgets small 4096 h'
dispose-Forgets_example = dispose-Forgets small small-WellFormed 4096 refl refl

heap_part_at-found_example :
    (h' : Heap) × (b : ℕ) × (o : ℕ) × (heap_part_at small 4096 (pos 8) (pos 2) (pos 3) 640
      ≡ done (h', (b, o)))
    × (Own small 4096 (pos 8) b o (pos 3)
        ⊎ Fallback small h' b 640 (pos 3)
          × Untracked small 4096 (pos 8) (part_within (pos 8) (pos 2) (pos 3)))
heap_part_at-found_example =
    heap_part_at-found small small-WellFormed 4096 refl (pos 8) (pos 2) (pos 3) 640

-- The table grows from two slots to four.
heap_new-Adds_example :
    (h' : Heap) × (heap_new small 8192 (pos 3) 768 true ≡ done h')
    × WellFormed h'
    × Counted h'
    × Adds small 8192 (record { key = 8192; shadow = 768; n = pos 3; released = false }) h'
    × ((i : ℕ) → ltb_ℤ (pos i) (pos 3) ≡ true → h'.leaves 768 i ≡ 0)
heap_new-Adds_example =
    heap_new-Adds small small-WellFormed refl 8192 refl (pos 3) refl 768 (λ z. absurd (omega arith))

release-Releases_example :
    (h' : Heap) × (release small 4096 ≡ done h')
    × WellFormed h'
    × Counted h'
    × Releases small 4096 h'
    × ((e : Entry)
        → Registered small 4096 e
        → e.released ≡ false
        → (i : ℕ) → ltb_ℤ (pos i) e.n ≡ true
        → h'.leaves e.shadow i ≡ 1)
release-Releases_example = release-Releases small small-WellFormed 4096 refl refl
