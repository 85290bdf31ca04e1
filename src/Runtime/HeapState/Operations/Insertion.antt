-- ===== src/Runtime/HeapState/Operations/Insertion.antt =====
-- What the last part of pas_initck_heap_new in runtime/initck_heap.c adds to a table with room.
use native_pascal.Prelude.{
  ℕ, ◌+◌, ◌*◌, ◌≤◌, ◌<◌, ◌≡◌, ◌≢◌, ◌↔◌, ◌⊎◌, refl, sym, ap, ◌∙◌, true, false, ◌==◌, if◌then◌else◌,
  arith, Bool-cases, inl, inr,
}
use native_pascal.Prelude.Int.{ℤ}
use native_pascal.Runtime.HeapState.{
  Entry, Heap, at, absent, is_live, slot_of, find, set, free_loop,
}
use native_pascal.Runtime.HeapState.Probe.{walk, walk-lt, walk_reaches}
use native_pascal.Runtime.HeapState.Room.{Counted, count_full-lt, count_full-set, free_loop-finds}
use native_pascal.Runtime.HeapState.WellFormed.{
  WellFormed, find_iff, set_other, set_here, live_not_empty, slot_of-lt, with_entry,
  same_slots-WellFormed,
}
use native_pascal.Runtime.HeapState.Insert.{inserted-WellFormed}
use native_pascal.Runtime.HeapState.Operations.{done, insert_new}
use native_pascal.Runtime.HeapState.Operations.Forget.{Registered}

-- The address has the entry, and each other address has what it had.
abbrev pub Adds : Heap → ℕ → Entry → Heap → Type 0
Adds h key new h' =
    (k : ℕ)
    → is_live k ≡ true
    → (e : Entry) → Registered h' k e ↔ (((k ≡ key) × (new ≡ e)) ⊎ ((k ≢ key) × Registered h k e))

module _ (h : Heap) (w : WellFormed h) (counted : Counted h) (key : ℕ) (live : is_live key ≡ true)
    (n : ℤ) (shadow : ℕ) (loose : (h.occupied + 1) * 4 ≤ h.capacity * 3)
    (unknown : find h key ≡ absent) where
  abbrev new : Entry
  new = record { key = key; shadow = shadow; n = n; released = false }

  is_new : (i : ℕ) → i < h.capacity → (h.table i).key ≢ key
  is_new i b k = clash (sym unknown ∙ ((find_iff h w key live).0 i).1 (b, k))
    where
      clash : {i : ℕ} → absent ≡ at i → ⊥
      clash x = cc

  -- The heap with the entry in a slot.
  abbrev placed : ℕ → Heap
  placed j = record {
    table = set h.table j (record { key = key; shadow = shadow; n = n; released = false });
    capacity = h.capacity;
    occupied = h.occupied + (if (h.table j).key == 0 then 1 else 0);
    leaves = h.leaves;
  }

  placed_count : (j : ℕ) → j < h.capacity → Counted (placed j)
  placed_count j b =
      count_full-set h.table j (new) h.capacity b (live_not_empty key live)
      ∙ ap (λ m. m + (if (h.table j).key == 0 then 1 else 0)) counted

  placed_room :
      (j : ℕ) → j < h.capacity → (a : ℕ) × (a < h.capacity) × ((set h.table j new a).key ≡ 0)
  placed_room j b =
      let c = placed_count j b in
      count_full-lt (set h.table j new) h.capacity (ground (arith, c, loose))

  -- The slot that the scan finds.
  record Slot : Type 0 where
    steps : ℕ
    few : steps < h.capacity
    found :
        free_loop h.capacity h.table h.capacity (slot_of key h.capacity)
        ≡ at (walk h.capacity (slot_of key h.capacity) steps)
    passed :
        (e : ℕ)
        → e < steps
        → is_live (h.table (walk h.capacity (slot_of key h.capacity) e)).key ≡ true
    free : is_live (h.table (walk h.capacity (slot_of key h.capacity) steps)).key ≡ false

  capacity_positive : 1 ≤ h.capacity
  capacity_positive = omega (arith, loose)

  slot : Slot
  slot =
      let start = slot_of-lt key h.capacity capacity_positive in
      let (e, b, z) = count_full-lt h.table h.capacity (omega (arith, loose, counted)) in
      let (d, few, there) = walk_reaches h.capacity (slot_of key h.capacity) e start b in
      let (c, c_few, found, free, passed) =
        free_loop-finds h.table h.capacity h.capacity (slot_of key h.capacity) d few
          (ap (λ s. (h.table s).key) there ∙ z) in
      record { steps = c; few = c_few; found = found; passed = passed; free = free }

  module _ (j : ℕ) (b : j < h.capacity) (free : is_live (h.table j).key ≡ false)
      (w' : WellFormed (placed j)) where
    not_live : (m k : ℕ) → is_live k ≡ true → (h.table m).key ≡ k → (m == j) ≡ false
    not_live m k l s = elim (Bool-cases (m == j)) [
      | inr o ↦ o
      | inl y ↦
          let same : m ≡ j = ground arith in
          absurd (clash (sym (rw s l) ∙ ap (λ x. is_live (h.table x).key) same ∙ free))
    ]
      where
        clash : true ≡ false → ⊥
        clash x = cc

    placed-Adds : Adds h key new (placed j)
    placed-Adds k l e = (
      λ r.
          let (m, f, u) = r in
          let (d, s) = ((find_iff (placed j) w' k l).0 m).0 f in
          elim (Bool-cases (m == j)) [
            | inl y ↦ inl (sym (rw y at s), rw y at u)
            | inr o ↦
                let t = set_other h j new m o in
                let k' : (h.table m).key ≡ k = ap (λ x. x.key) (sym t) ∙ s in
                inr (
                  (λ same. is_new m d (k' ∙ same)),
                  (m, ((find_iff h w k l).0 m).1 (d, k'), sym t ∙ u),
                )
          ],
      λ r. elim r [
        | inl q ↦
            let t = set_here h j new in
            (j, ((find_iff (placed j) w' k l).0 j).1 (b, ap (λ x. x.key) t ∙ sym q.0), t ∙ q.1)
        | inr q ↦
            let (m, f, u) = q.1 in
            let (d, s) = ((find_iff h w k l).0 m).0 f in
            let t = set_other h j new m (not_live m k l s) in
            (m, ((find_iff (placed j) w' k l).0 m).1 (d, ap (λ x. x.key) t ∙ s), t ∙ u)
      ],
    )

  -- A new address goes into a well-formed table with room: the scan for a slot ends, the table is
  -- well-formed and counted again, the search for the address gives the new entry, and that for
  -- each other address what it gave.
  pub insert_new-Adds :
      (h' : Heap) × (insert_new h key n shadow ≡ done h')
      × WellFormed h'
      × Counted h'
      × Adds h key (record { key = key; shadow = shadow; n = n; released = false }) h'
      × (h'.leaves ≡ h.leaves)
  unfolding insert_new
  insert_new-Adds =
      let p = slot in
      let j = walk h.capacity (slot_of key h.capacity) p.steps in
      let b =
        walk-lt h.capacity (slot_of key h.capacity) p.steps
          (slot_of-lt key h.capacity capacity_positive) in
      let w' =
        same_slots-WellFormed (with_entry h j new)
          (h.occupied + (if (h.table j).key == 0 then 1 else 0)) h.leaves
          (inserted-WellFormed h w new live p.steps p.few j refl
            (λ d l. live_not_empty _ (p.passed d l)) is_new (placed_room j b)) in
      (
        placed j,
        rw (p.found, insert_new) refl,
        w',
        placed_count j b,
        placed-Adds j b p.free w',
        refl,
      )
