-- ===== src/Runtime/HeapState/Room.antt =====
-- The empty slots of the table in runtime/initck_heap.c, and the scan for one that may be taken.
use native_pascal.Prelude.{
  ℕ, zero, suc, ◌+◌, ◌≤◌, ◌<◌, ◌≡◌, ◌≢◌, refl, ap, ◌∙◌, true, false, ◌==◌, if◌then◌else◌, arith,
  Bool-cases, inl, inr,
}
use native_pascal.Runtime.HeapState.{Entry, Heap, at, next_slot, is_live, free_loop, set}
use native_pascal.Runtime.HeapState.Probe.{walk}

-- The number of slots that are not empty, deleted ones included, among the first.
abbrev pub count_full : (ℕ → Entry) → ℕ → ℕ
count_full table zero = 0
count_full table (suc i) = count_full table i + (if (table i).key == 0 then 0 else 1)

-- Fewer of them than slots leave one empty.
pub count_full-lt :
    (table : ℕ → Entry) (cap : ℕ)
    → count_full table cap < cap
    → (e : ℕ) × (e < cap) × ((table e).key ≡ 0)
count_full-lt table zero h = absurd (omega arith)
count_full-lt table (suc i) h = elim (Bool-cases ((table i).key == 0)) [
  | inl y ↦ (i, omega arith, ground arith)
  | inr n ↦
      let fewer : count_full table i < i = ground arith in
      let (e, b, z) = count_full-lt table i fewer in (e, omega arith, z)
]

-- An entry put into a slot past the first ones is not counted.
count_full-set_above :
    (table : ℕ → Entry) (j : ℕ) (e : Entry) (cap : ℕ)
    → cap ≤ j
    → count_full (set table j e) cap ≡ count_full table cap
count_full-set_above table j e zero h = refl
count_full-set_above table j e (suc i) h =
    let o : (i == j) ≡ false = ground arith in
    rw (o, count_full-set_above table j e i (omega arith)) refl

-- A full entry in a slot counts one more where the slot was empty.
pub count_full-set :
    (table : ℕ → Entry) (j : ℕ) (e : Entry) (cap : ℕ)
    → j < cap
    → e.key ≢ 0
    → count_full (set table j e) cap ≡ count_full table cap + (if (table j).key == 0 then 1 else 0)
count_full-set table j e zero h f = absurd (omega arith)
count_full-set table j e (suc i) h f = elim (Bool-cases (i == j)) [
  | inl y ↦
      let same : i ≡ j = ground arith in
      let g : (e.key == 0) ≡ false = not_zero f in
      let k : (table i).key ≡ (table j).key = ap (λ m. (table m).key) same in
      let above = count_full-set_above table j e i (omega arith) in rw (y, g, above) (ground arith)
  | inr o ↦ let below = count_full-set table j e i (ground arith) f in rw o (omega (arith, below))
]
  where
    not_zero : e.key ≢ 0 → (e.key == 0) ≡ false
    not_zero f = elim (Bool-cases (e.key == 0)) [ inl y ↦ absurd (f (ground arith)) | inr n ↦ n ]

module _ (table : ℕ → Entry) (cap : ℕ) where
  -- The scan stops at the first slot that is empty or deleted.
  pub free_loop-finds :
      (rounds i d : ℕ)
      → d < rounds
      → (table (walk cap i d)).key ≡ 0
      → (c : ℕ) × (c < rounds)
        × (free_loop rounds table cap i ≡ at (walk cap i c))
        × (is_live (table (walk cap i c)).key ≡ false)
        × ((e : ℕ) → e < c → is_live (table (walk cap i e)).key ≡ true)
  unfolding free_loop
  free_loop-finds zero i d b z = absurd (omega arith)
  free_loop-finds (suc rounds) i zero b z =
      let n : is_live (table i).key ≡ false = ground arith in
      (0, omega arith, stops i n, n, λ e l. absurd (omega arith))
    where
      stops : (i : ℕ) → is_live (table i).key ≡ false → free_loop (suc rounds) table cap i ≡ at i
      stops i n = rw n refl
  free_loop-finds (suc rounds) i (suc d) b z = elim (Bool-cases (is_live (table i).key)) [
    | inr n ↦ (0, omega arith, stops i n, n, λ e l. absurd (omega arith))
    | inl y ↦
        let (c, few, found, n, live) = free_loop-finds rounds (next_slot cap i) d (omega arith) z in
        (suc c, omega arith, goes_on i y ∙ found, n, live_before i y c live)
  ]
    where
      stops : (i : ℕ) → is_live (table i).key ≡ false → free_loop (suc rounds) table cap i ≡ at i
      stops i n = rw n refl

      goes_on :
          (i : ℕ)
          → is_live (table i).key ≡ true
          → free_loop (suc rounds) table cap i ≡ free_loop rounds table cap (next_slot cap i)
      goes_on i y = rw y refl

      live_before :
          (i : ℕ)
          → is_live (table i).key ≡ true
          → (c : ℕ) → ((e : ℕ) → e < c → is_live (table (walk cap (next_slot cap i) e)).key ≡ true)
          → (e : ℕ) → e < suc c
          → is_live (table (walk cap i e)).key ≡ true
      live_before i y c live zero b = y
      live_before i y c live (suc e) b = live e (omega arith)

-- The count of slots that are not empty is right.
abbrev pub Counted : Heap → Type 0
Counted h = count_full h.table h.capacity ≡ h.occupied
