-- ===== src/Runtime/HeapState/Probe.antt =====
-- The probing order of the table in runtime/initck_heap.c, and what a search finds.
use native_pascal.Prelude.{
  ℕ, zero, suc, ◌+◌, ◌-◌, ◌<◌, ◌≡◌, ◌≢◌, refl, ◌∙◌, true, false, ◌==◌, if◌then◌else◌, arith,
  Bool-cases, inl, inr, ltb,
}
use native.Mathlib.Nat.{mod_self, mod-eq_of_lt}
use native_pascal.Runtime.HeapState.{Entry, at, exhausted, next_slot, find_loop}

-- The slot that a scan from slot `i` reaches in `d` steps.
abbrev pub walk : ℕ → ℕ → ℕ → ℕ
walk cap i zero = i
walk cap i (suc d) = walk cap (next_slot cap i) d

next_slot_lem : (cap i : ℕ) → i < cap → next_slot cap i ≡ (if i + 1 == cap then 0 else i + 1)
next_slot_lem cap i h = elim (Bool-cases (i + 1 == cap)) [
  | inl y ↦ let e : i + 1 ≡ cap = ground arith in rw (y, e) (mod_self cap)
  | inr n ↦ rw n (mod-eq_of_lt (ground arith))
]

next_slot-lt : (cap i : ℕ) → i < cap → next_slot cap i < cap
next_slot-lt cap i h = ground (arith, next_slot_lem cap i h)

pub walk-lt : (cap i d : ℕ) → i < cap → walk cap i d < cap
walk-lt cap i zero h = h
walk-lt cap i (suc d) h = walk-lt cap (next_slot cap i) d (next_slot-lt cap i h)

-- In fewer steps than slots, a scan comes round at most once.
walk_lem :
    (cap i d : ℕ)
    → i < cap
    → d < cap
    → walk cap i d ≡ (if ltb (i + d) cap then i + d else i + d - cap)
walk_lem cap i zero h b = ground arith
walk_lem cap i (suc d) h b = ground (
  arith,
  next_slot_lem cap i h,
  walk_lem cap (next_slot cap i) d (next_slot-lt cap i h) (omega arith),
)

-- A scan reaches each slot.
pub walk_reaches : (cap i j : ℕ) → i < cap → j < cap → (d : ℕ) × (d < cap) × (walk cap i d ≡ j)
walk_reaches cap i j h k = elim (Bool-cases (ltb j i)) [
  | inl y ↦
      (j + cap - i, ground arith, ground (arith, walk_lem cap i (j + cap - i) h (ground arith)))
  | inr n ↦ (j - i, ground arith, ground (arith, walk_lem cap i (j - i) h (ground arith)))
]

module _ (table : ℕ → Entry) (cap key : ℕ) where
  pub find_loop-at :
      (rounds i j : ℕ)
      → i < cap
      → find_loop rounds table cap key i ≡ at j
      → (j < cap) × ((table j).key ≡ key)
  unfolding find_loop
  find_loop-at zero i j h e = absurd (cc)
  find_loop-at (suc rounds) i j h e = elim (Bool-cases ((table i).key == key)) [
    | inl y ↦
        let here : at i ≡ at j = rw y at e in let same : i ≡ j = cc in rw (← same) (h, ground arith)
    | inr n ↦ elim (Bool-cases ((table i).key == 0)) [
      | inl z ↦ absurd (cc (rw (n, z) at e))
      | inr f ↦ find_loop-at rounds (next_slot cap i) j (next_slot-lt cap i h) (rw (n, f) at e)
    ]
  ]

  -- Past a full slot with another key, a scan goes on.
  onward :
      (rounds i : ℕ)
      → ((table i).key == key) ≡ false
      → ((table i).key == 0) ≡ false
      → find_loop (suc rounds) table cap key i ≡ find_loop rounds table cap key (next_slot cap i)
  unfolding find_loop
  onward rounds i n f = rw (n, f) refl

  pub find_loop-finds :
      (rounds i d : ℕ)
      → i < cap
      → d < rounds
      → ((e : ℕ) → e < d → (table (walk cap i e)).key ≢ 0)
      → (table (walk cap i d)).key ≡ key
      → (j : ℕ) × (find_loop rounds table cap key i ≡ at j)
  unfolding find_loop
  find_loop-finds zero i d h b full found = absurd (omega arith)
  find_loop-finds (suc rounds) i zero h b full found =
      let y : ((table i).key == key) ≡ true = ground arith in (i, here i y)
    where
      here : (i : ℕ) → ((table i).key == key) ≡ true → find_loop (suc rounds) table cap key i ≡ at i
      here i y = rw y refl
  find_loop-finds (suc rounds) i (suc d) h b full found = elim (Bool-cases ((table i).key == key)) [
    | inl y ↦ (i, here i y)
    | inr n ↦
        let f : ((table i).key == 0) ≡ false = filled i (full 0 (omega arith)) in
        let (j, later) =
          find_loop-finds rounds (next_slot cap i) d (next_slot-lt cap i h) (omega arith)
            (λ e c. full (suc e) (omega arith)) found in
        (j, onward rounds i n f ∙ later)
  ]
    where
      here : (i : ℕ) → ((table i).key == key) ≡ true → find_loop (suc rounds) table cap key i ≡ at i
      here i y = rw y refl

      filled : (i : ℕ) → (table i).key ≢ 0 → ((table i).key == 0) ≡ false
      filled i g = elim (Bool-cases ((table i).key == 0)) [
        | inl z ↦ absurd (g (ground arith))
        | inr f ↦ f
      ]

  pub find_loop-ends :
      (rounds i d : ℕ)
      → i < cap
      → d < rounds
      → (table (walk cap i d)).key ≡ 0
      → find_loop rounds table cap key i ≢ exhausted
  unfolding find_loop
  find_loop-ends zero i d h b e = λ x. absurd (omega arith)
  find_loop-ends (suc rounds) i zero h b e = λ x. stops x
    where
      stops : find_loop (suc rounds) table cap key i ≢ exhausted
      stops x = elim (Bool-cases ((table i).key == key)) [
        | inl y ↦ cc (rw y at x)
        | inr n ↦ let z : ((table i).key == 0) ≡ true = ground arith in cc (rw (n, z) at x)
      ]
  find_loop-ends (suc rounds) i (suc d) h b e =
      stops (find_loop-ends rounds (next_slot cap i) d (next_slot-lt cap i h) (omega arith) e)
    where
      stops :
          find_loop rounds table cap key (next_slot cap i) ≢ exhausted
          → find_loop (suc rounds) table cap key i ≢ exhausted
      stops later x = elim (Bool-cases ((table i).key == key)) [
        | inl y ↦ cc (rw y at x)
        | inr n ↦ elim (Bool-cases ((table i).key == 0)) [
          | inl z ↦ cc (rw (n, z) at x)
          | inr f ↦ later (rw (n, f) at x)
        ]
      ]
