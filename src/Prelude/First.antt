-- ===== src/Prelude/First.antt =====
-- The first index of a range at which a property holds: what a search loop returns.
use native_pascal.Prelude.{ℕ, suc, ◌+◌, ◌≤◌, ◌<◌, Option, none, some, arith}
use native_pascal.Prelude.Memory.{from_index}

-- `none`: it holds nowhere in the range. `some m`: it holds at `m` and nowhere before.
abbrev pub FirstFrom : (ℕ → Type 0) → ℕ → ℕ → Option ℕ → Type 0
FirstFrom P i left none = (k : ℕ) → i ≤ k → k < i + left → ¬ P k
FirstFrom P i left (some m) = (i ≤ m) × (m < i + left) × P m × ((k : ℕ) → i ≤ k → k < m → ¬ P k)

module _ (P : ℕ → Type 0) (i : ℕ) where
  pub FirstFrom-empty : FirstFrom P i 0 none
  FirstFrom-empty k a b = absurd (omega arith)

  pub FirstFrom-here : (left : ℕ) → P i → FirstFrom P i (suc left) (some i)
  FirstFrom-here left h = (omega arith, omega arith, h, λ k a b. absurd (omega arith))

  pub FirstFrom-skip :
      (left : ℕ) (o : Option ℕ) → ¬ P i → FirstFrom P (i + 1) left o → FirstFrom P i (suc left) o
  FirstFrom-skip left none n f =
      λ k a b. from_index (λ k. ¬ P k) i k a n (λ later. f k later (omega arith))
  FirstFrom-skip left (some m) n f = (
    omega (arith, f.0),
    omega (arith, f.1),
    f.2,
    λ k a b. from_index (λ k. ¬ P k) i k a n (λ later. f.3 k later b),
  )
