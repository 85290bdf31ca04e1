-- ===== src/Prelude/Memory.antt =====
-- C memory read through a pointer. A byte is a number below 256, and the bytes that a pointer may
-- reach are a list. `none` is a fault: a read outside them, which C leaves undefined.
use native_pascal.Prelude.{
  ℕ, zero, suc, ◌+◌, ◌≤◌, ◌<◌, ◌≡◌, refl, subst, List, [], ◌∷◌, Option, none, some, arith, length,
  get_elem?, dec_lt,
}

abbrev pub Bytes : Type 0
Bytes = List ℕ

infixl 5 ◌>>=◌
abbrev pub ◌>>=◌ : {A B : Type 0} → Option A → (A → Option B) → Option B
none >>= f = none
some a >>= f = f a

-- A read in range returns a byte.
pub get_elem?-lt :
    {A : Type 0} (xs : List A) (i : ℕ) → i < length xs → (a : A) × (get_elem? xs i ≡ some a)
get_elem?-lt [] i h = elim h [ ]
get_elem?-lt (x ∷ xs) zero h = (x, refl)
get_elem?-lt (x ∷ xs) (suc i) h = get_elem?-lt xs i (omega arith)

-- A property of all indices from `j` on is that at `j` and that of the later ones.
pub from_index : (P : ℕ → Type 0) (j k : ℕ) → j ≤ k → P j → (j + 1 ≤ k → P k) → P k
from_index P j k h here later = elim (dec_lt j k) [
  | yes p ↦ later (omega arith)
  | no p ↦ let e : j ≡ k = omega arith in subst P e here
]
