-- ===== src/Bootstrap/Lexer/Number/Digits.antt =====
-- The digits of a number by their place in the alphabet of digits.
use native_pascal.Prelude.{
  ℕ, zero, suc, ◌+◌, ◌-◌, ◌≤◌, ◌<◌, ◌≡◌, ◌⊎◌, sym, refl, true, false, Bool, [], ◌∷◌, ◌++◌, ltb, leb,
  ◌==◌, ◌&&◌, if◌then◌else◌, arith, Bool-cases, inl, inr, ◌∙◌,
}
use mathlib.Core.Path.{fun_ext}
use native_pascal.Prelude.Memory.{Bytes}
use native_pascal.Bootstrap.Chars.{is_digit, is_upper, is_lower}
use native_pascal.Bootstrap.Lexer.Number.{digit_value, is_base_digit}

-- `n` bytes from `c` on.
abbrev pub run : ℕ → ℕ → Bytes
run c zero = []
run c (suc n) = c ∷ run (suc c) n

-- The 36 digits in order, with capital letters and with small ones.
abbrev pub capitals : Bytes
capitals = run b'0' 10 ++ run b'A' 26

abbrev pub smalls : Bytes
smalls = run b'0' 10 ++ run b'a' 26

-- Where a byte stands first; the length of the list if it does not.
abbrev pub place : Bytes → ℕ → ℕ
place [] c = 0
place (d ∷ ds) c = let later = suc (place ds c) in if c == d then 0 else later

-- What a digit stands for: its place in the alphabet. It is 36 for a byte that is no digit.
unfoldable pub value : ℕ → ℕ
value c = if ltb (place capitals c) 36 then place capitals c else place smalls c

abbrev pub is_digit_of : ℕ → ℕ → Bool
is_digit_of base c = ltb (value c) base

place-run_in : (n s c : ℕ) (rest : Bytes) → s ≤ c → c < s + n → place (run s n ++ rest) c ≡ c - s
place-run_in zero s c rest l h = absurd (omega arith)
place-run_in (suc n) s c rest l h = elim (Bool-cases (c == s)) [
  | inl y ↦ rw y (ground arith)
  | inr k ↦ rw k (
      let later = place-run_in n (suc s) c rest (ground arith) (omega arith) in
      ground (arith, later))
]

place-run_out :
    (n s c : ℕ) (rest : Bytes)
    → (leb s c && ltb c (s + n)) ≡ false
    → place (run s n ++ rest) c ≡ n + place rest c
place-run_out zero s c rest h = omega arith
place-run_out (suc n) s c rest h =
    let k : (c == s) ≡ false = ground arith in
    let later = place-run_out n (suc s) c rest (ground arith) in rw k (omega (arith, later))

-- The place in an alphabet whose letters start at `a`.
module _ (a c : ℕ) where
  place_digit : is_digit c ≡ true → place (run b'0' 10 ++ run a 26) c ≡ c - b'0'
  place_digit h = place-run_in 10 b'0' c (run a 26) (ground arith) (ground arith)

  place_letter :
      is_digit c ≡ false → a ≤ c → c < a + 26 → place (run b'0' 10 ++ run a 26) c ≡ 10 + (c - a)
  place_letter h l k =
      let first = place-run_out 10 b'0' c (run a 26) (ground arith) in
      let then_letter : place (run a 26 ++ []) c ≡ c - a = place-run_in 26 a c [] l k in
      omega (arith, first, then_letter)

  place_none :
      is_digit c ≡ false
      → (leb a c && ltb c (a + 26)) ≡ false
      → place (run b'0' 10 ++ run a 26) c ≡ 36
  place_none h k =
      let first = place-run_out 10 b'0' c (run a 26) (ground arith) in
      let behind : place (run a 26 ++ []) c ≡ 26 + 0 = place-run_out 26 a c [] k in
      omega (arith, first, behind)

pub value_digit : (c : ℕ) → is_digit c ≡ true → value c ≡ c - b'0'
unfolding value
value_digit c h =
    let p = place_digit b'A' c h in
    let low : ltb (c - b'0') 36 ≡ true = ground arith in rw (p, low) refl

value_capital : (c : ℕ) → is_digit c ≡ false → is_upper c ≡ true → value c ≡ 10 + (c - b'A')
unfolding value
value_capital c h k =
    let p = place_letter b'A' c h (ground arith) (ground arith) in
    let low : ltb (10 + (c - b'A')) 36 ≡ true = ground arith in rw (p, low) refl

value_rest : (c : ℕ) → is_digit c ≡ false → is_upper c ≡ false → value c ≡ place smalls c
unfolding value
value_rest c h k = let p = place_none b'A' c h (ground arith) in rw p refl

value_small :
    (c : ℕ)
    → is_digit c ≡ false
    → is_upper c ≡ false
    → is_lower c ≡ true
    → value c ≡ 10 + (c - b'a')
value_small c h k l = value_rest c h k ∙ place_letter b'a' c h (ground arith) (ground arith)

value_none : (c : ℕ) → is_digit c ≡ false → is_upper c ≡ false → is_lower c ≡ false → value c ≡ 36
value_none c h k l = value_rest c h k ∙ place_none b'a' c h (ground arith)

digit_value-value : (c : ℕ) → (digit_value c ≡ value c) ⊎ ((36 ≤ digit_value c) × (value c ≡ 36))
unfolding digit_value
digit_value-value c = elim (Bool-cases (is_digit c)) [
  | inl d ↦ inl (rw (d, value_digit c d) refl)
  | inr n ↦ elim (Bool-cases (is_upper c)) [
    | inl u ↦
        let l : is_lower c ≡ false = ground arith in
        inl (rw (n, u, l, value_capital c n u) (omega arith))
    | inr u ↦ elim (Bool-cases (is_lower c)) [
      | inl l ↦ inl (rw (n, l, value_small c n u l) (omega arith))
      | inr l ↦ inr (rw (n, u, l) (omega arith), value_none c n u l)
    ]
  ]
]

-- The digits of a base are those that the program takes for them.
pub is_base_digit-is_digit_of : (base : ℕ) → base ≤ 36 → is_base_digit base ≡ is_digit_of base
is_base_digit-is_digit_of base h = fun_ext (λ c. elim (digit_value-value c) [
  | inl e ↦ rw e refl
  | inr (large, e) ↦
      let a : ltb (digit_value c) base ≡ false = ground arith in
      let b : ltb (value c) base ≡ false = ground arith in a ∙ sym b
])

pub digit_value_of : (base c : ℕ) → base ≤ 36 → is_digit_of base c ≡ true → digit_value c ≡ value c
digit_value_of base c h d = elim (digit_value-value c) [
  | inl e ↦ e
  | inr (large, e) ↦ absurd (ground arith)
]

value_letter : (c : ℕ) → is_digit c ≡ false → 10 ≤ value c
value_letter c n = elim (Bool-cases (is_upper c)) [
  | inl u ↦ omega (arith, value_capital c n u)
  | inr u ↦ elim (Bool-cases (is_lower c)) [
    | inl l ↦ omega (arith, value_small c n u l)
    | inr l ↦ omega (arith, value_none c n u l)
  ]
]

-- Decimal digits.
pub is_digit-is_digit_of : is_digit ≡ is_digit_of 10
is_digit-is_digit_of = fun_ext (λ c. elim (Bool-cases (is_digit c)) [
  | inl d ↦ let low : ltb (value c) 10 ≡ true = ground (arith, value_digit c d) in d ∙ sym low
  | inr n ↦ let high : ltb (value c) 10 ≡ false = ground (arith, value_letter c n) in n ∙ sym high
])
