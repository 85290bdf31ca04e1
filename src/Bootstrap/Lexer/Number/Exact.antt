-- ===== src/Bootstrap/Lexer/Number/Exact.antt =====
-- Integer constants against arithmetic without a bound.
use native_pascal.Prelude.{
  ℕ, ◌+◌, ◌-◌, ◌*◌, ◌/◌, ◌≤◌, ◌<◌, ◌≡◌, ◌↔◌, sym, ap, ◌∙◌, true, false, [], ◌∷◌, arith, ltb, leb,
  if◌then◌else◌, Bool-cases, inl, inr, dec_lt,
}
use native_pascal.Prelude.Memory.{Bytes}
use native_pascal.Bootstrap.Chars.{is_digit, All, take_while, drop_while}
use native_pascal.Bootstrap.Token.{Result, ok, err, bad_radix, exceeds_integer64}
use native_pascal.Bootstrap.Lexer.Number.{
  int64_max, is_base_digit, base_loop, radix_loop, decimal_loop,
}
use native_pascal.Bootstrap.Lexer.Number.Digits.{
  value, is_digit_of, value_digit, digit_value_of, is_base_digit-is_digit_of,
}

-- The number that digits of a base denote behind the number `v`.
pub horner : ℕ → ℕ → Bytes → ℕ
horner base v [] = v
horner base v (c ∷ cs) = horner base (v * base + value c) cs

le-horner : (base v : ℕ) (s : Bytes) → 1 ≤ base → v ≤ horner base v s
unfolding horner
le-horner base v [] h = omega arith
le-horner base v (c ∷ cs) h =
    let grows : v ≤ v * base + value c = grind arith in
    omega (arith, grows, le-horner base (v * base + value c) cs h)

-- The overflow test made before a multiplication.
cap_test :
    (base bound d v : ℕ)
    → 1 ≤ base
    → d ≤ bound
    → (ltb ((bound - d) / base) v ≡ true) ↔ (bound < v * base + d)
cap_test base bound d v h k = grind arith

value_lem : (c : ℕ) → is_digit c ≡ true → (value c ≡ c - b'0') × (value c ≤ 9)
value_lem c h = ground (arith, value_digit c h)

-- A value under a bound, or an error.
abbrev pub within {ℓ} : {A : Type ℓ} → ℕ → ℕ → Result A → Result A → Result A
within bound v good bad = if leb v bound then good else bad

pub within_over {ℓ} :
    {A : Type ℓ} (bound v : ℕ) (good bad : Result A) → bound < v → within bound v good bad ≡ bad
within_over bound v good bad h = let no_fit : leb v bound ≡ false = ground arith in rw no_fit

pub within_under {ℓ} :
    {A : Type ℓ} (bound v : ℕ) (good bad : Result A) → v ≤ bound → within bound v good bad ≡ good
within_under bound v good bad h = let fit : leb v bound ≡ true = ground arith in rw fit

-- The three loops: an error as soon as the number so far is above the bound, which is no sooner
-- than the whole number is.
module _ (c : ℕ) (cs : Bytes) (v : ℕ) where
  decimal_loop_over :
      is_digit c ≡ true
      → int64_max < v * 10 + value c
      → decimal_loop v (c ∷ cs) ≡ err exceeds_integer64
  unfolding decimal_loop
  decimal_loop_over d h =
      let over : ltb ((int64_max - (c - b'0')) / 10) v ≡ true =
        (cap_test 10 int64_max (c - b'0') v (omega arith) (omega (arith, value_lem c d))).1
          (omega (arith, value_lem c d)) in
      rw over

  decimal_loop_under :
      is_digit c ≡ true
      → v * 10 + value c ≤ int64_max
      → decimal_loop v (c ∷ cs) ≡ decimal_loop (v * 10 + value c) cs
  unfolding decimal_loop
  decimal_loop_under d h =
      let same : value c ≡ c - b'0' = (value_lem c d).0 in
      let under : ltb ((int64_max - (c - b'0')) / 10) v ≡ false = ground (arith, value_lem c d) in
      rw (under, same)

  base_loop_over : is_digit c ≡ true → 36 < v * 10 + value c → base_loop v (c ∷ cs) ≡ err bad_radix
  unfolding base_loop
  base_loop_over d h =
      let over : ltb 36 (v * 10 + (c - b'0')) ≡ true = ground (arith, value_lem c d) in rw over

  base_loop_under :
      is_digit c ≡ true
      → v * 10 + value c ≤ 36
      → base_loop v (c ∷ cs) ≡ base_loop (v * 10 + value c) cs
  unfolding base_loop
  base_loop_under d h =
      let same : value c ≡ c - b'0' = (value_lem c d).0 in
      let under : ltb 36 (v * 10 + (c - b'0')) ≡ false = ground (arith, value_lem c d) in
      rw (under, same)

  module _ (base : ℕ) (positive : 1 ≤ base) (small : base ≤ 36) where
    radix_step :
        is_digit_of base c ≡ true
        → radix_loop base v (c ∷ cs) ≡ (
            if ltb ((int64_max - value c) / base) v
            then err exceeds_integer64
            else radix_loop base (v * base + value c) cs)
    unfolding radix_loop
    radix_step d =
        let test : ltb (value c) base ≡ true = d in rw (digit_value_of base c small d, test)

    radix_loop_over :
        is_digit_of base c ≡ true
        → int64_max < v * base + value c
        → radix_loop base v (c ∷ cs) ≡ err exceeds_integer64
    radix_loop_over d h =
        let over : ltb ((int64_max - value c) / base) v ≡ true =
          (cap_test base int64_max (value c) v positive (ground arith)).1 h in
        radix_step d ∙ rw over

    radix_loop_under :
        is_digit_of base c ≡ true
        → v * base + value c ≤ int64_max
        → radix_loop base v (c ∷ cs) ≡ radix_loop base (v * base + value c) cs
    radix_loop_under d h = elim (Bool-cases (ltb ((int64_max - value c) / base) v)) [
      | inr under ↦ radix_step d ∙ rw under
      | inl over ↦
          absurd
            (omega (arith, (cap_test base int64_max (value c) v positive (ground arith)).0 over))
    ]

    radix_loop_stop : is_digit_of base c ≡ false → radix_loop base v (c ∷ cs) ≡ ok (v, c ∷ cs)
    unfolding radix_loop
    radix_loop_stop d =
        let test : is_base_digit base c ≡ false =
          ap (λ test. test c) (is_base_digit-is_digit_of base small) ∙ d in
        rw test

pub decimal_loop-exact :
    (s : Bytes) (v : ℕ)
    → All is_digit s
    → v ≤ int64_max
    → decimal_loop v s
      ≡ within int64_max (horner 10 v s) (ok (horner 10 v s)) (err exceeds_integer64)
unfolding horner
decimal_loop-exact [] v a h = unfold decimal_loop in sym (within_under int64_max v _ _ h)
decimal_loop-exact (c ∷ cs) v (d, a) h = elim (dec_lt int64_max (v * 10 + value c)) [
  | yes over ↦
      decimal_loop_over c cs v d over
      ∙ sym (
          within_over int64_max (horner 10 (v * 10 + value c) cs) _ _
            (omega (arith, le-horner 10 (v * 10 + value c) cs)))
  | no under ↦
      decimal_loop_under c cs v d (omega arith)
      ∙ decimal_loop-exact cs (v * 10 + value c) a (omega arith)
]

pub base_loop-exact :
    (s : Bytes) (v : ℕ)
    → All is_digit s
    → v ≤ 36
    → base_loop v s ≡ within 36 (horner 10 v s) (ok (horner 10 v s)) (err bad_radix)
unfolding horner
base_loop-exact [] v a h = unfold base_loop in sym (within_under 36 v _ _ h)
base_loop-exact (c ∷ cs) v (d, a) h = elim (dec_lt 36 (v * 10 + value c)) [
  | yes over ↦
      base_loop_over c cs v d over
      ∙ sym (
          within_over 36 (horner 10 (v * 10 + value c) cs) _ _
            (omega (arith, le-horner 10 (v * 10 + value c) cs)))
  | no under ↦
      base_loop_under c cs v d (omega arith) ∙ base_loop-exact cs (v * 10 + value c) a (omega arith)
]

module _ (base : ℕ) (positive : 1 ≤ base) (small : base ≤ 36) where
  pub radix_loop-exact :
      (s : Bytes) (v : ℕ)
      → v ≤ int64_max
      → radix_loop base v s
        ≡ within int64_max
            (horner base v (take_while (is_digit_of base) s))
            (ok (horner base v (take_while (is_digit_of base) s), drop_while (is_digit_of base) s))
            (err exceeds_integer64)
  unfolding horner
  radix_loop-exact [] v h = unfold radix_loop in sym (within_under int64_max v _ _ h)
  radix_loop-exact (c ∷ cs) v h = elim (Bool-cases (is_digit_of base c)) [
    | inr n ↦
        rw n (radix_loop_stop c cs v base positive small n ∙ sym (within_under int64_max v _ _ h))
    | inl d ↦ rw d (elim (dec_lt int64_max (v * base + value c)) [
      | yes over ↦
          radix_loop_over c cs v base positive small d over
          ∙ sym (
              within_over int64_max
                (horner base (v * base + value c) (take_while (is_digit_of base) cs)) _ _
                (omega (
                  arith,
                  le-horner base (v * base + value c) (take_while (is_digit_of base) cs) positive,
                )))
      | no under ↦
          radix_loop_under c cs v base positive small d (omega arith)
          ∙ radix_loop-exact cs (v * base + value c) (omega arith)
    ])
  ]
