-- ===== src/Bootstrap/Lexer/Number/Constants.antt =====
-- Integer constants as they are written: decimal digits, or a base, `#` and digits of that base.
use native_pascal.Prelude.{
  ℕ, ◌≤◌, ◌<◌, ◌≡◌, ◌⊎◌, refl, subst, sym, ◌∙◌, true, false, ◌&&◌, [], ◌∷◌, ◌++◌, arith, leb, not,
  ◌-◌, ◌^◌, Bool-cases, ap, ◌==◌, if◌then◌else◌, length, take-append, drop-append, inl, inr, dec_lt,
}
use native_pascal.Prelude.Memory.{Bytes}
use native_pascal.Bootstrap.Chars.{is_digit, All, Stops, take_while, drop_while, starts_with}
use native_pascal.Bootstrap.Token.{Tok, int, Result, ok, err, bad_radix, exceeds_integer64}
use native_pascal.Bootstrap.Lexer.Number.{
  radix_digits, lex_radix, digits_length, fraction_length, exponent_length, lex_decimal, lex_tail,
  lex_behind, lex_number,
}
use native_pascal.Bootstrap.Lexer.Number.Digits.{
  is_digit_of, is_base_digit-is_digit_of, is_digit-is_digit_of,
}
use native_pascal.Bootstrap.Lexer.Number.Exact.{
  horner, within, within_over, within_under, decimal_loop-exact, base_loop-exact, radix_loop-exact,
}

digits_length-append :
    (ds rest : Bytes)
    → All is_digit ds
    → Stops is_digit rest
    → digits_length (ds ++ rest) ≡ length ds
digits_length-append [] [] a h = refl
digits_length-append [] (c ∷ rest) a h = rw h
digits_length-append (c ∷ ds) rest (d, a) h = rw (d, digits_length-append ds rest a h)

-- Behind the base: a digit of it, and a value that fits.
abbrev pub radix_value : {R : Type 0} → ℕ → Bytes → Result (Tok R × Bytes)
radix_value base rest =
    let digits = take_while (is_digit_of base) rest in
    if length digits == 0
    then err bad_radix
    else within (2 ^ 63 - 1) (horner base 0 digits)
        (ok (int (horner base 0 digits), drop_while (is_digit_of base) rest))
        (err exceeds_integer64)

no_digits :
    (base : ℕ) (rest : Bytes)
    → (length (take_while (is_digit_of base) rest) == 0) ≡ not (starts_with (is_digit_of base) rest)
no_digits base [] = refl
no_digits base (c ∷ cs) = elim (Bool-cases (is_digit_of base c)) [
  | inl y ↦ rw y (ground arith)
  | inr n ↦ rw n refl
]

module _ {R : Type 0} where
  radix_digits_valid :
      (base : ℕ) (rest : Bytes)
      → 2 ≤ base
      → base ≤ 36
      → radix_digits {R = R} base rest ≡ radix_value base rest
  unfolding radix_digits
  radix_digits_valid base rest lo hi = ground (
    arith,
    radix_loop-exact base (omega arith) hi rest 0 (omega arith),
    no_digits base rest,
    ap (λ test. starts_with test rest) (is_base_digit-is_digit_of base hi),
  )

  radix_digits_small :
      (base : ℕ) (rest : Bytes) → base < 2 → radix_digits {R = R} base rest ≡ err bad_radix
  unfolding radix_digits
  radix_digits_small base rest h = ground arith

  -- The result for a base that is read as the number `base`.
  abbrev pub radix_constant : ℕ → Bytes → Result (Tok R × Bytes)
  radix_constant base rest =
      if leb 2 base && leb base 36 then radix_value base rest else err bad_radix

  lex_radix-radix_digits :
      (ds rest : Bytes)
      → All is_digit ds
      → horner 10 0 ds ≤ 36
      → lex_radix {R = R} ds rest ≡ radix_digits (horner 10 0 ds) rest
  unfolding lex_radix
  lex_radix-radix_digits ds rest a h =
      rw (base_loop-exact ds 0 a (omega arith) ∙ within_under 36 (horner 10 0 ds) _ _ h)

  lex_radix_large :
      (ds rest : Bytes)
      → All is_digit ds
      → 36 < horner 10 0 ds
      → lex_radix {R = R} ds rest ≡ err bad_radix
  unfolding lex_radix
  lex_radix_large ds rest a h =
      rw (base_loop-exact ds 0 a (omega arith) ∙ within_over 36 (horner 10 0 ds) _ _ h)

  radix_constant_bad :
      (base : ℕ) (rest : Bytes)
      → (base < 2) ⊎ (36 < base)
      → radix_constant base rest ≡ err bad_radix
  radix_constant_bad base rest h =
      let bad : leb 2 base && leb base 36 ≡ false = ground arith in rw bad

  radix_constant_good :
      (base : ℕ) (rest : Bytes)
      → 2 ≤ base
      → base ≤ 36
      → radix_constant base rest ≡ radix_value base rest
  radix_constant_good base rest lo hi =
      let good : leb 2 base && leb base 36 ≡ true = ground arith in rw good

  pub lex_radix-exact :
      (ds rest : Bytes)
      → All is_digit ds
      → lex_radix {R = R} ds rest ≡ radix_constant (horner 10 0 ds) rest
  lex_radix-exact ds rest a = elim (dec_lt 36 (horner 10 0 ds)) [
    | yes over ↦
        lex_radix_large ds rest a over ∙ sym (radix_constant_bad (horner 10 0 ds) rest (inr over))
    | no under ↦ lex_radix-radix_digits ds rest a (omega arith) ∙ elim (dec_lt (horner 10 0 ds) 2) [
      | yes small ↦
          radix_digits_small (horner 10 0 ds) rest small
          ∙ sym (radix_constant_bad (horner 10 0 ds) rest (inl small))
      | no large ↦
          radix_digits_valid (horner 10 0 ds) rest (omega arith) (omega arith)
          ∙ sym (radix_constant_good (horner 10 0 ds) rest (omega arith) (omega arith))
    ]
  ]

behind_plain :
    {R : Type 0} (strtod : Bytes → R) (n : ℕ) (s rest : Bytes)
    → Stops (λ c. c == b'#') rest
    → lex_behind strtod n s rest ≡ lex_tail strtod n s rest
unfolding lex_behind
behind_plain strtod n s [] h = refl
behind_plain strtod n s (c ∷ rest) h = rw h

All-is_digit : (ds : Bytes) → All (is_digit_of 10) ds → All is_digit ds
All-is_digit ds a = subst (λ test. All test ds) (sym is_digit-is_digit_of) a

module _ {R : Type 0} (strtod : Bytes → R) (ds rest : Bytes) (a : All (is_digit_of 10) ds) where
  lex_number-hash : lex_number strtod (ds ++ b'#' ∷ rest) ≡ lex_radix ds rest
  unfolding lex_number
  lex_number-hash = rw (
    digits_length-append ds (b'#' ∷ rest) (All-is_digit ds a) refl,
    drop-append ds (b'#' ∷ rest),
    take-append ds (b'#' ∷ rest),
  )

  -- A radix constant, its base read as a decimal number from 2 to 36 and at least one digit of
  -- the base behind `#`, is the number that the digits denote in the base, where each stands for its
  -- place in the alphabet of digits, if that is an INTEGER64; any other base, no digit, or a larger
  -- number is an error, and no wrap-around gets through.
  pub lex_number-radix :
      lex_number strtod (ds ++ b'#' ∷ rest) ≡ radix_constant (horner 10 0 ds) rest
  lex_number-radix = lex_number-hash ∙ lex_radix-exact ds rest (All-is_digit ds a)

  lex_number-lex_tail :
      Stops is_digit rest
      → Stops (λ c. c == b'#') rest
      → lex_number strtod (ds ++ rest) ≡ lex_tail strtod (length ds) (ds ++ rest) rest
  unfolding lex_number
  lex_number-lex_tail d h =
      rw (digits_length-append ds rest (All-is_digit ds a) d, drop-append ds rest)
        (behind_plain strtod (length ds) (ds ++ rest) rest h)

  lex_tail-lex_decimal :
      fraction_length rest ≡ 0
      → exponent_length rest ≡ 0
      → lex_tail strtod (length ds) (ds ++ rest) rest ≡ lex_decimal ds rest
  unfolding lex_tail
  lex_tail-lex_decimal f e = rw (f, e, take-append ds rest)

  lex_decimal-exact :
      lex_decimal {R = R} ds rest
      ≡ within
          (2 ^ 63 - 1)
          (horner 10 0 ds)
          (ok (int (horner 10 0 ds), rest))
          (err exceeds_integer64)
  unfolding lex_decimal
  lex_decimal-exact = ground (arith, decimal_loop-exact ds 0 (All-is_digit ds a) (omega arith))

  -- A decimal constant that neither a digit, `#`, a fraction nor an exponent follows is the number
  -- that its digits denote, if that is an INTEGER64, and an error if it is larger.
  pub lex_number-decimal :
      Stops is_digit rest
      → Stops (λ c. c == b'#') rest
      → fraction_length rest ≡ 0
      → exponent_length rest ≡ 0
      → lex_number strtod (ds ++ rest)
        ≡ within
            (2 ^ 63 - 1)
            (horner 10 0 ds)
            (ok (int (horner 10 0 ds), rest))
            (err exceeds_integer64)
  lex_number-decimal d h f e =
      lex_number-lex_tail d h ∙ lex_tail-lex_decimal f e ∙ lex_decimal-exact
