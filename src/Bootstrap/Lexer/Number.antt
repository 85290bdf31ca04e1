-- ===== src/Bootstrap/Lexer/Number.antt =====
-- `lex_number` of bootstrap/lex.c: decimal, radix and real constants. The text from the current
-- position on is a list; a result has the token and the text behind it.
pub mod Digits
pub mod Exact
pub mod Constants
pub mod Extent
use native_pascal.Prelude.{
  ℕ, suc, Bool, ◌+◌, ◌-◌, ◌*◌, ◌/◌, ◌^◌, ◌&&◌, ◌||◌, [], ◌∷◌, ltb, ◌==◌, take, drop, if◌then◌else◌,
}
use native_pascal.Prelude.Memory.{Bytes}
use native_pascal.Bootstrap.Chars.{is_digit, is_upper, is_lower, starts_with}
use native_pascal.Bootstrap.Token.{
  Tok, int, real, Result, ok, err, bad_radix, exceeds_integer64, ◌>>=◌,
}

abbrev pub int64_max : ℕ
int64_max = 2 ^ 63 - 1

unfoldable pub digit_value : ℕ → ℕ
digit_value c =
    if is_digit c
    then c - b'0'
    else if is_lower c
    then c - b'a' + 10
    else if is_upper c
    then c - b'A' + 10
    else 99

-- The base of a radix constant, read digit by digit.
pub base_loop : ℕ → Bytes → Result ℕ
base_loop base [] = ok base
base_loop base (c ∷ cs) =
    let next = base * 10 + (c - b'0') in
    let rest = base_loop next cs in if ltb 36 next then err bad_radix else rest

-- The digits of a radix constant: the value, and the text behind them.
pub radix_loop : ℕ → ℕ → Bytes → Result (ℕ × Bytes)
radix_loop base v [] = ok (v, [])
radix_loop base v (c ∷ cs) =
    let d = digit_value c in
    let rest = radix_loop base (v * base + d) cs in
    if ltb d base
    then (if ltb ((int64_max - d) / base) v then err exceeds_integer64 else rest)
    else ok (v, c ∷ cs)

-- `v = v * 10 + d` over the digits of a decimal constant.
pub decimal_loop : ℕ → Bytes → Result ℕ
decimal_loop v [] = ok v
decimal_loop v (c ∷ cs) =
    let d = c - b'0' in
    let rest = decimal_loop (v * 10 + d) cs in
    if ltb ((int64_max - d) / 10) v then err exceeds_integer64 else rest

abbrev pub is_base_digit : ℕ → ℕ → Bool
is_base_digit base c = ltb (digit_value c) base

-- Behind `base#`: at least one digit.
pub radix_digits : {R : Type 0} → ℕ → Bytes → Result (Tok R × Bytes)
unfolding radix_loop
radix_digits base rest =
    let found = radix_loop base 0 rest >>= λ r. ok (int r.0, r.1) in
    if ltb base 2
    then err bad_radix
    else if starts_with (is_base_digit base) rest
    then found
    else err bad_radix

-- On the digits before `#` and the text behind it.
pub lex_radix : {R : Type 0} → Bytes → Bytes → Result (Tok R × Bytes)
unfolding base_loop radix_digits
lex_radix digits rest = base_loop 0 digits >>= λ base. radix_digits base rest

-- How far `while (isdigit(s[p])) p++;` goes.
abbrev pub digits_length : Bytes → ℕ
digits_length [] = 0
digits_length (c ∷ cs) = if is_digit c then suc (digits_length cs) else 0

-- A fraction, `.` and a digit or more: its length, or 0.
unfoldable pub fraction_length : Bytes → ℕ
fraction_length (c ∷ cs) =
    if c == b'.' && starts_with is_digit cs then suc (digits_length cs) else 0
fraction_length [] = 0

pub sign_length : Bytes → ℕ
sign_length (c ∷ cs) = if c == b'+' || c == b'-' then 1 else 0
sign_length [] = 0

-- An exponent, `e` or `E`, an optional sign, and a digit or more: its length, or 0.
unfoldable pub exponent_length : Bytes → ℕ
exponent_length (c ∷ cs) =
    let sign = sign_length cs in
    if (c == b'e' || c == b'E') && starts_with is_digit (drop sign cs)
    then suc (sign + digits_length (drop sign cs))
    else 0
exponent_length [] = 0

lex_decimal : {R : Type 0} → Bytes → Bytes → Result (Tok R × Bytes)
unfolding decimal_loop
lex_decimal digits rest = decimal_loop 0 digits >>= λ v. ok (int v, rest)

module _ {R : Type 0} (strtod : Bytes → R) where
  -- Behind the digits that a constant begins with, `n` of them: `rest` is `drop n s`.
  lex_tail : ℕ → Bytes → Bytes → Result (Tok R × Bytes)
  unfolding fraction_length sign_length exponent_length lex_decimal
  lex_tail n s rest =
      let f = fraction_length rest in
      let e = exponent_length (drop f rest) in
      if f == 0 && e == 0
      then lex_decimal (take n s) rest
      else ok (real (strtod (take (n + f + e) s)), drop (n + f + e) s)

  lex_behind : ℕ → Bytes → Bytes → Result (Tok R × Bytes)
  unfolding lex_tail
  lex_behind n s [] = lex_tail n s []
  lex_behind n s (c ∷ cs) = if c == b'#' then lex_radix (take n s) cs else lex_tail n s (c ∷ cs)

  unfoldable pub lex_number : Bytes → Result (Tok R × Bytes)
  unfolding lex_radix lex_behind
  lex_number s = let n = digits_length s in lex_behind n s (drop n s)
