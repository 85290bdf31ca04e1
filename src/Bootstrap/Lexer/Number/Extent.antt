-- ===== src/Bootstrap/Lexer/Number/Extent.antt =====
-- A number takes bytes of one line.
use native_pascal.Prelude.{
  ℕ, suc, ◌+◌, ◌≤◌, ◌≡◌, refl, sym, ap, ◌∙◌, true, false, ◌&&◌, ◌||◌, [], ◌∷◌, arith, ◌==◌, take,
  drop, drop-add, Bool-cases, inl, inr,
}
use native_pascal.Prelude.Memory.{Bytes}
use native_pascal.Bootstrap.Chars.{is_digit, starts_with, All, drop_while}
use native_pascal.Bootstrap.Token.{Tok, int, ok, >>=-eq-ok}
use native_pascal.Bootstrap.Lexer.Number.{
  lex_radix, digits_length, fraction_length, sign_length, exponent_length, decimal_loop,
  lex_decimal, lex_tail, lex_behind, lex_number,
}
use native_pascal.Bootstrap.Lexer.Lines.{
  Takes, Takes-refl, Takes-trans, Takes-cons, drop_while-Takes,
}
use native_pascal.Bootstrap.Lexer.Number.Constants.{radix_constant, lex_radix-exact}
use native_pascal.Bootstrap.Lexer.Number.Digits.{value, is_digit_of}
use native_pascal.Bootstrap.Lexer.Number.Exact.{horner}

digits-Takes : (s : Bytes) → Takes s (drop (digits_length s) s)
digits-Takes [] = Takes-refl []
digits-Takes (c ∷ cs) = elim (Bool-cases (is_digit c)) [
  | inl d ↦ rw d (Takes-cons c (ground arith) (digits-Takes cs))
  | inr n ↦ rw n (Takes-refl (c ∷ cs))
]

fraction-Takes : (s : Bytes) → Takes s (drop (fraction_length s) s)
unfolding fraction_length
fraction-Takes [] = Takes-refl []
fraction-Takes (c ∷ cs) = elim (Bool-cases (c == b'.' && starts_with is_digit cs)) [
  | inl d ↦ rw d (Takes-cons c (ground arith) (digits-Takes cs))
  | inr n ↦ rw n (Takes-refl (c ∷ cs))
]

sign-Takes : (s : Bytes) → Takes s (drop (sign_length s) s)
unfolding sign_length
sign-Takes [] = Takes-refl []
sign-Takes (c ∷ cs) = elim (Bool-cases (c == b'+' || c == b'-')) [
  | inl d ↦ rw d (Takes-cons c (ground arith) (Takes-refl cs))
  | inr n ↦ rw n (Takes-refl (c ∷ cs))
]

exponent-Takes : (s : Bytes) → Takes s (drop (exponent_length s) s)
unfolding exponent_length
exponent-Takes [] = Takes-refl []
exponent-Takes (c ∷ cs) =
    elim (Bool-cases
      ((c == b'e' || c == b'E') && starts_with is_digit (drop (sign_length cs) cs))) [
        | inl d ↦
            rw (d, drop-add (sign_length cs) (digits_length (drop (sign_length cs) cs)) cs)
              (Takes-cons c (ground arith)
                (Takes-trans (sign-Takes cs) (digits-Takes (drop (sign_length cs) cs))))
        | inr n ↦ rw n (Takes-refl (c ∷ cs))
      ]

digits-All : (s : Bytes) → All is_digit (take (digits_length s) s)
digits-All [] = tt
digits-All (c ∷ cs) = elim (Bool-cases (is_digit c)) [
  | inl d ↦ rw d (d, digits-All cs)
  | inr n ↦ rw n tt
]

newline-ne-is_digit_of : (base : ℕ) → base ≤ 36 → is_digit_of base 0x0a ≡ false
unfolding value
newline-ne-is_digit_of base h = ground arith

module _ {R : Type 0} (t : Tok R) (rest : Bytes) where
  radix_constant-rest :
      (base : ℕ) (s : Bytes)
      → radix_constant base s ≡ ok (t, rest)
      → (base ≤ 36) × (rest ≡ drop_while (is_digit_of base) s)
  radix_constant-rest base s e = ground arith

  lex_radix-Takes : (ds s : Bytes) → All is_digit ds → lex_radix ds s ≡ ok (t, rest) → Takes s rest
  lex_radix-Takes ds s a e =
      let (small, same) =
        radix_constant-rest (horner 10 0 ds) s (sym (lex_radix-exact ds s a) ∙ e) in
      rw same (
        drop_while-Takes (is_digit_of (horner 10 0 ds))
          (newline-ne-is_digit_of (horner 10 0 ds) small) s)

  lex_decimal-Takes : (ds s : Bytes) → lex_decimal ds s ≡ ok (t, rest) → Takes s rest
  unfolding lex_decimal
  lex_decimal-Takes ds s e =
      let (v, _, k) = >>=-eq-ok (decimal_loop 0 ds) (λ v. ok (int v, s)) e in
      let same : s ≡ rest = cc in rw (← same) (Takes-refl s)

  module _ (strtod : Bytes → R) where
    lex_tail-Takes :
        (n : ℕ) (s r : Bytes) → r ≡ drop n s → lex_tail strtod n s r ≡ ok (t, rest) → Takes r rest
    unfolding lex_tail
    lex_tail-Takes n s r d e =
        elim (Bool-cases
          (fraction_length r == 0 && exponent_length (drop (fraction_length r) r) == 0)) [
            | inl plain ↦ lex_decimal-Takes (take n s) r (rw plain at e)
            | inr is_real ↦
                let f = fraction_length r in
                let x = exponent_length (drop f r) in
                let behind = rw is_real at e in
                let same : drop (n + f + x) s ≡ rest = cc in
                let cut : drop x (drop f r) ≡ drop (n + f + x) s =
                  sym (drop-add (n + f) x s ∙ ap (drop x) (drop-add n f s ∙ ap (drop f) (sym d))) in
                rw (← same, ← cut) (Takes-trans (fraction-Takes r) (exponent-Takes (drop f r)))
          ]

    lex_behind-Takes :
        (n : ℕ) (s r : Bytes)
        → r ≡ drop n s
        → All is_digit (take n s)
        → lex_behind strtod n s r ≡ ok (t, rest)
        → Takes r rest
    lex_behind-Takes n s [] d a e = lex_tail-Takes n s [] d (unfold lex_behind in e)
    lex_behind-Takes n s (c ∷ cs) d a e = elim (Bool-cases (c == b'#')) [
      | inl h ↦
          Takes-cons c (ground arith)
            (lex_radix-Takes (take n s) cs a (unfold lex_behind in rw h at e))
      | inr h ↦ lex_tail-Takes n s (c ∷ cs) d (unfold lex_behind in rw h at e)
    ]

    -- A number's first digit, which the caller has seen, and its other bytes.
    pub lex_number-Takes :
        (c : ℕ) (cs : Bytes)
        → is_digit c ≡ true
        → lex_number strtod (c ∷ cs) ≡ ok (t, rest)
        → Takes cs rest
    unfolding lex_number
    lex_number-Takes c cs h e =
        let n = digits_length cs in
        let behind : lex_behind strtod (suc n) (c ∷ cs) (drop n cs) ≡ ok (t, rest) = rw h at e in
        Takes-trans (digits-Takes cs)
          (lex_behind-Takes (suc n) (c ∷ cs) (drop n cs) refl (h, digits-All cs) behind)
