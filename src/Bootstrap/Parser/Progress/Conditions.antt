-- ===== src/Bootstrap/Parser/Progress/Conditions.antt =====
-- bootstrap/parse.c: conditions end, and pass a token.
use native_pascal.Prelude.{
  ℕ, zero, suc, ◌+◌, ◌*◌, ◌<◌, ◌≤◌, Bool, true, false, ◌≡◌, refl, arith, Bool-cases, inl, inr,
  if◌then◌else◌,
}
use native_pascal.Prelude.Memory.{Bytes}
use native_pascal.Bootstrap.Token.{Token, Tok, eof, ident, int, real, str, char, punct}
use native_pascal.Bootstrap.Ast.{Expr}
use native_pascal.Bootstrap.Parser.{
  Tokens, Parser, end, token, is_eof_tok, word_tok, at_word, test, pure, ◌>>=◌, is_word,
}
use native_pascal.Bootstrap.Parser.Expressions.{bool_loop, bool_expr, at_words, word_follows}
use native_pascal.Bootstrap.Parser.Progress.{
  size, Gives, Leaves, Leaves-le, pure-Gives, unsupported_at-Gives, >>=-Gives, here-Gives,
  advance-Leaves, advance-exact,
}
use native_pascal.Bootstrap.Parser.Progress.Expressions.{expr-Leaves}

module _ {R : Type 0} where
  eof_word : (k : Tok R) (w : Bytes) → is_eof_tok k ≡ true → word_tok k w ≡ false
  eof_word eof w h = refl
  eof_word (ident _ _) w h = absurd (cc)
  eof_word (int _) w h = absurd (cc)
  eof_word (real _) w h = absurd (cc)
  eof_word (str _) w h = absurd (cc)
  eof_word (char _) w h = absurd (cc)
  eof_word (punct _) w h = absurd (cc)

  -- Two words are two tokens.
  two_words :
      (x : Token R) (rest : Tokens R) (w : Bytes)
      → word_follows w (token x rest) ≡ true
      → 1 < size (token x rest)
  unfolding size
  two_words x (token y rest) w h = omega arith
  two_words x (end loc) w h = elim (Bool-cases (is_eof_tok x.tok)) [
    | inl y ↦ absurd (cc (eof_word x.tok w y, rw y at h))
    | inr n ↦ absurd (cc (rw n at h))
  ]

  at_words-case :
      (Q : Expr R → Tokens R → Type 0) (b : Bool) (w2 : Bytes) (f : Bool → Parser R (Expr R))
      (ts : Tokens R)
      → (word_follows w2 ts ≡ true → Gives Q (f true ts))
      → Gives Q (f false ts)
      → Gives Q (((if b then test (word_follows w2) else pure false) >>= f) ts)
  unfolding ◌>>=◌ test pure
  at_words-case Q true w2 f ts t e = elim (Bool-cases (word_follows w2 ts)) [
    | inl y ↦ rw y (t y)
    | inr n ↦ rw n e
  ]
  at_words-case Q false w2 f ts t e = e

  at_words-Gives :
      (Q : Expr R → Tokens R → Type 0) (f : Bool → Parser R (Expr R)) (ts : Tokens R) (w w2 : Bytes)
      → (1 < size ts → Gives Q (f true ts))
      → Gives Q (f false ts)
      → Gives Q ((at_words w w2 >>= f) ts)
  unfolding ◌>>=◌ at_word test at_words
  at_words-Gives Q f (end loc) w w2 t e = unfold pure in e
  at_words-Gives Q f (token x rest) w w2 t e =
      at_words-case Q (is_word x w) w2 f (token x rest) (λ h. t (two_words x rest w2 h)) e

  bool_loop-Leaves :
      (fuel : ℕ) (e : Expr R) (ts : Tokens R)
      → 16 * size ts < fuel
      → Leaves (suc (size ts)) (bool_loop fuel e ts)
  unfolding bool_loop
  bool_loop-Leaves zero e ts h = absurd (omega arith)
  bool_loop-Leaves (suc fuel) e ts h = here-Gives _ _ ts λ loc.
      at_words-Gives _ _ ts _ _
        (λ p. >>=-Gives _ _ _ ts (advance-exact ts (omega arith)) λ _ r l.
          >>=-Gives _ _ _ r (advance-Leaves r (omega arith)) λ _ r2 l2.
            >>=-Gives _ _ _ r2 (expr-Leaves fuel r2 (omega arith))
              λ b r3 l3. Leaves-le (bool_loop-Leaves fuel _ r3 (omega arith)) (omega arith))
        (at_words-Gives _ _ ts _ _ (λ _. unsupported_at-Gives _ _ _ ts)
          (pure-Gives _ _ ts (omega arith)))

  -- A condition ends, and passes a token.
  pub bool_expr-Leaves :
      (fuel : ℕ) (ts : Tokens R) → 16 * size ts + 8 ≤ fuel → Leaves (size ts) (bool_expr fuel ts)
  unfolding bool_expr
  bool_expr-Leaves zero ts h = absurd (omega arith)
  bool_expr-Leaves (suc fuel) ts h =
      >>=-Gives _ _ _ ts (expr-Leaves fuel ts (omega arith))
        λ e r l. Leaves-le (bool_loop-Leaves fuel e r (omega arith)) (omega arith)
