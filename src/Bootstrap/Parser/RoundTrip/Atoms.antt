-- ===== src/Bootstrap/Parser/RoundTrip/Atoms.antt =====
-- bootstrap/parse.c: literals, names, calls, selectors and NOT are read as factors.
use native_pascal.Prelude.{ℕ, zero, suc, false, ◌&&◌, ◌≡◌, refl, sym, subst}
use native_pascal.Prelude.Int.{pos}
use native_pascal.Prelude.Memory.{Bytes}
use native_pascal.Bootstrap.Chars.{same_text}
use native_pascal.Bootstrap.Token.{Loc, Tok, punct, lparen, rparen}
use native_pascal.Bootstrap.Words.{kw_not, kw_adr}
use native_pascal.Bootstrap.Ast.{Op, Expr, Args, int, real, str, char, name, adr, call, un}
use native_pascal.Bootstrap.Parser.{
  Tokens, Parser, cur, stop, among, reserved_or_other, ident_text, is_word, reserved_tok,
}
use native_pascal.Bootstrap.Parser
use native_pascal.Bootstrap.Parser.Expressions.{
  factor, factor_of, ident_factor, named_factor, call_args, adr_factor, at_selector, ident_follows,
}
use native_pascal.Bootstrap.Parser.Print.{put, word, Nameable, Usable}
use native_pascal.Bootstrap.Parser.RoundTrip.{
  Only, out, pure-Only, >>=-Only, take_token-Only, test-Only, at_punct-false, no_word-Only,
  passes_word-Only, passes_punct-Only, no_punct-Only, reject_if-Only, advance-Only, if-Only,
}
use native_pascal.Bootstrap.Parser.RoundTrip.Levels.{NoSelector, Reads}
use native_pascal.Bootstrap.Parser.RoundTrip.Opens.{name_not}

module _ {R : Type 0} where
  -- A factor is what its token's case makes of it.
  factor-Only :
      {x : Expr R} {last : Tokens R} (ts : Tokens R)
      → ((fuel : ℕ) → Only x last (factor_of (suc fuel) (cur ts) (cur ts).tok ts))
      → (fuel : ℕ) → Only x last (factor fuel ts)
  unfolding factor factor_of stop
  factor-Only ts h zero = out
  factor-Only ts h (suc zero) = take_token-Only _ ts out
  factor-Only ts h (suc (suc fuel)) = take_token-Only _ ts (h fuel)

  module _ (loc : Loc) where
    pub int-Reads : (n : ℕ) → Reads {R = R} 1 (int loc (pos n)) (put loc (Tok.int n))
    unfolding factor_of
    int-Reads n rest _ =
        factor-Only (put loc (Tok.int n) rest) λ fuel. advance-Only _ _ rest (pure-Only _ rest)

    pub real-Reads : (r : R) → Reads 1 (real loc r) (put loc (Tok.real r))
    unfolding factor_of
    real-Reads r rest _ =
        factor-Only (put loc (Tok.real r) rest) λ fuel. advance-Only _ _ rest (pure-Only _ rest)

    pub str-Reads : (s : Bytes) → Reads {R = R} 1 (str loc s) (put loc (Tok.str s))
    unfolding factor_of
    str-Reads s rest _ =
        factor-Only (put loc (Tok.str s) rest) λ fuel. advance-Only _ _ rest (pure-Only _ rest)

    pub char-Reads : (c : ℕ) → Reads {R = R} 1 (char loc c) (put loc (Tok.char c))
    unfolding factor_of
    char-Reads c rest _ =
        factor-Only (put loc (Tok.char c) rest) λ fuel. advance-Only _ _ rest (pure-Only _ rest)

  -- A factor that starts with an identifier.
  ident_factor-Only :
      {x : Expr R} {last : Tokens R} (loc : Loc) (n : Bytes) (rest : Tokens R)
      → ((fuel : ℕ)
          → Only x last (
              ident_factor
                (suc fuel)
                (record { tok = word n; loc = loc })
                n
                (put loc (word n) rest)))
      → (fuel : ℕ) → Only x last (factor fuel (put loc (word n) rest))
  unfolding factor_of
  ident_factor-Only {x = x} {last = last} loc n rest k = factor-Only (put loc (word n) rest) of
    where
      of :
          (fuel : ℕ)
          → Only x last
              (ident_factor fuel (record { tok = word n; loc = loc }) n (put loc (word n) rest))
      of zero = unfold ident_factor stop in out
      of (suc fuel) = k fuel

  pub ident-Only :
      (loc : Loc) (n : Bytes) (rest : Tokens R)
      → Nameable n
      → Only n rest (ident_text (put loc (word n) rest))
  unfolding ident_text Parser.ident
  ident-Only loc n rest h =
      >>=-Only _ _ _
        (test-Only _ _ reserved_or_other h
          (take_token-Only _ _ (advance-Only _ _ rest (pure-Only _ rest))))
        (pure-Only _ rest)

  -- A name that may stand alone, up to what follows it.
  named-Only :
      {x : Expr R} {last : Tokens R} (loc : Loc) (n : Bytes) (rest : Tokens R)
      → Usable n
      → ((fuel : ℕ)
          → Only x last
              (named_factor fuel (record { tok = word n; loc = loc }) n (put loc (word n) rest)))
      → (fuel : ℕ) → Only x last (factor fuel (put loc (word n) rest))
  unfolding ident_factor
  named-Only {x = x} {last = last} loc n rest (h, a, s) k = ident_factor-Only loc n rest λ fuel.
      no_word-Only _ _ _ (name_not n h) (
        test-Only _ _ ident_follows refl (
          if-Only (same_text n kw_adr && ident_follows (put loc (word n) rest)) _ _ _
            (subst (λ b. (b && ident_follows (put loc (word n) rest)) ≡ false) (sym a) refl)
            (k fuel)))

  pub name-Reads :
      (loc : Loc) (n : Bytes) → Usable n → Reads {R = R} 0 (name loc n) (put loc (word n))
  unfolding named_factor stop
  name-Reads loc n (h, a, s) x last rest p k = named-Only loc n rest (h, a, s) goes
    where
      goes :
          (fuel : ℕ)
          → Only x last
              (named_factor fuel (record { tok = word n; loc = loc }) n (put loc (word n) rest))
      goes zero = out
      goes (suc fuel) =
          if-Only _ _ _ _ s
            (if-Only _ _ _ _ h (advance-Only _ _ rest (no_punct-Only _ rest _ p (k fuel))))

  at_selector-false : (rest : Tokens R) → NoSelector rest → Only false rest (at_selector rest)
  unfolding at_selector
  at_selector-false rest (a, b, c, _) = >>=-Only _ _ rest (at_punct-false rest _ b) (
      >>=-Only _ _ rest (at_punct-false rest _ a)
        (>>=-Only _ _ rest (at_punct-false rest _ c) (pure-Only _ rest)))

  pub adr-Reads :
      (loc : Loc) (n : Bytes)
      → Nameable n
      → Reads {R = R} 1 (adr loc n) (λ rest. put loc (word kw_adr) (put loc (word n) rest))
  unfolding ident_factor adr_factor
  adr-Reads loc n h rest s = ident_factor-Only loc kw_adr (put loc (word n) rest) λ fuel.
      no_word-Only _ _ _ refl (
        test-Only _ _ ident_follows refl (
          advance-Only _ _ (put loc (word n) rest) (
            >>=-Only _ _ _ (ident-Only loc n rest h) (
              >>=-Only _ _ rest (reject_if-Only _ _ rest (at_selector-false rest s))
                (pure-Only _ rest)))))

  -- A call, where its arguments are read.
  pub call-Reads :
      (loc : Loc) (n : Bytes) (args : Args R) (wargs : Tokens R → Tokens R)
      → Usable n
      → ((rest : Tokens R) (fuel : ℕ)
          → Only args rest (call_args fuel (wargs (put loc (punct rparen) rest))))
      → Reads 0
          (call loc n args)
          (λ rest. put loc (word n) (put loc (punct lparen) (wargs (put loc (punct rparen) rest))))
  unfolding named_factor stop
  call-Reads loc n args wargs (h, a, s) r x last rest p k = named-Only loc n _ (h, a, s) goes
    where
      inner : Tokens R
      inner = put loc (punct lparen) (wargs (put loc (punct rparen) rest))

      goes :
          (fuel : ℕ)
          → Only x last
              (named_factor fuel (record { tok = word n; loc = loc }) n (put loc (word n) inner))
      goes zero = out
      goes (suc fuel) = if-Only _ _ _ _ s (
          if-Only _ _ _ _ h (
            advance-Only _ _ inner
              (passes_punct-Only _ _ _ lparen refl (>>=-Only _ _ _ (r rest fuel) (k fuel)))))

  pub not-Reads :
      (loc : Loc) (a : Expr R) (wa : Tokens R → Tokens R)
      → Reads 1 a wa
      → Reads 1 (un loc Op.not a) (λ rest. put loc (word kw_not) (wa rest))
  unfolding ident_factor
  not-Reads loc a wa r rest s = ident_factor-Only loc kw_not (wa rest) λ fuel.
      passes_word-Only _ _ (wa rest) _ refl (>>=-Only _ _ _ (r rest s fuel) (pure-Only _ rest))
