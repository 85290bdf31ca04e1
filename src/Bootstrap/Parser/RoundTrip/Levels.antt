-- ===== src/Bootstrap/Parser/RoundTrip/Levels.antt =====
-- bootstrap/parse.c: what each level reads, and where its loops stop.
use native_pascal.Prelude.{
  ℕ, zero, suc, ◌≤◌, false, leb, ◌≡◌, refl, sym, subst, arith, Bool-cases, inl, inr, none, leb→le,
}
use native_pascal.Prelude.Memory.{Bytes}
use native_pascal.Bootstrap.Token.{
  Loc, Punct, lparen, rparen, lbrack, dot, caret, plus, minus, star, slash, punct,
}
use native_pascal.Bootstrap.Words.{kw_div, kw_mod, kw_and, kw_or, kw_xor, kw_in}
use native_pascal.Bootstrap.Ast.{Expr}
use native_pascal.Bootstrap.Parser.{Tokens, cur, is_word, punct_tok, stop}
use native_pascal.Bootstrap.Parser.Expressions.{
  term_op, simple_op, relation, selectors, factor, term_loop, term, simple_loop, simple, expr,
}
use native_pascal.Bootstrap.Parser.Print.{put, wrap}
use native_pascal.Bootstrap.Parser.RoundTrip.{
  Only, out, pure-Only, >>=-Only, here-Only, take_token-Only, test-Only, at_word-Only,
  at_word-false, no_word-Only, passes_punct-Only, no_punct-Only, expect_punct-Only, reject_if-Only,
}

module _ {R : Type 0} where
  abbrev pub NotPunct : Punct → Tokens R → Type 0
  NotPunct p rest = punct_tok (cur rest).tok p ≡ false

  abbrev pub NotWord : Bytes → Tokens R → Type 0
  NotWord w rest = is_word (cur rest) w ≡ false

  -- No selector or argument list stands there, no operator, no relation.
  abbrev pub NoSelector : Tokens R → Type 0
  NoSelector rest =
      NotPunct lbrack rest × NotPunct dot rest × NotPunct caret rest × NotPunct lparen rest

  abbrev pub NoTermOp : Tokens R → Type 0
  NoTermOp rest =
      NotPunct star rest
      × NotPunct slash rest
      × NotWord kw_div rest
      × NotWord kw_mod rest
      × NotWord kw_and rest

  abbrev pub NoSimpleOp : Tokens R → Type 0
  NoSimpleOp rest =
      NotPunct plus rest × NotPunct minus rest × NotWord kw_or rest × NotWord kw_xor rest

  abbrev pub NoRelation : Tokens R → Type 0
  NoRelation rest =
      NotPunct Punct.eq rest
      × NotPunct Punct.ne rest
      × NotPunct Punct.lt rest
      × NotPunct Punct.le rest
      × NotPunct Punct.gt rest
      × NotPunct Punct.ge rest
      × NotWord kw_in rest

  -- What may follow an expression without being read as more of it.
  abbrev pub Closes : Tokens R → Type 0
  Closes rest = NoSelector rest × NoTermOp rest × NoSimpleOp rest × NoRelation rest

  pub selectors-stop :
      (rest : Tokens R)
      → NoSelector rest
      → (fuel : ℕ) (e : Expr R) → Only e rest (selectors fuel e rest)
  unfolding selectors stop
  selectors-stop rest n zero e = out
  selectors-stop rest (a, b, c, d) (suc fuel) e = here-Only _ rest (
      no_punct-Only _ rest _ a
        (no_punct-Only _ rest _ b (no_punct-Only _ rest _ c (pure-Only e rest))))

  term_op-none : (rest : Tokens R) → NoTermOp rest → Only none rest (term_op rest)
  unfolding term_op
  term_op-none rest (a, b, c, d, e) = no_punct-Only _ rest _ a (
      no_punct-Only _ rest _ b (
        no_word-Only _ rest _ c (
          no_word-Only _ rest _ d
            (at_word-Only _ rest _ e (test-Only _ rest _ refl (pure-Only none rest))))))

  simple_op-none : (rest : Tokens R) → NoSimpleOp rest → Only none rest (simple_op rest)
  unfolding simple_op
  simple_op-none rest (a, b, c, d) = no_punct-Only _ rest _ a (
      no_punct-Only _ rest _ b (
        no_word-Only _ rest _ c (
          >>=-Only _ _ rest (reject_if-Only _ _ rest (at_word-false rest _ d))
            (pure-Only none rest))))

  relation-none : (rest : Tokens R) → NoRelation rest → Only none rest (relation rest)
  unfolding relation
  relation-none rest (a, b, c, d, e, f, g) = no_punct-Only _ rest _ a (
      no_punct-Only _ rest _ b (
        no_punct-Only _ rest _ c (
          no_punct-Only _ rest _ d (
            no_punct-Only _ rest _ e (
              no_punct-Only _ rest _ f (
                >>=-Only _ _ rest (reject_if-Only _ _ rest (at_word-false rest _ g))
                  (pure-Only none rest)))))))

  pub term_loop-stop :
      (rest : Tokens R)
      → NoTermOp rest
      → (fuel : ℕ) (e : Expr R) → Only e rest (term_loop fuel e rest)
  unfolding term_loop stop
  term_loop-stop rest n zero e = out
  term_loop-stop rest n (suc fuel) e =
      here-Only _ rest (>>=-Only _ _ rest (term_op-none rest n) (pure-Only e rest))

  pub simple_loop-stop :
      (rest : Tokens R)
      → NoSimpleOp rest
      → (fuel : ℕ) (e : Expr R) → Only e rest (simple_loop fuel e rest)
  unfolding simple_loop stop
  simple_loop-stop rest n zero e = out
  simple_loop-stop rest n (suc fuel) e =
      here-Only _ rest (>>=-Only _ _ rest (simple_op-none rest n) (pure-Only e rest))

  -- The parser of a level reads the text `w` as `e`, whatever its loop makes of `e` and the rest.
  abbrev pub Reads : ℕ → Expr R → (Tokens R → Tokens R) → Type 0
  Reads zero e w =
      (x : Expr R) (last rest : Tokens R)
      → NotPunct lparen rest
      → ((fuel : ℕ) → Only x last (selectors fuel e rest))
      → (fuel : ℕ) → Only x last (factor fuel (w rest))
  Reads (suc zero) e w =
      (rest : Tokens R) → NoSelector rest → (fuel : ℕ) → Only e rest (factor fuel (w rest))
  Reads (suc (suc zero)) e w =
      (x : Expr R) (last rest : Tokens R)
      → NoSelector rest
      → ((fuel : ℕ) → Only x last (term_loop fuel e rest))
      → (fuel : ℕ) → Only x last (term fuel (w rest))
  Reads (suc (suc (suc zero))) e w =
      (x : Expr R) (last rest : Tokens R)
      → NoSelector rest
      → NoTermOp rest
      → ((fuel : ℕ) → Only x last (simple_loop fuel e rest))
      → (fuel : ℕ) → Only x last (simple fuel (w rest))
  Reads _ e w = (rest : Tokens R) → Closes rest → (fuel : ℕ) → Only e rest (expr fuel (w rest))

  -- The text starts with no sign.
  abbrev pub Unsigned : (Tokens R → Tokens R) → Type 0
  Unsigned w = (rest : Tokens R) → NotPunct minus (w rest) × NotPunct plus (w rest)

  module _ (e : Expr R) (w : Tokens R → Tokens R) where
    term-Reads : Reads 1 e w → Reads 2 e w
    unfolding term stop
    term-Reads r x last rest n k zero = out
    term-Reads r x last rest n k (suc fuel) = >>=-Only _ _ (w rest) (r rest n fuel) (k fuel)

    simple-Reads : Unsigned w → Reads 2 e w → Reads 3 e w
    unfolding simple stop
    simple-Reads u r x last rest n t k zero = out
    simple-Reads u r x last rest n t k (suc fuel) = here-Only _ (w rest) (
        no_punct-Only _ (w rest) _ (u rest).0 (
          no_punct-Only _ (w rest) _ (u rest).1 (
            >>=-Only _ _ (w rest) (r e rest rest n (λ f. term_loop-stop rest t f e) fuel)
              (k fuel))))

    expr-Reads : Reads 3 e w → Reads 4 e w
    unfolding expr stop
    expr-Reads r rest c zero = out
    expr-Reads r rest (n, t, s, l) (suc fuel) =
        >>=-Only _ _ (w rest) (r e rest rest n t (λ f. simple_loop-stop rest s f e) fuel)
          (here-Only _ rest (>>=-Only _ _ rest (relation-none rest l) (pure-Only e rest)))

    factor-Reads : Reads 0 e w → Reads 1 e w
    factor-Reads r rest (a, b, c, d) =
        r e rest rest d λ fuel. selectors-stop rest (a, b, c, d) fuel e

    pub next-Reads : (j : ℕ) → (j ≤ 2 → Unsigned w) → Reads j e w → Reads (suc j) e w
    next-Reads zero u r = factor-Reads r
    next-Reads (suc zero) u r = term-Reads r
    next-Reads (suc (suc zero)) u r = simple-Reads (u (omega arith)) r
    next-Reads (suc (suc (suc zero))) u r = expr-Reads r
    next-Reads (suc (suc (suc (suc j)))) u r = r

    -- A text that a level reads is read by the looser ones.
    pub loose-Reads : (k l : ℕ) → k ≤ l → (k ≤ 2 → Unsigned w) → Reads k e w → Reads l e w
    loose-Reads k zero h u r = let same : k ≡ 0 = omega arith in subst (λ j. Reads j e w) same r
    loose-Reads k (suc l) h u r = elim (Bool-cases (leb k l)) [
      | inl y ↦
          let le : k ≤ l = leb→le k l y in
          next-Reads l (λ m. u (omega arith)) (loose-Reads k l le u r)
      | inr n ↦ let same : k ≡ suc l = ground arith in subst (λ j. Reads j e w) same r
    ]

    -- A text in parentheses.
    paren-Reads : (loc : Loc) → Reads 4 e w → Reads 0 e (wrap false loc w)
    unfolding factor stop
    paren-Reads loc r x last rest n k zero = out
    paren-Reads loc r x last rest n k (suc zero) = take_token-Only _ _ out
    paren-Reads loc r x last rest n k (suc (suc zero)) = take_token-Only _ _ out
    paren-Reads loc r x last rest n k (suc (suc (suc fuel))) = take_token-Only _ _ (
        passes_punct-Only _ _ _ lparen refl (
          >>=-Only _ _ _ (r (put loc (punct rparen) rest) closes fuel)
            (>>=-Only _ _ _ (expect_punct-Only _ rest rparen refl) (k fuel))))
      where
        closes : Closes (put loc (punct rparen) rest)
        closes = (
          (refl, refl, refl, refl),
          (refl, refl, refl, refl, refl),
          (refl, refl, refl, refl),
          (refl, refl, refl, refl, refl, refl, refl),
        )

  -- A text that is in parentheses where it has to be.
  pub wrap-Reads :
      (e : Expr R) (w : Tokens R → Tokens R) (k l : ℕ) (loc : Loc)
      → k ≤ 4
      → (k ≤ 2 → Unsigned w)
      → Reads k e w
      → Reads l e (wrap (leb k l) loc w)
  wrap-Reads e w k l loc h u r = elim (Bool-cases (leb k l)) [
    | inl y ↦ subst (λ b. Reads l e (wrap b loc w)) (sym y) (loose-Reads e w k l (leb→le k l y) u r)
    | inr n ↦
        subst (λ b. Reads l e (wrap b loc w)) (sym n)
          (loose-Reads e (wrap false loc w) 0 l (omega arith) (λ _ rest. (refl, refl))
            (paren-Reads e w loc (loose-Reads e w k 4 h u r)))
  ]
