-- ===== src/Bootstrap/Parser/Progress/Expressions.antt =====
-- bootstrap/parse.c: expressions end, and pass a token.
use native_pascal.Prelude.{ℕ, zero, suc, ◌+◌, ◌*◌, ◌<◌, ◌≤◌, true, false, ◌&&◌, arith}
use native_pascal.Prelude.Memory.{Bytes}
use native_pascal.Bootstrap.Token.{Loc, Token, Tok, eof, ident, int, real, str, char, punct}
use native_pascal.Bootstrap.Ast.{Expr}
use native_pascal.Bootstrap.Words.{kw_adr, kw_ads}
use native_pascal.Bootstrap.Parser.{Tokens, is_word, reserved_tok}
use native_pascal.Bootstrap.Parser.Expressions.{
  selectors, factor, punct_factor, ident_factor, named_factor, factor_of, call_args, args_loop,
  term_loop, term, simple_loop, simple, expr,
}
use native_pascal.Bootstrap.Parser.Progress.{
  size, option-Gives, token-Nonempty, Leaves, Leaves-le, pure-Gives, expected-Gives,
  unsupported_at-Gives, >>=-Gives, if-Gives, here-Gives, take_token-Gives, test-Gives,
  at_punct-Gives, accept_word-Gives, accept_punct-Gives, expect_punct-Leaves, advance-Leaves,
  reject_if-Leaves, at_punct-Leaves, ident_text-Leaves,
}
use native_pascal.Bootstrap.Parser.Progress.Operators.{
  Found, term_op-Gives, simple_op-Gives, relation-Gives, adr_factor-Leaves, passed-Leaves,
}

module _ {R : Type 0} where
  mutual
    unfolding selectors factor factor_of punct_factor ident_factor named_factor call_args args_loop
        term_loop term simple_loop simple expr

    selectors-Leaves :
        (fuel : ℕ) (e : Expr R) (ts : Tokens R)
        → 16 * size ts < fuel
        → Leaves (suc (size ts)) (selectors fuel e ts)
    selectors-Leaves zero e ts h = absurd (omega arith)
    selectors-Leaves (suc fuel) e ts h = here-Gives _ _ ts λ loc.
        accept_punct-Gives _ _ ts _
          (λ r l. >>=-Gives _ _ _ r (expr-Leaves fuel r (omega arith)) λ b r2 l2.
            >>=-Gives _ _ _ r2 (reject_if-Leaves _ _ _ r2 (at_punct-Leaves _ _ r2 l2)) λ _ r3 l3.
              >>=-Gives _ _ _ r3 (expect_punct-Leaves _ r3)
                λ _ r4 l4. Leaves-le (selectors-Leaves fuel _ r4 (omega arith)) (omega arith))
          (accept_punct-Gives _ _ ts _
            (λ r l.
              >>=-Gives _ _ _ r (ident_text-Leaves r)
                λ name r2 l2. Leaves-le (selectors-Leaves fuel _ r2 (omega arith)) (omega arith))
            (accept_punct-Gives _ _ ts _
              (λ r l. Leaves-le (selectors-Leaves fuel _ r (omega arith)) (omega arith))
              (pure-Gives _ _ ts (omega arith))))

    pub factor-Leaves :
        (fuel : ℕ) (ts : Tokens R) → 16 * size ts + 4 ≤ fuel → Leaves (size ts) (factor fuel ts)
    factor-Leaves zero ts h = absurd (omega arith)
    factor-Leaves (suc fuel) ts h =
        take_token-Gives _ _ ts
          (λ t rest e. factor_of-Leaves fuel t t.tok ts (token-Nonempty e) (omega arith))
          (λ loc. factor_of-eof fuel _ ts (omega arith))

    factor_of-eof :
        (fuel : ℕ) (t : Token R) (ts : Tokens R)
        → 0 < fuel
        → Leaves (size ts) (factor_of fuel t eof ts)
    factor_of-eof zero t ts h = absurd (omega arith)
    factor_of-eof (suc fuel) t ts h = expected-Gives _ _ ts

    factor_of-Leaves :
        (fuel : ℕ) (t : Token R) (k : Tok R) (ts : Tokens R)
        → 0 < size ts
        → 16 * size ts + 3 ≤ fuel
        → Leaves (size ts) (factor_of fuel t k ts)
    factor_of-Leaves zero t k ts p h = absurd (omega arith)
    factor_of-Leaves (suc fuel) t (int n) ts p h = passed-Leaves _ ts p
    factor_of-Leaves (suc fuel) t (real r) ts p h = passed-Leaves _ ts p
    factor_of-Leaves (suc fuel) t (str s) ts p h = passed-Leaves _ ts p
    factor_of-Leaves (suc fuel) t (char c) ts p h = passed-Leaves _ ts p
    factor_of-Leaves (suc fuel) t (punct _) ts p h = punct_factor-Leaves fuel t.loc ts (omega arith)
    factor_of-Leaves (suc fuel) t (ident text _) ts p h =
        ident_factor-Leaves fuel t text ts p (omega arith)
    factor_of-Leaves (suc fuel) t eof ts p h = expected-Gives _ _ ts

    punct_factor-Leaves :
        (fuel : ℕ) (loc : Loc) (ts : Tokens R)
        → 16 * size ts < fuel
        → Leaves (size ts) (punct_factor fuel loc ts)
    punct_factor-Leaves zero loc ts h = absurd (omega arith)
    punct_factor-Leaves (suc fuel) loc ts h =
        accept_punct-Gives _ _ ts _
          (λ r l. >>=-Gives _ _ _ r (expr-Leaves fuel r (omega arith)) λ e r2 l2.
            >>=-Gives _ _ _ r2 (expect_punct-Leaves _ r2)
              λ _ r3 l3. Leaves-le (selectors-Leaves fuel _ r3 (omega arith)) (omega arith))
          (at_punct-Gives _ _ ts _ (λ _. unsupported_at-Gives _ _ _ ts) (expected-Gives _ _ ts))

    ident_factor-Leaves :
        (fuel : ℕ) (t : Token R) (text : Bytes) (ts : Tokens R)
        → 0 < size ts
        → 16 * size ts + 2 ≤ fuel
        → Leaves (size ts) (ident_factor fuel t text ts)
    ident_factor-Leaves zero t text ts p h = absurd (omega arith)
    ident_factor-Leaves (suc fuel) t text ts p h =
        accept_word-Gives _ _ ts _
          (λ r l.
            >>=-Gives _ _ _ r (factor-Leaves fuel r (omega arith))
              λ e r2 l2. pure-Gives _ _ r2 (omega arith))
          (test-Gives _ _ ts _
            (if-Gives _ (is_word t kw_adr && true) _ _ ts (adr_factor-Leaves t.loc ts p)
              (named_factor-Leaves fuel t text ts p (omega arith)))
            (if-Gives _ (is_word t kw_adr && false) _ _ ts (adr_factor-Leaves t.loc ts p)
              (named_factor-Leaves fuel t text ts p (omega arith))))

    -- What stands behind the tests of ADR.
    named_factor-Leaves :
        (fuel : ℕ) (t : Token R) (text : Bytes) (ts : Tokens R)
        → 0 < size ts
        → 16 * size ts < fuel
        → Leaves (size ts) (named_factor fuel t text ts)
    named_factor-Leaves zero t text ts p h = absurd (omega arith)
    named_factor-Leaves (suc fuel) t text ts p h =
        if-Gives _ (is_word t kw_ads) _ _ ts (unsupported_at-Gives _ _ _ ts) (
          if-Gives _ (reserved_tok t.tok) _ _ ts (expected-Gives _ _ ts) (
            >>=-Gives _ _ _ ts (advance-Leaves ts p) λ _ r l.
              accept_punct-Gives _ _ r _
                (λ r2 l2.
                  >>=-Gives _ _ _ r2 (call_args-Leaves fuel r2 (omega arith)) λ args r3 l3.
                    Leaves-le (selectors-Leaves fuel _ r3 (omega arith)) (omega arith))
                (Leaves-le (selectors-Leaves fuel _ r (omega arith)) (omega arith))))

    call_args-Leaves :
        (fuel : ℕ) (ts : Tokens R) → 16 * size ts + 9 ≤ fuel → Leaves (size ts) (call_args fuel ts)
    call_args-Leaves zero ts h = absurd (omega arith)
    call_args-Leaves (suc fuel) ts h =
        at_punct-Gives _ _ ts _
          (λ p.
            >>=-Gives _ _ _ ts (pure-Gives (λ _ rest. size rest < suc (size ts)) _ ts (omega arith))
              λ args r l.
                >>=-Gives _ _ _ r (expect_punct-Leaves _ r)
                  λ _ r2 l2. pure-Gives _ _ r2 (omega arith))
          (>>=-Gives _ _ _ ts (args_loop-Leaves fuel ts (omega arith)) λ args r l.
            >>=-Gives _ _ _ r (expect_punct-Leaves _ r) λ _ r2 l2. pure-Gives _ _ r2 (omega arith))

    args_loop-Leaves :
        (fuel : ℕ) (ts : Tokens R) → 16 * size ts + 8 ≤ fuel → Leaves (size ts) (args_loop fuel ts)
    args_loop-Leaves zero ts h = absurd (omega arith)
    args_loop-Leaves (suc fuel) ts h =
        >>=-Gives _ _ _ ts (expr-Leaves fuel ts (omega arith)) λ e r l.
          >>=-Gives _ _ _ r (reject_if-Leaves _ _ _ r (at_punct-Leaves _ _ r l)) λ _ r2 l2.
            accept_punct-Gives _ _ r2 _
              (λ r3 l3.
                >>=-Gives _ _ _ r3 (args_loop-Leaves fuel r3 (omega arith))
                  λ args r4 l4. pure-Gives _ _ r4 (omega arith))
              (pure-Gives _ _ r2 l2)

    term_loop-Leaves :
        (fuel : ℕ) (e : Expr R) (ts : Tokens R)
        → 16 * size ts < fuel
        → Leaves (suc (size ts)) (term_loop fuel e ts)
    term_loop-Leaves zero e ts h = absurd (omega arith)
    term_loop-Leaves (suc fuel) e ts h = here-Gives _ _ ts λ loc.
        >>=-Gives _ _ _ ts (term_op-Gives ts) λ found r l.
          option-Gives _ (λ o. Found (size ts) o r) found _ _ r l (pure-Gives _ _ r)
            λ op l.
              >>=-Gives _ _ _ r (factor-Leaves fuel r (omega arith))
                λ b r2 l2. Leaves-le (term_loop-Leaves fuel _ r2 (omega arith)) (omega arith)

    pub term-Leaves :
        (fuel : ℕ) (ts : Tokens R) → 16 * size ts + 5 ≤ fuel → Leaves (size ts) (term fuel ts)
    term-Leaves zero ts h = absurd (omega arith)
    term-Leaves (suc fuel) ts h =
        >>=-Gives _ _ _ ts (factor-Leaves fuel ts (omega arith))
          λ e r l. Leaves-le (term_loop-Leaves fuel e r (omega arith)) (omega arith)

    simple_loop-Leaves :
        (fuel : ℕ) (e : Expr R) (ts : Tokens R)
        → 16 * size ts < fuel
        → Leaves (suc (size ts)) (simple_loop fuel e ts)
    simple_loop-Leaves zero e ts h = absurd (omega arith)
    simple_loop-Leaves (suc fuel) e ts h = here-Gives _ _ ts λ loc.
        >>=-Gives _ _ _ ts (simple_op-Gives ts) λ found r l.
          option-Gives _ (λ o. Found (size ts) o r) found _ _ r l (pure-Gives _ _ r)
            λ op l.
              >>=-Gives _ _ _ r (term-Leaves fuel r (omega arith))
                λ b r2 l2. Leaves-le (simple_loop-Leaves fuel _ r2 (omega arith)) (omega arith)

    pub simple-Leaves :
        (fuel : ℕ) (ts : Tokens R) → 16 * size ts + 6 ≤ fuel → Leaves (size ts) (simple fuel ts)
    simple-Leaves zero ts h = absurd (omega arith)
    simple-Leaves (suc fuel) ts h = here-Gives _ _ ts λ loc.
        accept_punct-Gives _ _ ts _
          (λ r l.
            >>=-Gives _ _ _ r (term-Leaves fuel r (omega arith))
              λ e r2 l2. Leaves-le (simple_loop-Leaves fuel _ r2 (omega arith)) (omega arith))
          (accept_punct-Gives _ _ ts _
            (λ r l.
              >>=-Gives _ _ _ r (term-Leaves fuel r (omega arith))
                λ e r2 l2. Leaves-le (simple_loop-Leaves fuel _ r2 (omega arith)) (omega arith))
            (>>=-Gives _ _ _ ts (term-Leaves fuel ts (omega arith))
              λ e r2 l2. Leaves-le (simple_loop-Leaves fuel _ r2 (omega arith)) (omega arith)))

    -- An expression ends, and passes a token.
    pub expr-Leaves :
        (fuel : ℕ) (ts : Tokens R) → 16 * size ts + 7 ≤ fuel → Leaves (size ts) (expr fuel ts)
    expr-Leaves zero ts h = absurd (omega arith)
    expr-Leaves (suc fuel) ts h = >>=-Gives _ _ _ ts (simple-Leaves fuel ts (omega arith)) λ e r l.
        here-Gives _ _ r λ loc. >>=-Gives _ _ _ r (relation-Gives r) λ found r2 l2.
          option-Gives _ (λ o. Found (size r) o r2) found _ _ r2 l2
            (λ l3. pure-Gives _ _ r2 (omega arith))
            λ op l3.
              >>=-Gives _ _ _ r2 (simple-Leaves fuel r2 (omega arith))
                λ b r3 l4. pure-Gives _ _ r3 (omega arith)
