-- ===== src/Bootstrap/Parser/Progress/Statements.antt =====
-- bootstrap/parse.c: statements end.
use native_pascal.Prelude.{
  ℕ, zero, suc, ◌+◌, ◌*◌, ◌<◌, ◌≤◌, true, false, not, ◌&&◌, ◌≡◌, refl, arith,
}
use native_pascal.Bootstrap.Token.{Loc, Token, Tok, eof, ident, int, real, str, char, punct}
use native_pascal.Bootstrap.Parser.{Tokens, reserved_tok}
use native_pascal.Bootstrap.Parser.Progress.{
  size, token-Nonempty, Gives, Leaves, Leaves-le, pure-Gives, expected-Gives, unsupported_at-Gives,
  >>=-Gives, if-Gives, here-Gives, take_token-Gives, test-Gives, accept_word-Gives,
  accept_punct-Gives, expect_word-Leaves, expect_punct-Leaves, advance-Leaves, reject_if-Leaves,
  at_word-Leaves, ident_text-Leaves, at_word-keeps, reject_word-keeps, test-keeps,
}
use native_pascal.Bootstrap.Parser.Progress.Expressions.{factor-Leaves, expr-Leaves}
use native_pascal.Bootstrap.Parser.Progress.Conditions.{bool_expr-Leaves}
use native_pascal.Bootstrap.Parser.Statements.{
  at_end_or_else, at_label, is_exit, callable, assign_or_call, simple_statement, exit_statement,
  named_statement, reject_statements, direction, stmt_list, statement, statement_of, word_statement,
  if_statement, for_statement,
}

module _ {R : Type 0} where
  module _ (P : Tokens R → Type 0) where
    at_end_or_else-keeps : (ts : Tokens R) → P ts → Gives (λ _ r. P r) (at_end_or_else ts)
    unfolding at_end_or_else
    at_end_or_else-keeps ts h =
        >>=-Gives _ _ _ ts (at_word-keeps P _ ts h)
          λ a r l. >>=-Gives _ _ _ r (at_word-keeps P _ r l) λ b. pure-Gives _ _

    reject_statements-keeps :
        (loc : Loc) (ts : Tokens R) → P ts → Gives (λ _ r. P r) (reject_statements loc ts)
    unfolding reject_statements
    reject_statements-keeps loc ts h =
        >>=-Gives _ _ _ ts (reject_word-keeps P loc _ _ ts h) λ _ r l.
          >>=-Gives _ _ _ r (reject_word-keeps P loc _ _ r l) λ _ r l.
            >>=-Gives _ _ _ r (reject_word-keeps P loc _ _ r l)
              λ _ r l. reject_word-keeps P loc _ _ r l

  at_label-Leaves : (n : ℕ) (ts : Tokens R) → size ts < n → Leaves n (at_label ts)
  unfolding at_label
  at_label-Leaves n ts h =
      >>=-Gives _ _ _ ts (at_end_or_else-keeps (λ x. size x < n) ts h)
        λ ends r l. test-keeps n _ r l

  assign_or_call-Leaves :
      (fuel : ℕ) (loc : Loc) (ts : Tokens R)
      → 16 * size ts + 4 ≤ fuel
      → Leaves (size ts) (assign_or_call fuel loc ts)
  unfolding assign_or_call
  assign_or_call-Leaves fuel loc ts h = >>=-Gives _ _ _ ts (factor-Leaves fuel ts h) λ lhs r l.
      accept_punct-Gives _ _ r _
        (λ r2 l2.
          >>=-Gives _ _ _ r2 (expr-Leaves fuel r2 (omega arith))
            λ rhs r3 l3. pure-Gives _ _ r3 (omega arith))
        (if-Gives _ (callable lhs) _ _ r (pure-Gives _ _ r l) (expected-Gives _ _ r))

  exit_statement-Leaves :
      (t : Token R) (ts : Tokens R) → 0 < size ts → Leaves (size ts) (exit_statement t ts)
  unfolding exit_statement
  exit_statement-Leaves t ts p = >>=-Gives _ _ _ ts (advance-Leaves ts p) λ _ r l.
      >>=-Gives _ _ _ r (reject_if-Leaves (size ts) _ _ r (at_label-Leaves _ r l))
        λ _. pure-Gives _ _

  named_statement-Leaves :
      (fuel : ℕ) (t : Token R) (ts : Tokens R)
      → 16 * size ts + 4 ≤ fuel
      → Leaves (size ts) (named_statement fuel t ts)
  unfolding named_statement
  named_statement-Leaves fuel t ts h =
      if-Gives _ (reserved_tok t.tok) _ _ ts (expected-Gives _ _ ts) (
        test-Gives _ _ ts _ (unsupported_at-Gives _ _ _ ts) (assign_or_call-Leaves fuel t.loc ts h))

  simple_statement-Leaves :
      (fuel : ℕ) (t : Token R) (ts : Tokens R)
      → 0 < size ts
      → 16 * size ts + 4 ≤ fuel
      → Leaves (size ts) (simple_statement fuel t ts)
  unfolding simple_statement
  simple_statement-Leaves fuel t ts p h =
      let exits = exit_statement-Leaves t ts p in
      let names = named_statement-Leaves fuel t ts h in
      test-Gives _ _ ts _
        (if-Gives _ (not true && is_exit t) (exit_statement t) (named_statement fuel t) ts exits
          names)
        (if-Gives _ (not false && is_exit t) (exit_statement t) (named_statement fuel t) ts exits
          names)

  direction-Leaves : (ts : Tokens R) → Leaves (size ts) (direction ts)
  unfolding direction
  direction-Leaves ts =
      accept_word-Gives _ _ ts _ (pure-Gives _ _)
        (>>=-Gives _ _ _ ts (expect_word-Leaves _ ts) λ _. pure-Gives _ _)

  mutual
    unfolding stmt_list statement statement_of word_statement if_statement for_statement

    -- A list of statements ends.
    pub stmt_list-Leaves :
        (fuel : ℕ) (ts : Tokens R)
        → 16 * size ts + 8 ≤ fuel
        → Leaves (suc (size ts)) (stmt_list fuel ts)
    stmt_list-Leaves zero ts h = absurd (omega arith)
    stmt_list-Leaves (suc fuel) ts h =
        >>=-Gives _ _ _ ts (statement-Leaves fuel ts (omega arith)) λ s r l.
          accept_punct-Gives _ _ r _
            (λ r2 l2.
              >>=-Gives _ _ _ r2 (stmt_list-Leaves fuel r2 (omega arith))
                λ ss r3 l3. pure-Gives _ _ r3 (omega arith))
            (pure-Gives _ _ r l)

    pub statement-Leaves :
        (fuel : ℕ) (ts : Tokens R)
        → 16 * size ts + 7 ≤ fuel
        → Leaves (suc (size ts)) (statement fuel ts)
    statement-Leaves zero ts h = absurd (omega arith)
    statement-Leaves (suc fuel) ts h =
        take_token-Gives _ _ ts
          (λ t rest e. statement_of-Leaves fuel t t.tok ts (token-Nonempty e) (omega arith))
          (λ loc. statement_of-eof fuel _ ts (omega arith))

    statement_of-eof :
        (fuel : ℕ) (t : Token R) (ts : Tokens R)
        → 0 < fuel
        → Leaves (suc (size ts)) (statement_of fuel t eof ts)
    statement_of-eof zero t ts h = absurd (omega arith)
    statement_of-eof (suc fuel) t ts h = pure-Gives _ _ ts (omega arith)

    statement_of-Leaves :
        (fuel : ℕ) (t : Token R) (k : Tok R) (ts : Tokens R)
        → 0 < size ts
        → 16 * size ts + 6 ≤ fuel
        → Leaves (suc (size ts)) (statement_of fuel t k ts)
    statement_of-Leaves zero t k ts p h = absurd (omega arith)
    statement_of-Leaves (suc fuel) t (int _) ts p h = unsupported_at-Gives _ _ _ ts
    statement_of-Leaves (suc fuel) t (ident _ _) ts p h =
        word_statement-Leaves fuel t ts p (omega arith)
    statement_of-Leaves (suc fuel) t (real _) ts p h = pure-Gives _ _ ts (omega arith)
    statement_of-Leaves (suc fuel) t (str _) ts p h = pure-Gives _ _ ts (omega arith)
    statement_of-Leaves (suc fuel) t (char _) ts p h = pure-Gives _ _ ts (omega arith)
    statement_of-Leaves (suc fuel) t (punct _) ts p h = pure-Gives _ _ ts (omega arith)
    statement_of-Leaves (suc fuel) t eof ts p h = pure-Gives _ _ ts (omega arith)

    word_statement-Leaves :
        (fuel : ℕ) (t : Token R) (ts : Tokens R)
        → 0 < size ts
        → 16 * size ts + 5 ≤ fuel
        → Leaves (suc (size ts)) (word_statement fuel t ts)
    word_statement-Leaves zero t ts p h = absurd (omega arith)
    word_statement-Leaves (suc fuel) t ts p h =
        accept_word-Gives _ _ ts _
          (λ r l. >>=-Gives _ _ _ r (stmt_list-Leaves fuel r (omega arith)) λ ss r2 l2.
            >>=-Gives _ _ _ r2 (expect_word-Leaves _ r2) λ _ r3 l3. pure-Gives _ _ r3 (omega arith))
          (accept_word-Gives _ _ ts _
            (λ r l. Leaves-le (if_statement-Leaves fuel t.loc r (omega arith)) (omega arith))
            (accept_word-Gives _ _ ts _
              (λ r l. >>=-Gives _ _ _ r (bool_expr-Leaves fuel r (omega arith)) λ cond r2 l2.
                >>=-Gives _ _ _ r2 (expect_word-Leaves _ r2) λ _ r3 l3.
                  >>=-Gives _ _ _ r3 (statement-Leaves fuel r3 (omega arith))
                    λ body r4 l4. pure-Gives _ _ r4 (omega arith))
              (accept_word-Gives _ _ ts _
                (λ r l. Leaves-le (for_statement-Leaves fuel t.loc r (omega arith)) (omega arith))
                (>>=-Gives _ _ _ ts (reject_statements-keeps (λ x. size x ≡ size ts) t.loc ts refl)
                  λ _ r e.
                    >>=-Gives _ _ _ r (at_end_or_else-keeps (λ x. size x ≡ size ts) r e)
                      λ ends r2 e2. if-Gives _ ends _ _ r2 (pure-Gives _ _ r2 (omega arith)) (
                        Leaves-le (simple_statement-Leaves fuel t r2 (omega arith) (omega arith))
                          (omega arith))))))

    if_statement-Leaves :
        (fuel : ℕ) (loc : Loc) (ts : Tokens R)
        → 16 * size ts + 9 ≤ fuel
        → Leaves (size ts) (if_statement fuel loc ts)
    if_statement-Leaves zero loc ts h = absurd (omega arith)
    if_statement-Leaves (suc fuel) loc ts h =
        >>=-Gives _ _ _ ts (bool_expr-Leaves fuel ts (omega arith)) λ cond r l.
          >>=-Gives _ _ _ r (expect_word-Leaves _ r) λ _ r2 l2.
            >>=-Gives _ _ _ r2 (statement-Leaves fuel r2 (omega arith)) λ s r3 l3.
              accept_word-Gives _ _ r3 _
                (λ r4 l4.
                  >>=-Gives _ _ _ r4 (statement-Leaves fuel r4 (omega arith))
                    λ no r5 l5. pure-Gives _ _ r5 (omega arith))
                (pure-Gives _ _ r3 (omega arith))

    for_statement-Leaves :
        (fuel : ℕ) (loc : Loc) (ts : Tokens R)
        → 16 * size ts + 9 ≤ fuel
        → Leaves (size ts) (for_statement fuel loc ts)
    for_statement-Leaves zero loc ts h = absurd (omega arith)
    for_statement-Leaves (suc fuel) loc ts h =
        >>=-Gives _ _ _ ts
          (reject_if-Leaves (suc (size ts)) _ _ ts (at_word-Leaves _ _ ts (omega arith)))
          λ _ r l. here-Gives _ _ r λ varloc. >>=-Gives _ _ _ r (ident_text-Leaves r) λ var r2 l2.
            >>=-Gives _ _ _ r2 (expect_punct-Leaves _ r2) λ _ r3 l3.
              >>=-Gives _ _ _ r3 (expr-Leaves fuel r3 (omega arith)) λ from r4 l4.
                >>=-Gives _ _ _ r4 (direction-Leaves r4) λ down r5 l5.
                  >>=-Gives _ _ _ r5 (expr-Leaves fuel r5 (omega arith)) λ to r6 l6.
                    >>=-Gives _ _ _ r6 (expect_word-Leaves _ r6) λ _ r7 l7.
                      >>=-Gives _ _ _ r7 (statement-Leaves fuel r7 (omega arith))
                        λ body r8 l8. pure-Gives _ _ r8 (omega arith)
