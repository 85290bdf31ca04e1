-- ===== src/Bootstrap/Parser/Progress/TypeExprs.antt =====
-- bootstrap/parse.c: types end, and pass a token.
use native_pascal.Prelude.{ℕ, zero, suc, ◌+◌, ◌*◌, ◌<◌, ◌≤◌, arith}
use native_pascal.Bootstrap.Token.{Loc, Punct}
use native_pascal.Bootstrap.Parser.{Tokens, Construct}
use native_pascal.Bootstrap.Parser.Progress.{
  size, Leaves, Leaves-le, pure-Gives, unsupported-Gives, >>=-Gives, here-Gives, at_word-Gives,
  at_punct-Gives, accept_word-Gives, accept_punct-Gives, expect_word-Leaves, expect_punct-Leaves,
  advance-Leaves, reject_if-Leaves, at_word-Leaves, at_punct-Leaves, ident_text-Leaves,
  ident_list-Leaves, reject_at-keeps, reject_word-keeps, test-keeps,
}
use native_pascal.Bootstrap.Parser.Progress.Expressions.{simple-Leaves, expr-Leaves}
use native_pascal.Bootstrap.Parser.TypeExprs.{
  at_address, at_string, reject_types, require, named_type, type_expr, array_type, fields_loop,
}

module _ {R : Type 0} where
  at_address-Leaves : (n : ℕ) (ts : Tokens R) → size ts < n → Leaves n (at_address ts)
  unfolding at_address
  at_address-Leaves n ts h =
      >>=-Gives _ _ _ ts (at_word-Leaves _ _ ts h)
        λ a r l. >>=-Gives _ _ _ r (at_word-Leaves _ _ r l) λ b. pure-Gives _ _

  at_string-Leaves : (n : ℕ) (ts : Tokens R) → size ts < n → Leaves n (at_string ts)
  unfolding at_string
  at_string-Leaves n ts h =
      >>=-Gives _ _ _ ts (at_word-Leaves _ _ ts h)
        λ a r l. >>=-Gives _ _ _ r (test-keeps _ _ r l) λ b. pure-Gives _ _

  reject_types-Leaves :
      (n : ℕ) (loc : Loc) (ts : Tokens R) → size ts < n → Leaves n (reject_types loc ts)
  unfolding reject_types
  reject_types-Leaves n loc ts h =
      >>=-Gives _ _ _ ts (reject_word-keeps (λ x. size x < n) loc _ _ ts h) λ _ r l.
        >>=-Gives _ _ _ r (reject_word-keeps (λ x. size x < n) loc _ _ r l) λ _ r l.
          >>=-Gives _ _ _ r (reject_word-keeps (λ x. size x < n) loc _ _ r l) λ _ r l.
            >>=-Gives _ _ _ r (reject_at-keeps (λ x. size x < n) _ _ _ r (at_string-Leaves n r l))
              λ _ r l. >>=-Gives _ _ _ r (reject_word-keeps (λ x. size x < n) loc _ _ r l) λ _ r l.
                >>=-Gives _ _ _ r (reject_word-keeps (λ x. size x < n) loc _ _ r l) λ _ r l.
                  >>=-Gives _ _ _ r
                    (reject_at-keeps (λ x. size x < n) _ _ _ r (at_address-Leaves n r l))
                    λ _ r l. reject_at-keeps (λ x. size x < n) _ _ _ r (test-keeps n _ r l)

  require-Leaves :
      (p : Punct) (what : Construct) (ts : Tokens R) → Leaves (size ts) (require p what ts)
  unfolding require
  require-Leaves p what ts =
      at_punct-Gives _ _ ts _ (advance-Leaves ts) (unsupported-Gives _ what ts)

  named_type-Leaves :
      (fuel : ℕ) (loc : Loc) (ts : Tokens R)
      → 16 * size ts ≤ fuel
      → Leaves (size ts) (named_type fuel loc ts)
  unfolding named_type
  named_type-Leaves fuel loc ts h =
      at_word-Gives _ _ ts _
        (λ p. >>=-Gives _ _ _ ts (advance-Leaves ts p) λ _ r l.
          >>=-Gives _ _ _ r (expect_punct-Leaves _ r) λ _ r2 l2.
            >>=-Gives _ _ _ r2 (expr-Leaves fuel r2 (omega arith)) λ lo r3 l3.
              >>=-Gives _ _ _ r3 (expect_punct-Leaves _ r3)
                λ _ r4 l4. pure-Gives _ _ r4 (omega arith))
        (>>=-Gives _ _ _ ts (ident_text-Leaves ts) λ name r l.
          >>=-Gives _ _ _ r
            (reject_at-keeps (λ x. size x < size ts) _ _ _ r (at_punct-Leaves _ _ r l))
            λ _. pure-Gives _ _)

  mutual
    unfolding type_expr array_type fields_loop

    -- A type ends, and passes a token.
    pub type_expr-Leaves :
        (fuel : ℕ) (ts : Tokens R) → 16 * size ts < fuel → Leaves (size ts) (type_expr fuel ts)
    type_expr-Leaves zero ts h = absurd (omega arith)
    type_expr-Leaves (suc fuel) ts h = here-Gives _ _ ts λ loc.
        accept_punct-Gives _ _ ts _
          (λ r l.
            >>=-Gives _ _ _ r (ident_text-Leaves r) λ name r2 l2. pure-Gives _ _ r2 (omega arith))
          (accept_punct-Gives _ _ ts _
            (λ r l. >>=-Gives _ _ _ r (ident_list-Leaves fuel r (omega arith)) λ names r2 l2.
              >>=-Gives _ _ _ r2 (expect_punct-Leaves _ r2)
                λ _ r3 l3. pure-Gives _ _ r3 (omega arith))
            (accept_word-Gives _ _ ts _
              (λ r l. Leaves-le (array_type-Leaves fuel loc r (omega arith)) (omega arith))
              (accept_word-Gives _ _ ts _
                (λ r l. >>=-Gives _ _ _ r (fields_loop-Leaves fuel r (omega arith)) λ fields r2 l2.
                  >>=-Gives _ _ _ r2 (expect_word-Leaves _ r2)
                    λ _ r3 l3. pure-Gives _ _ r3 (omega arith))
                (>>=-Gives _ _ _ ts (reject_types-Leaves (suc (size ts)) loc ts (omega arith))
                  λ _ r l. Leaves-le (named_type-Leaves fuel loc r (omega arith)) (omega arith)))))

    array_type-Leaves :
        (fuel : ℕ) (loc : Loc) (ts : Tokens R)
        → 16 * size ts < fuel
        → Leaves (size ts) (array_type fuel loc ts)
    array_type-Leaves zero loc ts h = absurd (omega arith)
    array_type-Leaves (suc fuel) loc ts h = >>=-Gives _ _ _ ts (require-Leaves _ _ ts) λ _ r l.
        >>=-Gives _ _ _ r (simple-Leaves fuel r (omega arith)) λ lo r2 l2.
          >>=-Gives _ _ _ r2 (require-Leaves _ _ r2) λ _ r3 l3.
            >>=-Gives _ _ _ r3 (simple-Leaves fuel r3 (omega arith)) λ hi r4 l4.
              >>=-Gives _ _ _ r4 (reject_if-Leaves _ _ _ r4 (at_punct-Leaves _ _ r4 l4)) λ _ r5 l5.
                >>=-Gives _ _ _ r5 (expect_punct-Leaves _ r5) λ _ r6 l6.
                  >>=-Gives _ _ _ r6 (expect_word-Leaves _ r6) λ _ r7 l7.
                    >>=-Gives _ _ _ r7 (type_expr-Leaves fuel r7 (omega arith))
                      λ elem r8 l8. pure-Gives _ _ r8 (omega arith)

    fields_loop-Leaves :
        (fuel : ℕ) (ts : Tokens R)
        → 16 * size ts + 2 ≤ fuel
        → Leaves (suc (size ts)) (fields_loop fuel ts)
    fields_loop-Leaves zero ts h = absurd (omega arith)
    fields_loop-Leaves (suc fuel) ts h =
        at_word-Gives _ _ ts _ (λ p. pure-Gives _ _ ts (omega arith))
          (>>=-Gives _ _ _ ts
            (reject_if-Leaves (suc (size ts)) _ _ ts (at_word-Leaves _ _ ts (omega arith)))
            λ _ r l. here-Gives _ _ r λ loc.
              >>=-Gives _ _ _ r (ident_list-Leaves fuel r (omega arith)) λ names r2 l2.
                >>=-Gives _ _ _ r2 (expect_punct-Leaves _ r2) λ _ r3 l3.
                  >>=-Gives _ _ _ r3 (type_expr-Leaves fuel r3 (omega arith)) λ te r4 l4.
                    accept_punct-Gives _ _ r4 _
                      (λ r5 l5.
                        >>=-Gives _ _ _ r5 (fields_loop-Leaves fuel r5 (omega arith))
                          λ fields r6 l6. pure-Gives _ _ r6 (omega arith))
                      (pure-Gives _ _ r4 (omega arith)))
