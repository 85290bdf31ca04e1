-- ===== src/Bootstrap/Parser/Progress/Operators.antt =====
-- bootstrap/parse.c: operators and ADR.
use native_pascal.Prelude.{ℕ, suc, ◌<◌, arith, Option, none, some}
use native_pascal.Bootstrap.Token.{Loc}
use native_pascal.Bootstrap.Ast.{Op}
use native_pascal.Bootstrap.Parser.{Tokens, pure, ◌>>◌, advance}
use native_pascal.Bootstrap.Parser.Expressions.{
  term_op, simple_op, relation, adr_factor, at_selector,
}
use native_pascal.Bootstrap.Parser.Progress.{
  size, Gives, Leaves, pure-Gives, >>=-Gives, test-Gives, at_word-Gives, accept_word-Gives,
  accept_punct-Gives, advance-Leaves, reject_if-Leaves, at_word-Leaves, at_punct-Leaves,
  ident_text-Leaves,
}

module _ {R : Type 0} where
  -- An operator passes a token, and no operator none.
  abbrev pub Found : ℕ → Option Op → Tokens R → Type 0
  Found n none rest = size rest < suc n
  Found n (some _) rest = size rest < n

  pub term_op-Gives : (ts : Tokens R) → Gives (Found (size ts)) (term_op ts)
  unfolding term_op
  term_op-Gives ts = accept_punct-Gives _ _ ts _ (pure-Gives _ _) (
      accept_punct-Gives _ _ ts _ (pure-Gives _ _) (
        accept_word-Gives _ _ ts _ (pure-Gives _ _) (
          accept_word-Gives _ _ ts _ (pure-Gives _ _) (
            at_word-Gives _ _ ts _
              (λ h.
                test-Gives _ _ ts _ (pure-Gives _ _ ts (omega arith))
                  (>>=-Gives _ _ _ ts (advance-Leaves ts h) λ _. pure-Gives _ _))
              (test-Gives _ _ ts _ (pure-Gives _ _ ts (omega arith))
                (pure-Gives _ _ ts (omega arith)))))))

  pub simple_op-Gives : (ts : Tokens R) → Gives (Found (size ts)) (simple_op ts)
  unfolding simple_op
  simple_op-Gives ts = accept_punct-Gives _ _ ts _ (pure-Gives _ _) (
      accept_punct-Gives _ _ ts _ (pure-Gives _ _) (
        accept_word-Gives _ _ ts _
          (λ rest l.
            >>=-Gives _ _ _ rest (reject_if-Leaves _ _ _ rest (at_word-Leaves _ _ rest l))
              λ _. pure-Gives _ _)
          (>>=-Gives _ _ _ ts
            (reject_if-Leaves _ _ _ ts (at_word-Leaves (suc (size ts)) _ ts (omega arith)))
            λ _. pure-Gives _ _)))

  pub relation-Gives : (ts : Tokens R) → Gives (Found (size ts)) (relation ts)
  unfolding relation
  relation-Gives ts = accept_punct-Gives _ _ ts _ (pure-Gives _ _) (
      accept_punct-Gives _ _ ts _ (pure-Gives _ _) (
        accept_punct-Gives _ _ ts _ (pure-Gives _ _) (
          accept_punct-Gives _ _ ts _ (pure-Gives _ _) (
            accept_punct-Gives _ _ ts _ (pure-Gives _ _) (
              accept_punct-Gives _ _ ts _ (pure-Gives _ _) (
                >>=-Gives _ _ _ ts
                  (reject_if-Leaves _ _ _ ts (at_word-Leaves (suc (size ts)) _ ts (omega arith)))
                  λ _. pure-Gives _ _))))))

  at_selector-Leaves : (n : ℕ) (ts : Tokens R) → size ts < n → Leaves n (at_selector ts)
  unfolding at_selector
  at_selector-Leaves n ts h = >>=-Gives _ _ _ ts (at_punct-Leaves _ _ ts h) λ a r l.
      >>=-Gives _ _ _ r (at_punct-Leaves _ _ r l)
        λ b r2 l2. >>=-Gives _ _ _ r2 (at_punct-Leaves _ _ r2 l2) λ c. pure-Gives _ _

  pub adr_factor-Leaves :
      (loc : Loc) (ts : Tokens R) → 0 < size ts → Leaves (size ts) (adr_factor loc ts)
  unfolding adr_factor
  adr_factor-Leaves loc ts h = >>=-Gives _ _ _ ts (advance-Leaves ts h) λ _ r l.
      >>=-Gives _ _ _ r (ident_text-Leaves r) λ name r2 l2.
        >>=-Gives _ _ _ r2
          (reject_if-Leaves (size ts) _ _ r2 (at_selector-Leaves _ r2 (omega arith)))
          λ _. pure-Gives _ _

  pub passed-Leaves :
      {A : Type 0} (a : A) (ts : Tokens R) → 0 < size ts → Leaves (size ts) ((advance >> pure a) ts)
  passed-Leaves a ts p = >>=-Gives _ _ _ ts (advance-Leaves ts p) λ _. pure-Gives _ _
