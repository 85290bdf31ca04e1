-- ===== src/Bootstrap/Parser/Progress/Routines.antt =====
-- bootstrap/parse.c: routines end, and pass a token.
use native_pascal.Prelude.{
  ℕ, zero, suc, ◌+◌, ◌*◌, ◌<◌, ◌≤◌, Bool, true, false, not, ◌||◌, ◌≡◌, refl, arith,
}
use native_pascal.Bootstrap.Token.{Loc, Token, eof}
use native_pascal.Bootstrap.Parser.{
  Tokens, end, token, Parser, reject_if, parameter_mode, procedural_parameter, pure, ◌>>=◌, ◌>>◌,
  test, at_word,
}
use native_pascal.Bootstrap.Parser.Progress.{
  size, Gives, Leaves, pure-Gives, unsupported_at-Gives, >>=-Gives, if-Gives, here-Gives,
  take_token-Gives, at_punct-Gives, accept_word-Gives, accept_punct-Gives, expect_word-Leaves,
  expect_punct-Leaves, ident-Leaves, advance-Leaves, advance-stays, accept_word-Leaves,
  reject_if-Leaves, at_word-Leaves, ident_list-Leaves, at_word-keeps, bool-Gives,
}
use native_pascal.Bootstrap.Chars.{same_text}
use native_pascal.Bootstrap.Words.{kw_c}
use native_pascal.Bootstrap.Tree.{Routine}
use native_pascal.Bootstrap.Parser.{text_of}
use native_pascal.Bootstrap.Parser.Routines.{
  orig_of, at_mode, at_routine, param_mode, param_group, param_loop, params, result_type, attribute,
  routine_heading, routine_body, at_extern, routine_decl,
}
use native_pascal.Bootstrap.Parser.Progress.TypeExprs.{type_expr-Leaves}
use native_pascal.Bootstrap.Parser.Progress.Statements.{stmt_list-Leaves}
use native_pascal.Bootstrap.Parser.Progress.Declarations.{section_loop-Leaves}

module _ {R : Type 0} where
  module _ (P : Tokens R → Type 0) where
    at_mode-keeps : (ts : Tokens R) → P ts → Gives (λ _ r. P r) (at_mode ts)
    unfolding at_mode
    at_mode-keeps ts h = >>=-Gives _ _ _ ts (at_word-keeps P _ ts h) λ a r l.
        >>=-Gives _ _ _ r (at_word-keeps P _ r l)
          λ b r2 l2. >>=-Gives _ _ _ r2 (at_word-keeps P _ r2 l2) λ c. pure-Gives _ _

    at_routine-keeps : (ts : Tokens R) → P ts → Gives (λ _ r. P r) (at_routine ts)
    unfolding at_routine
    at_routine-keeps ts h =
        >>=-Gives _ _ _ ts (at_word-keeps P _ ts h)
          λ a r l. >>=-Gives _ _ _ r (at_word-keeps P _ r l) λ b. pure-Gives _ _

  pub at_routine-Gives :
      {B : Type 0} (Q : B → Tokens R → Type 0) (f : Bool → Parser R B) (ts : Tokens R)
      → (0 < size ts → Gives Q (f true ts))
      → Gives Q (f false ts)
      → Gives Q ((at_routine >>= f) ts)
  unfolding ◌>>=◌ at_routine at_word test pure size
  at_routine-Gives Q f (end _) t e = e
  at_routine-Gives Q f (token x rest) t e = bool-Gives Q f _ (token x rest) (t (omega arith)) e

  param_mode-Leaves : (ts : Tokens R) → Leaves (suc (size ts)) (param_mode ts)
  unfolding param_mode
  param_mode-Leaves ts =
      accept_word-Gives _ _ ts _ (λ r l. pure-Gives _ _ r (omega arith))
        (take_token-Gives _ _ ts (λ t rest e. refuses t)
          (λ loc. refuses (record { tok = eof; loc = loc })))
    where
      refuses :
          (t : Token R)
          → Leaves (suc (size ts)) (
              (reject_if at_mode (parameter_mode (orig_of t.tok))
                  >> (reject_if at_routine procedural_parameter >> pure false))
                ts)
      refuses t =
          >>=-Gives _ _ _ ts
            (reject_if-Leaves (suc (size ts)) _ _ ts
              (at_mode-keeps (λ x. size x < suc (size ts)) ts (omega arith)))
            λ _ r l.
              >>=-Gives _ _ _ r
                (reject_if-Leaves (suc (size ts)) _ _ r
                  (at_routine-keeps (λ x. size x < suc (size ts)) r l))
                λ _. pure-Gives _ _

  param_group-Leaves :
      (fuel : ℕ) (ts : Tokens R) → 16 * size ts < fuel → Leaves (size ts) (param_group fuel ts)
  unfolding param_group
  param_group-Leaves fuel ts h = here-Gives _ _ ts λ loc.
      >>=-Gives _ _ _ ts (param_mode-Leaves ts) λ is_var r l.
        >>=-Gives _ _ _ r (ident_list-Leaves fuel r (omega arith)) λ names r2 l2.
          >>=-Gives _ _ _ r2 (expect_punct-Leaves _ r2) λ _ r3 l3.
            >>=-Gives _ _ _ r3 (type_expr-Leaves fuel r3 (omega arith))
              λ te r4 l4. pure-Gives _ _ r4 (omega arith)

  param_loop-Leaves :
      (fuel : ℕ) (ts : Tokens R) → 16 * size ts + 2 ≤ fuel → Leaves (size ts) (param_loop fuel ts)
  unfolding param_loop
  param_loop-Leaves zero ts h = absurd (omega arith)
  param_loop-Leaves (suc fuel) ts h =
      >>=-Gives _ _ _ ts (param_group-Leaves fuel ts (omega arith)) λ g r l.
        accept_punct-Gives _ _ r _
          (λ r2 l2.
            >>=-Gives _ _ _ r2 (param_loop-Leaves fuel r2 (omega arith))
              λ gs r3 l3. pure-Gives _ _ r3 (omega arith))
          (pure-Gives _ _ r l)

  params-Leaves :
      (fuel : ℕ) (ts : Tokens R) → 16 * size ts ≤ fuel → Leaves (suc (size ts)) (params fuel ts)
  unfolding params
  params-Leaves fuel ts h =
      accept_punct-Gives _ _ ts _
        (λ r l. >>=-Gives _ _ _ r (param_loop-Leaves fuel r (omega arith)) λ gs r2 l2.
          >>=-Gives _ _ _ r2 (expect_punct-Leaves _ r2) λ _ r3 l3. pure-Gives _ _ r3 (omega arith))
        (pure-Gives _ _ ts (omega arith))

  result_type-Leaves :
      (fuel : ℕ) (is_func : Bool) (ts : Tokens R)
      → 16 * size ts ≤ fuel
      → Leaves (suc (size ts)) (result_type fuel is_func ts)
  unfolding result_type
  result_type-Leaves fuel false ts h = pure-Gives _ _ ts (omega arith)
  result_type-Leaves fuel true ts h =
      accept_punct-Gives _ _ ts _
        (λ r l.
          >>=-Gives _ _ _ r (type_expr-Leaves fuel r (omega arith))
            λ te r2 l2. pure-Gives _ _ r2 (omega arith))
        (pure-Gives _ _ ts (omega arith))

  attribute-Leaves : (ts : Tokens R) → Leaves (suc (size ts)) (attribute ts)
  unfolding attribute
  attribute-Leaves ts =
      accept_punct-Gives _ _ ts _
        (λ r l. >>=-Gives _ _ _ r (ident-Leaves r) λ a r2 l2.
          at_punct-Gives _ _ r2 _
            (λ p.
              if-Gives _ (not (same_text (text_of a.tok) kw_c) || not true) _ _ r2
                (unsupported_at-Gives _ _ _ r2)
                (>>=-Gives _ _ _ r2 (advance-Leaves r2 p)
                  λ _ r3 l3. pure-Gives _ _ r3 (omega arith)))
            (if-Gives _ (not (same_text (text_of a.tok) kw_c) || not false) _ _ r2
              (unsupported_at-Gives _ _ _ r2)
              (>>=-Gives _ _ _ r2 (advance-stays r2) λ _ r3 l3. pure-Gives _ _ r3 (omega arith))))
        (pure-Gives _ _ ts (omega arith))

  routine_heading-Leaves :
      (fuel : ℕ) (ts : Tokens R)
      → 0 < size ts
      → 16 * size ts ≤ fuel
      → Leaves (size ts) (routine_heading fuel ts)
  unfolding routine_heading
  routine_heading-Leaves fuel ts p h = here-Gives _ _ ts λ loc.
      >>=-Gives _ _ _ ts (at_word-keeps (λ x. size x ≡ size ts) _ ts refl) λ is_func r e.
        >>=-Gives _ _ _ r (advance-Leaves r (omega arith)) λ _ r2 l2.
          >>=-Gives _ _ _ r2 (ident-Leaves r2) λ n r3 l3.
            >>=-Gives _ _ _ r3 (params-Leaves fuel r3 (omega arith)) λ gs r4 l4.
              >>=-Gives _ _ _ r4 (result_type-Leaves fuel is_func r4 (omega arith)) λ result r5 l5.
                >>=-Gives _ _ _ r5 (attribute-Leaves r5) λ is_c r6 l6.
                  >>=-Gives _ _ _ r6 (expect_punct-Leaves _ r6)
                    λ _ r7 l7. pure-Gives _ _ r7 (omega arith)

  routine_body-Leaves :
      (fuel : ℕ) (loc : Loc) (d : Routine R) (ts : Tokens R)
      → 16 * size ts + 9 ≤ fuel
      → Leaves (size ts) (routine_body fuel loc d ts)
  unfolding routine_body
  routine_body-Leaves fuel loc d ts h =
      >>=-Gives _ _ _ ts (section_loop-Leaves fuel ts (omega arith)) λ ds r l.
        >>=-Gives _ _ _ r
          (reject_if-Leaves _ _ _ r (at_routine-keeps (λ x. size x < suc (size ts)) r l))
          λ _ r2 l2.
            >>=-Gives _ _ _ r2 (reject_if-Leaves _ _ _ r2 (at_word-Leaves _ _ r2 l2)) λ _ r3 l3.
              >>=-Gives _ _ _ r3 (expect_word-Leaves _ r3) λ _ r4 l4.
                >>=-Gives _ _ _ r4 (stmt_list-Leaves fuel r4 (omega arith)) λ ss r5 l5.
                  >>=-Gives _ _ _ r5 (expect_word-Leaves _ r5) λ _ r6 l6.
                    >>=-Gives _ _ _ r6 (expect_punct-Leaves _ r6)
                      λ _ r7 l7. pure-Gives _ _ r7 (omega arith)

  at_extern-Leaves : (ts : Tokens R) → Leaves (suc (size ts)) (at_extern ts)
  unfolding at_extern
  at_extern-Leaves ts =
      accept_word-Gives _ _ ts _ (λ r l. pure-Gives _ _ r (omega arith)) (accept_word-Leaves _ ts)

  -- A routine ends, and passes a token.
  pub routine_decl-Leaves :
      (fuel : ℕ) (in_interface : Bool) (ts : Tokens R)
      → 0 < size ts
      → 16 * size ts ≤ fuel
      → Leaves (size ts) (routine_decl fuel in_interface ts)
  unfolding routine_decl
  routine_decl-Leaves fuel in_interface ts p h = here-Gives _ _ ts λ loc.
      >>=-Gives _ _ _ ts (routine_heading-Leaves fuel ts p h) λ d r l.
        if-Gives _ in_interface _ _ r (pure-Gives _ _ r l) (
          accept_word-Gives _ _ r _
            (λ r2 l2.
              >>=-Gives _ _ _ r2 (expect_punct-Leaves _ r2)
                λ _ r3 l3. pure-Gives _ _ r3 (omega arith))
            (>>=-Gives _ _ _ r (at_extern-Leaves r) λ extern r2 l2.
              if-Gives _ extern _ _ r2
                (>>=-Gives _ _ _ r2 (expect_punct-Leaves _ r2)
                  λ _ r3 l3. pure-Gives _ _ r3 (omega arith))
                (if-Gives _ d.is_c _ _ r2 (unsupported_at-Gives _ _ _ r2) (
                  >>=-Gives _ _ _ r2 (routine_body-Leaves fuel loc d r2 (omega arith))
                    λ d2 r3 l3. pure-Gives _ _ r3 (omega arith)))))
