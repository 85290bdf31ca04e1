-- ===== src/Bootstrap/Parser/Progress/Declarations.antt =====
-- bootstrap/parse.c: sections and routines end, and pass a token.
use native_pascal.Prelude.{ℕ, zero, suc, ◌+◌, ◌*◌, ◌<◌, ◌≤◌, Bool, true, false, ◌||◌, arith}
use native_pascal.Bootstrap.Parser.{Tokens, end, token, Parser, pure, ◌>>=◌, test, at_word}
use native_pascal.Bootstrap.Parser.Progress.{
  size, Gives, Leaves, pure-Gives, >>=-Gives, if-Gives, here-Gives, test-Gives, at_word-Gives,
  expect_punct-Leaves, advance-Leaves, reject_if-Leaves, at_punct-Leaves, ident_text-Leaves,
  ident_list-Leaves, test-keeps, bool-Gives,
}
use native_pascal.Bootstrap.Parser.Progress.Expressions.{expr-Leaves}
use native_pascal.Bootstrap.Parser.Sections.{
  const_decl, const_loop, const_section, type_decl, type_loop, type_section, var_decl, var_loop,
  var_section, at_section, section, section_loop,
}
use native_pascal.Bootstrap.Parser.Progress.TypeExprs.{type_expr-Leaves}

module _ {R : Type 0} where
  const_decl-Leaves :
      (fuel : ℕ) (ts : Tokens R) → 16 * size ts ≤ fuel → Leaves (size ts) (const_decl fuel ts)
  unfolding const_decl
  const_decl-Leaves fuel ts h = here-Gives _ _ ts λ loc.
      >>=-Gives _ _ _ ts (ident_text-Leaves ts) λ name r l.
        >>=-Gives _ _ _ r (expect_punct-Leaves _ r) λ _ r2 l2.
          >>=-Gives _ _ _ r2 (expr-Leaves fuel r2 (omega arith)) λ val r3 l3.
            >>=-Gives _ _ _ r3 (expect_punct-Leaves _ r3) λ _ r4 l4. pure-Gives _ _ r4 (omega arith)

  type_decl-Leaves :
      (fuel : ℕ) (ts : Tokens R) → 16 * size ts ≤ fuel → Leaves (size ts) (type_decl fuel ts)
  unfolding type_decl
  type_decl-Leaves fuel ts h = here-Gives _ _ ts λ loc.
      >>=-Gives _ _ _ ts (ident_text-Leaves ts) λ name r l.
        >>=-Gives _ _ _ r (expect_punct-Leaves _ r) λ _ r2 l2.
          >>=-Gives _ _ _ r2 (type_expr-Leaves fuel r2 (omega arith)) λ te r3 l3.
            >>=-Gives _ _ _ r3 (expect_punct-Leaves _ r3) λ _ r4 l4. pure-Gives _ _ r4 (omega arith)

  var_decl-Leaves :
      (fuel : ℕ) (ts : Tokens R) → 16 * size ts < fuel → Leaves (size ts) (var_decl fuel ts)
  unfolding var_decl
  var_decl-Leaves fuel ts h = here-Gives _ _ ts λ loc.
      >>=-Gives _ _ _ ts (ident_list-Leaves fuel ts (omega arith)) λ names r l.
        >>=-Gives _ _ _ r (expect_punct-Leaves _ r) λ _ r2 l2.
          >>=-Gives _ _ _ r2 (type_expr-Leaves fuel r2 (omega arith)) λ te r3 l3.
            >>=-Gives _ _ _ r3 (reject_if-Leaves _ _ _ r3 (at_punct-Leaves _ _ r3 l3)) λ _ r4 l4.
              >>=-Gives _ _ _ r4 (reject_if-Leaves _ _ _ r4 (at_punct-Leaves _ _ r4 l4)) λ _ r5 l5.
                >>=-Gives _ _ _ r5 (expect_punct-Leaves _ r5)
                  λ _ r6 l6. pure-Gives _ _ r6 (omega arith)

  const_loop-Leaves :
      (fuel : ℕ) (ts : Tokens R) → 16 * size ts < fuel → Leaves (size ts) (const_loop fuel ts)
  unfolding const_loop
  const_loop-Leaves zero ts h = absurd (omega arith)
  const_loop-Leaves (suc fuel) ts h =
      >>=-Gives _ _ _ ts (const_decl-Leaves fuel ts (omega arith)) λ c r l.
        test-Gives _ _ r _
          (>>=-Gives _ _ _ r (const_loop-Leaves fuel r (omega arith))
            λ cs r2 l2. pure-Gives _ _ r2 (omega arith))
          (pure-Gives _ _ r l)

  type_loop-Leaves :
      (fuel : ℕ) (ts : Tokens R) → 16 * size ts < fuel → Leaves (size ts) (type_loop fuel ts)
  unfolding type_loop
  type_loop-Leaves zero ts h = absurd (omega arith)
  type_loop-Leaves (suc fuel) ts h =
      >>=-Gives _ _ _ ts (type_decl-Leaves fuel ts (omega arith)) λ t r l.
        test-Gives _ _ r _
          (>>=-Gives _ _ _ r (type_loop-Leaves fuel r (omega arith))
            λ tes r2 l2. pure-Gives _ _ r2 (omega arith))
          (pure-Gives _ _ r l)

  var_loop-Leaves :
      (fuel : ℕ) (ts : Tokens R) → 16 * size ts + 2 ≤ fuel → Leaves (size ts) (var_loop fuel ts)
  unfolding var_loop
  var_loop-Leaves zero ts h = absurd (omega arith)
  var_loop-Leaves (suc fuel) ts h =
      >>=-Gives _ _ _ ts (var_decl-Leaves fuel ts (omega arith)) λ v r l.
        >>=-Gives _ _ _ r (test-keeps _ _ r l) λ another r2 l2.
          >>=-Gives _ _ _ r2 (test-keeps _ _ r2 l2) λ last r3 l3.
            if-Gives _ (another || last) _ _ r3
              (>>=-Gives _ _ _ r3 (var_loop-Leaves fuel r3 (omega arith))
                λ vs r4 l4. pure-Gives _ _ r4 (omega arith))
              (pure-Gives _ _ r3 l3)

  -- A section ends, and passes a token.
  pub section-Leaves :
      (fuel : ℕ) (ts : Tokens R)
      → 0 < size ts
      → 16 * size ts ≤ fuel
      → Leaves (size ts) (section fuel ts)
  unfolding section const_section type_section var_section
  section-Leaves fuel ts p h =
      at_word-Gives _ _ ts _
        (λ _. here-Gives _ _ ts λ loc. >>=-Gives _ _ _ ts (advance-Leaves ts p) λ _ r l.
          >>=-Gives _ _ _ r (const_loop-Leaves fuel r (omega arith))
            λ cs r2 l2. pure-Gives _ _ r2 (omega arith))
        (at_word-Gives _ _ ts _
          (λ _. here-Gives _ _ ts λ loc. >>=-Gives _ _ _ ts (advance-Leaves ts p) λ _ r l.
            >>=-Gives _ _ _ r (type_loop-Leaves fuel r (omega arith))
              λ tes r2 l2. pure-Gives _ _ r2 (omega arith))
          (here-Gives _ _ ts λ loc. >>=-Gives _ _ _ ts (advance-Leaves ts p) λ _ r l.
            >>=-Gives _ _ _ r (var_loop-Leaves fuel r (omega arith))
              λ vs r2 l2. pure-Gives _ _ r2 (omega arith)))

  pub at_section-Gives :
      {B : Type 0} (Q : B → Tokens R → Type 0) (f : Bool → Parser R B) (ts : Tokens R)
      → (0 < size ts → Gives Q (f true ts))
      → Gives Q (f false ts)
      → Gives Q ((at_section >>= f) ts)
  unfolding ◌>>=◌ at_section at_word test pure size
  at_section-Gives Q f (end _) t e = e
  at_section-Gives Q f (token x rest) t e = bool-Gives Q f _ (token x rest) (t (omega arith)) e

  pub section_loop-Leaves :
      (fuel : ℕ) (ts : Tokens R)
      → 16 * size ts < fuel
      → Leaves (suc (size ts)) (section_loop fuel ts)
  unfolding section_loop
  section_loop-Leaves zero ts h = absurd (omega arith)
  section_loop-Leaves (suc fuel) ts h =
      at_section-Gives _ _ ts
        (λ p. >>=-Gives _ _ _ ts (section-Leaves fuel ts p (omega arith)) λ d r l.
          >>=-Gives _ _ _ r (section_loop-Leaves fuel r (omega arith))
            λ ds r2 l2. pure-Gives _ _ r2 (omega arith))
        (pure-Gives _ _ ts (omega arith))
