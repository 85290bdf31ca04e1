-- ===== src/Bootstrap/Parser/Progress/Compilands.antt =====
-- bootstrap/parse.c: interfaces and compilands end.
use native_pascal.Prelude.{ℕ, zero, suc, ◌+◌, ◌*◌, ◌<◌, ◌≤◌, true, false, ◌&&◌, ◌≡◌, arith, List}
use native_pascal.Bootstrap.Token.{Loc}
use native_pascal.Bootstrap.Parser.{
  Tokens, end, token, expect_word, ident_text, ◌>>◌, is_word, is_eof_tok, cur,
}
use native_pascal.Bootstrap.Parser.Progress.{
  size, Gives, failure, Leaves, Leaves-le, pure-Gives, expected-Gives, unsupported-Gives, >>=-Gives,
  if-Gives, here-Gives, at_word-Gives, accept_word-Gives, accept_punct-Gives, expect_word-Leaves,
  expect_punct-Leaves, ident_text-Leaves, ident_list-Leaves, test-cases, passes_word-Gives,
  at_word-cases,
}
use native_pascal.Bootstrap.Words.{kw_uses, kw_of}
use native_pascal.Bootstrap.Tree.{Interface}
use native_pascal.Bootstrap.Parser.Compilands.{
  uses_clause, skip_list, interface_loop, interface, iface_loop, head, decl_loop, final_block,
  compiland_body, has_any, parse_compiland,
}
use native_pascal.Bootstrap.Parser.Progress.Statements.{stmt_list-Leaves}
use native_pascal.Bootstrap.Parser.Progress.Declarations.{section-Leaves, at_section-Gives}
use native_pascal.Bootstrap.Parser.Progress.Routines.{routine_decl-Leaves, at_routine-Gives}

module _ {R : Type 0} where
  uses_clause-Leaves :
      (fuel : ℕ) (ts : Tokens R)
      → 16 * size ts < fuel
      → Leaves (suc (size ts)) (uses_clause fuel ts)
  unfolding uses_clause
  uses_clause-Leaves zero ts h = absurd (omega arith)
  uses_clause-Leaves (suc fuel) ts h =
      accept_word-Gives _ _ ts _
        (λ r l. >>=-Gives _ _ _ r (ident_list-Leaves fuel r (omega arith)) λ names r2 l2.
          >>=-Gives _ _ _ r2 (expect_punct-Leaves _ r2) λ _ r3 l3.
            >>=-Gives _ _ _ r3 (uses_clause-Leaves fuel r3 (omega arith))
              λ rest r4 l4. pure-Gives _ _ r4 (omega arith))
        (pure-Gives _ _ ts (omega arith))

  skip_list-Leaves :
      (fuel : ℕ) (ts : Tokens R) → size ts ≤ fuel → Leaves (suc (size ts)) (skip_list fuel ts)
  unfolding skip_list
  skip_list-Leaves fuel ts h =
      accept_punct-Gives _ _ ts _
        (λ r l.
          >>=-Gives _ _ _ r (ident_list-Leaves fuel r (omega arith))
            λ names r2 l2. Leaves-le (expect_punct-Leaves _ r2) (omega arith))
        (pure-Gives _ _ ts (omega arith))

  interface_loop-Leaves :
      (fuel : ℕ) (ts : Tokens R)
      → 16 * size ts < fuel
      → Leaves (suc (size ts)) (interface_loop fuel ts)
  unfolding interface_loop
  interface_loop-Leaves zero ts h = absurd (omega arith)
  interface_loop-Leaves (suc fuel) ts h =
      at_section-Gives _ _ ts
        (λ p. >>=-Gives _ _ _ ts (section-Leaves fuel ts p (omega arith)) λ d r l.
          >>=-Gives _ _ _ r (interface_loop-Leaves fuel r (omega arith))
            λ ds r2 l2. pure-Gives _ _ r2 (omega arith))
        (at_routine-Gives _ _ ts
          (λ p. >>=-Gives _ _ _ ts (routine_decl-Leaves fuel true ts p (omega arith)) λ d r l.
            >>=-Gives _ _ _ r (interface_loop-Leaves fuel r (omega arith))
              λ ds r2 l2. pure-Gives _ _ r2 (omega arith))
          (at_word-Gives _ _ ts _ (λ _. unsupported-Gives _ _ ts)
            (pure-Gives _ _ ts (omega arith))))

  interface-Leaves :
      (fuel : ℕ) (ts : Tokens R) → 16 * size ts ≤ fuel → Leaves (size ts) (interface fuel ts)
  unfolding interface
  interface-Leaves fuel ts h = here-Gives _ _ ts λ loc.
      >>=-Gives _ _ _ ts (expect_word-Leaves _ ts) λ _ r l.
        >>=-Gives _ _ _ r (expect_punct-Leaves _ r) λ _ r2 l2.
          >>=-Gives _ _ _ r2 (expect_word-Leaves _ r2) λ _ r3 l3.
            >>=-Gives _ _ _ r3 (ident_text-Leaves r3) λ unit r4 l4.
              >>=-Gives _ _ _ r4 (skip_list-Leaves fuel r4 (omega arith)) λ _ r5 l5.
                >>=-Gives _ _ _ r5 (expect_punct-Leaves _ r5) λ _ r6 l6.
                  >>=-Gives _ _ _ r6 (uses_clause-Leaves fuel r6 (omega arith)) λ uses r7 l7.
                    >>=-Gives _ _ _ r7 (interface_loop-Leaves fuel r7 (omega arith)) λ decls r8 l8.
                      >>=-Gives _ _ _ r8 (expect_word-Leaves _ r8) λ _ r9 l9.
                        >>=-Gives _ _ _ r9 (expect_punct-Leaves _ r9)
                          λ _ r10 l10. pure-Gives _ _ r10 (omega arith)

  iface_loop-Leaves :
      (fuel : ℕ) (ts : Tokens R) → 16 * size ts < fuel → Leaves (suc (size ts)) (iface_loop fuel ts)
  unfolding iface_loop
  iface_loop-Leaves zero ts h = absurd (omega arith)
  iface_loop-Leaves (suc fuel) ts h =
      at_word-Gives _ _ ts _
        (λ _. >>=-Gives _ _ _ ts (interface-Leaves fuel ts (omega arith)) λ d r l.
          >>=-Gives _ _ _ r (iface_loop-Leaves fuel r (omega arith))
            λ ds r2 l2. pure-Gives _ _ r2 (omega arith))
        (pure-Gives _ _ ts (omega arith))

  head-Leaves : (fuel : ℕ) (ts : Tokens R) → size ts ≤ fuel → Leaves (size ts) (head fuel ts)
  unfolding head
  head-Leaves fuel ts h =
      accept_word-Gives _ _ ts _
        (λ r l. >>=-Gives _ _ _ r (ident_text-Leaves r) λ name r2 l2.
          >>=-Gives _ _ _ r2 (skip_list-Leaves fuel r2 (omega arith))
            λ _ r3 l3. pure-Gives _ _ r3 (omega arith))
        (accept_word-Gives _ _ ts _
          (λ r l.
            >>=-Gives _ _ _ r (expect_then-Leaves r) λ name r2 l2. pure-Gives _ _ r2 (omega arith))
          (at_word-Gives _ _ ts _ (λ _. unsupported-Gives _ _ ts)
            (at_word-Gives _ _ ts _ (λ _. unsupported-Gives _ _ ts) (expected-Gives _ _ ts))))
    where
      expect_then-Leaves : (r : Tokens R) → Leaves (size r) ((expect_word kw_of >> ident_text) r)
      expect_then-Leaves r =
          >>=-Gives _ _ _ r (expect_word-Leaves _ r)
            λ _ r2 l2. Leaves-le (ident_text-Leaves r2) (omega arith)

  -- A clause that is there.
  uses_more-Leaves :
      (fuel : ℕ) (ts : Tokens R)
      → is_word (cur ts) kw_uses ≡ true
      → 16 * size ts < fuel
      → Leaves (size ts) (uses_clause fuel ts)
  unfolding uses_clause size
  uses_more-Leaves zero ts e h = absurd (omega arith)
  uses_more-Leaves (suc fuel) (end loc) e h = absurd (cc)
  uses_more-Leaves (suc fuel) (token x r) e h = passes_word-Gives _ _ x r _ e (
      >>=-Gives _ _ _ r (ident_list-Leaves fuel r (omega arith)) λ names r2 l2.
        >>=-Gives _ _ _ r2 (expect_punct-Leaves _ r2) λ _ r3 l3.
          >>=-Gives _ _ _ r3 (uses_clause-Leaves fuel r3 (omega arith))
            λ rest r4 l4. pure-Gives _ _ r4 (omega arith))

  decl_loop-Leaves :
      (fuel : ℕ) (ts : Tokens R)
      → 16 * size ts + 2 ≤ fuel
      → Leaves (suc (size ts)) (decl_loop fuel ts)
  unfolding decl_loop
  decl_loop-Leaves zero ts h = absurd (omega arith)
  decl_loop-Leaves (suc fuel) ts h =
      at_section-Gives _ _ ts
        (λ p. >>=-Gives _ _ _ ts (section-Leaves fuel ts p (omega arith)) λ d r l.
          >>=-Gives _ _ _ r (decl_loop-Leaves fuel r (omega arith))
            λ ds r2 l2. pure-Gives _ _ r2 (omega arith))
        (at_routine-Gives _ _ ts
          (λ p. >>=-Gives _ _ _ ts (routine_decl-Leaves fuel false ts p (omega arith)) λ d r l.
            >>=-Gives _ _ _ r (decl_loop-Leaves fuel r (omega arith))
              λ ds r2 l2. pure-Gives _ _ r2 (omega arith))
          (at_word-Gives _ _ ts _ (λ _. unsupported-Gives _ _ ts)
            (at_word-cases _ _ ts _
              (λ e. >>=-Gives _ _ _ ts (uses_more-Leaves fuel ts e (omega arith)) λ names r l.
                >>=-Gives _ _ _ r (decl_loop-Leaves fuel r (omega arith))
                  λ ds r2 l2. pure-Gives _ _ r2 (omega arith))
              (pure-Gives _ _ ts (omega arith)))))

  -- A compiland is all of the tokens.
  abbrev pub Ended : {A : Type 0} → A → Tokens R → Type 0
  Ended _ rest = is_eof_tok (cur rest).tok ≡ true

  final_block-Ended :
      (fuel : ℕ) (ts : Tokens R) → 16 * size ts + 8 ≤ fuel → Gives Ended (final_block fuel ts)
  unfolding final_block
  final_block-Ended fuel ts h = here-Gives _ _ ts λ loc.
      >>=-Gives _ _ _ ts (expect_word-Leaves _ ts) λ _ r l.
        >>=-Gives _ _ _ r (stmt_list-Leaves fuel r (omega arith)) λ ss r2 l2.
          >>=-Gives _ _ _ r2 (expect_word-Leaves _ r2) λ _ r3 l3.
            >>=-Gives _ _ _ r3 (expect_punct-Leaves _ r3) λ _ r4 l4.
              test-cases _ _ r4 _ (λ e. here-Gives _ _ r4 λ _. pure-Gives _ _ r4 e)
                (λ e. here-Gives _ _ r4 λ _. failure)

  compiland_body-Ended :
      (fuel : ℕ) (is : List (Interface R)) (loc : Loc) (ts : Tokens R)
      → 16 * size ts + 8 ≤ fuel
      → Gives Ended (compiland_body fuel is loc ts)
  unfolding compiland_body
  compiland_body-Ended fuel is loc ts h =
      >>=-Gives _ _ _ ts (head-Leaves fuel ts (omega arith)) λ named r l.
        >>=-Gives _ _ _ r (expect_punct-Leaves _ r) λ _ r2 l2.
          >>=-Gives _ _ _ r2 (uses_clause-Leaves fuel r2 (omega arith)) λ uses r3 l3.
            >>=-Gives _ _ _ r3 (decl_loop-Leaves fuel r3 (omega arith)) λ declared r4 l4.
              >>=-Gives _ _ _ r4 (final_block-Ended fuel r4 (omega arith))
                λ body r5 e. pure-Gives _ _ r5 e

  -- With sixteen units of fuel for each token and for the end, `parse_compiland` ends: with an error,
  -- or with a compiland behind which stands the end of the file.
  pub parse_compiland-Ended :
      (fuel : ℕ) (ts : Tokens R) → 16 * size ts + 16 ≤ fuel → Gives Ended (parse_compiland fuel ts)
  unfolding parse_compiland
  parse_compiland-Ended fuel ts h =
      >>=-Gives _ _ _ ts (iface_loop-Leaves fuel ts (omega arith)) λ is r l. here-Gives _ _ r λ loc.
        test-cases _ _ r _
          (λ e.
            if-Gives _ (true && has_any is) _ _ r (pure-Gives _ _ r e)
              (compiland_body-Ended fuel is loc r (omega arith)))
          (λ e. compiland_body-Ended fuel is loc r (omega arith))
