-- ===== src/Bootstrap/Parser/Statements.antt =====
-- bootstrap/parse.c: statements. A call costs a unit of fuel.
use native_pascal.Prelude.{ℕ, zero, suc, Bool, true, false, ◌&&◌, ◌||◌, not, if◌then◌else◌}
use native_pascal.Bootstrap.Token.{Loc, Tok, Token, colon, becomes, semi, ident, int}
use native_pascal.Bootstrap.Words.{
  kw_begin, kw_end, kw_if, kw_then, kw_else, kw_while, kw_do, kw_for, kw_static, kw_to, kw_downto,
  kw_repeat, kw_case, kw_with, kw_goto, kw_return, kw_break, kw_cycle,
}
use native_pascal.Bootstrap.Ast.{Expr, name, call}
use native_pascal.Bootstrap.Tree.{Stmt, Stmts, no_stmts, stmt}
use native_pascal.Bootstrap.Parser.{
  Parser, Wanted, mark, is_ident_tok, reserved_tok, pure, stop, ◌>>=◌, ◌>>◌, cur, advance, here,
  take_token, is_word, test, at_word, expected, unsupported_at, unsupported, reject_if, reject_at,
  accept_word, accept_punct, expect_word, expect_punct, ident_text, statement_label, for_static,
  repeat_until, case_of, with_record, goto_label, exit_label,
}
use native_pascal.Bootstrap.Parser.Expressions.{factor, expr, bool_expr}
use native_pascal.Bootstrap.Parser.TypeExprs.{punct_follows}

module _ {R : Type 0} where
  unfoldable pub at_end_or_else : Parser R Bool
  unfolding at_word
  at_end_or_else = at_word kw_end >>= λ a. at_word kw_else >>= λ b. pure (a || b)

  -- An identifier that is neither END nor ELSE: a label behind RETURN, BREAK or CYCLE.
  unfoldable pub at_label : Parser R Bool
  unfolding at_end_or_else
  at_label = at_end_or_else >>= λ ends. test (λ ts. is_ident_tok (cur ts).tok && not ends)

  abbrev pub exit_kind : Token R → Loc → Stmt R
  exit_kind t loc =
      if is_word t kw_return
      then Stmt.return loc
      else if is_word t kw_break
      then Stmt.break loc
      else Stmt.cycle loc

  abbrev pub is_exit : Token R → Bool
  is_exit t = is_word t kw_return || is_word t kw_break || is_word t kw_cycle

  -- What a statement may be that only calls: E_NAME or E_CALL.
  abbrev pub callable : Expr R → Bool
  callable (name _ _) = true
  callable (call _ _ _) = true
  callable _ = false

  -- An assignment or a call, at `loc`.
  unfoldable pub assign_or_call : ℕ → Loc → Parser R (Stmt R)
  unfolding accept_punct expected
  assign_or_call fuel loc = do
    lhs ← factor fuel
    assigns ← accept_punct becomes
    if assigns
        then expr fuel >>= (λ rhs. pure (Stmt.assign loc lhs rhs))
        else if callable lhs
        then pure (Stmt.call loc lhs)
        else expected (mark becomes)

  -- RETURN, BREAK or CYCLE.
  unfoldable pub exit_statement : Token R → Parser R (Stmt R)
  unfolding at_label unsupported
  exit_statement t = do advance; reject_if at_label exit_label; pure (exit_kind t t.loc)

  -- What starts with an identifier, unless it is reserved.
  unfoldable pub named_statement : ℕ → Token R → Parser R (Stmt R)
  unfolding expected unsupported_at assign_or_call
  named_statement fuel t = if reserved_tok t.tok then expected Wanted.statement else do
    labelled ← test (punct_follows colon)
    if labelled then unsupported_at t.loc statement_label else assign_or_call fuel t.loc

  -- What no keyword starts.
  unfoldable pub simple_statement : ℕ → Token R → Parser R (Stmt R)
  unfolding exit_statement named_statement
  simple_statement fuel t = do
    assigns ← test (punct_follows becomes)
    if not assigns && is_exit t then exit_statement t else named_statement fuel t

  -- The keywords that are refused at `loc`.
  unfoldable pub reject_statements : Loc → Parser R (Unit {0})
  unfolding at_word unsupported_at
  reject_statements loc = do
    reject_at loc (at_word kw_repeat) repeat_until
    reject_at loc (at_word kw_case) case_of
    reject_at loc (at_word kw_with) with_record
    reject_at loc (at_word kw_goto) goto_label

  -- DOWNTO or TO.
  unfoldable pub direction : Parser R Bool
  unfolding accept_word expect_word
  direction = do
    down ← accept_word kw_downto
    if down then pure true else expect_word kw_to >> pure false

  unfoldable mutual
    pub stmt_list : ℕ → Parser R (Stmts R)
    stmt_list zero = stop
    stmt_list (suc fuel) = do
      s ← statement fuel
      more ← accept_punct semi
      if more then stmt_list fuel >>= (λ ss. pure (stmt s ss)) else pure (stmt s no_stmts)

    pub statement : ℕ → Parser R (Stmt R)
    statement zero = stop
    statement (suc fuel) = take_token >>= λ t. statement_of fuel t t.tok

    pub statement_of : ℕ → Token R → Tok R → Parser R (Stmt R)
    statement_of zero t _ = stop
    statement_of (suc fuel) t (int _) = unsupported_at t.loc statement_label
    statement_of (suc fuel) t (ident _ _) = word_statement fuel t
    statement_of (suc fuel) t _ = pure (Stmt.empty t.loc)

    -- A statement whose first token is an identifier.
    pub word_statement : ℕ → Token R → Parser R (Stmt R)
    word_statement zero t = stop
    word_statement (suc fuel) t = do
      begins ← accept_word kw_begin
      if begins
          then (do ss ← stmt_list fuel; expect_word kw_end; pure (Stmt.block t.loc ss))
          else do
            branches ← accept_word kw_if
            if branches then if_statement fuel t.loc else do
              loops ← accept_word kw_while
              if loops
                  then (do
                    cond ← bool_expr fuel
                    expect_word kw_do
                    body ← statement fuel
                    pure (Stmt.while t.loc cond body))
                  else do
                    counts ← accept_word kw_for
                    if counts then for_statement fuel t.loc else do
                      reject_statements t.loc
                      empty ← at_end_or_else
                      if empty then pure (Stmt.empty t.loc) else simple_statement fuel t

    -- Behind IF.
    pub if_statement : ℕ → Loc → Parser R (Stmt R)
    if_statement zero loc = stop
    if_statement (suc fuel) loc = do
      cond ← bool_expr fuel
      expect_word kw_then
      s ← statement fuel
      has_else ← accept_word kw_else
      if has_else
          then statement fuel >>= (λ no. pure (Stmt.if_else loc cond s no))
          else pure (Stmt.if_then loc cond s)

    -- Behind FOR.
    pub for_statement : ℕ → Loc → Parser R (Stmt R)
    for_statement zero loc = stop
    for_statement (suc fuel) loc = do
      reject_if (at_word kw_static) for_static
      varloc ← here
      var ← ident_text
      expect_punct becomes
      from ← expr fuel
      down ← direction
      to ← expr fuel
      expect_word kw_do
      body ← statement fuel
      pure (Stmt.for loc varloc var from to down body)
