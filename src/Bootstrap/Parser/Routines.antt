-- ===== src/Bootstrap/Parser/Routines.antt =====
-- bootstrap/parse.c: routine headings and routines. A round of a loop costs a unit of fuel.
use native_pascal.Prelude.{
  ℕ, zero, suc, Bool, true, false, ◌||◌, not, if◌then◌else◌, List, [], ◌∷◌, Option, none, some,
}
use native_pascal.Prelude.Memory.{Bytes}
use native_pascal.Bootstrap.Chars.{same_text}
use native_pascal.Bootstrap.Token.{Loc, Tok, ident, lparen, rparen, lbrack, rbrack, semi, colon}
use native_pascal.Bootstrap.Words.{
  kw_var, kw_vars, kw_const, kw_consts, kw_procedure, kw_function, kw_c, kw_forward, kw_extern,
  kw_external, kw_label, kw_begin, kw_end,
}
use native_pascal.Bootstrap.Tree.{TypeExpr, Stmt, ParamGroup, Routine, Decl}
use native_pascal.Bootstrap.Parser
use native_pascal.Bootstrap.Parser.{
  Parser, pure, stop, ◌>>=◌, ◌>>◌, text_of, cur, advance, here, take_token, at_word, at_punct,
  unsupported_at, unsupported, reject_if, accept_word, accept_punct, expect_word, expect_punct,
  ident_list, parameter_mode, procedural_parameter, routine_attribute, c_routine_body,
  nested_routine, label_section,
}
use native_pascal.Bootstrap.Parser.TypeExprs.{type_expr}
use native_pascal.Bootstrap.Parser.Statements.{stmt_list}
use native_pascal.Bootstrap.Parser.Sections.{section_loop}

abbrev pub orig_of : {R : Type 0} → Tok R → Bytes
orig_of (ident _ orig) = orig
orig_of _ = []

module _ {R : Type 0} where
  unfoldable pub at_mode : Parser R Bool
  at_mode = do a ← at_word kw_vars; b ← at_word kw_const; c ← at_word kw_consts; pure (a || b || c)

  unfoldable pub at_routine : Parser R Bool
  at_routine = at_word kw_procedure >>= λ a. at_word kw_function >>= λ b. pure (a || b)

  -- VAR or nothing in front of a group of parameters.
  unfoldable pub param_mode : Parser R Bool
  unfolding at_mode at_routine
  param_mode = do
    is_var ← accept_word kw_var
    if is_var then pure true else do
      t ← take_token
      reject_if at_mode (parameter_mode (orig_of t.tok))
      reject_if at_routine procedural_parameter
      pure false

  unfoldable pub param_group : ℕ → Parser R (ParamGroup R)
  unfolding param_mode
  param_group fuel = do
    loc ← here
    is_var ← param_mode
    names ← ident_list fuel
    expect_punct colon
    te ← type_expr fuel
    pure (record { names = names; is_var = is_var; te = te; loc = loc })

  unfoldable pub param_loop : ℕ → Parser R (List (ParamGroup R))
  unfolding param_group
  param_loop zero = stop
  param_loop (suc fuel) = do
    g ← param_group fuel
    more ← accept_punct semi
    if more then param_loop fuel >>= (λ gs. pure (g ∷ gs)) else pure (g ∷ [])

  -- `none` where no parenthesized list is written.
  unfoldable pub params : ℕ → Parser R (Option (List (ParamGroup R)))
  unfolding param_loop
  params fuel = do
    opens ← accept_punct lparen
    if opens then param_loop fuel >>= (λ gs. expect_punct rparen >> pure (some gs)) else pure none

  unfoldable pub result_type : ℕ → Bool → Parser R (Option (TypeExpr R))
  result_type fuel is_func =
      if is_func
      then (do
        typed ← accept_punct colon
        if typed then type_expr fuel >>= (λ te. pure (some te)) else pure none)
      else pure none

  -- [C] or nothing.
  unfoldable pub attribute : Parser R Bool
  attribute = do
    opens ← accept_punct lbrack
    if opens
        then (do
          a ← Parser.ident
          closes ← at_punct rbrack
          if not (same_text (text_of a.tok) kw_c) || not closes
              then unsupported_at a.loc (routine_attribute (orig_of a.tok))
              else advance >> pure true)
        else pure false

  -- A heading, which is all that the interface of a unit has of a routine.
  unfoldable pub routine_heading : ℕ → Parser R (Routine R)
  unfolding params result_type attribute
  routine_heading fuel = do
    loc ← here
    is_func ← at_word kw_function
    advance
    n ← Parser.ident
    gs ← params fuel
    result ← result_type fuel is_func
    is_c ← attribute
    expect_punct semi
    pure (record {
      name = text_of n.tok;
      orig = orig_of n.tok;
      loc = loc;
      is_func = is_func;
      has_params = elim gs [ none ↦ false | some _ ↦ true ];
      params = elim gs [ none ↦ [] | some list ↦ list ];
      result = result;
      is_c = is_c;
      is_extern = false;
      is_forward = false;
      has_body = false;
      decls = [];
      body = none;
    })

  -- The local sections and the block.
  unfoldable pub routine_body : ℕ → Loc → Routine R → Parser R (Routine R)
  unfolding at_routine
  routine_body fuel loc r = do
    decls ← section_loop fuel
    reject_if at_routine nested_routine
    reject_if (at_word kw_label) label_section
    expect_word kw_begin
    ss ← stmt_list fuel
    expect_word kw_end
    expect_punct semi
    pure (record r { has_body = true; decls = decls; body = some (Stmt.block loc ss) })

  unfoldable pub at_extern : Parser R Bool
  at_extern = do
    extern ← accept_word kw_extern
    if extern then pure true else accept_word kw_external

  unfoldable pub routine_decl : ℕ → Bool → Parser R (Decl R)
  unfolding routine_heading routine_body at_extern
  routine_decl fuel in_interface = do
    loc ← here
    r ← routine_heading fuel
    if in_interface then pure (Decl.routine loc r) else do
      forward ← accept_word kw_forward
      if forward
          then expect_punct semi >> pure (Decl.routine loc (record r { is_forward = true }))
          else do
            extern ← at_extern
            if extern
                then expect_punct semi >> pure (Decl.routine loc (record r { is_extern = true }))
                else if r.is_c
                then unsupported_at loc c_routine_body
                else routine_body fuel loc r >>= (λ r2. pure (Decl.routine loc r2))
