-- ===== src/Bootstrap/Parser/Expressions.antt =====
-- bootstrap/parse.c: expressions. A call costs a unit of fuel.
use native_pascal.Prelude.{
  ℕ, zero, suc, Bool, false, not, ◌&&◌, ◌||◌, Option, none, some, if◌then◌else◌,
}
use native_pascal.Prelude.Int.{pos}
use native_pascal.Prelude.Memory.{Bytes}
use native_pascal.Bootstrap.Token.{
  Loc, Punct, Tok, Token, lparen, rparen, lbrack, rbrack, comma, colon, dot, caret, plus, minus,
  star, slash, eof, ident, int, real, str, char, punct,
}
use native_pascal.Bootstrap.Words.{
  kw_not, kw_adr, kw_ads, kw_div, kw_mod, kw_and, kw_then, kw_or, kw_else, kw_xor, kw_in,
}
use native_pascal.Bootstrap.Ast.{Op, Expr, Args, no_args, arg}
use native_pascal.Bootstrap.Parser.{
  expression, Parser, Test, is_ident_tok, reserved_tok, pure, stop, when_some, ◌>>=◌, ◌>>◌, advance,
  peek, here, take_token, is_word, test, at_word, at_punct, expected, unsupported_at, unsupported,
  reject_if, accept_word, accept_punct, expect_punct, ident_text, subscripts, set_constructor,
  adr_of_selector, ads_of, field_width, or_else, xor_of, in_set,
}

module _ {R : Type 0} where
  -- `peek(1)` is an identifier; it is the word.
  abbrev pub ident_follows : Test R
  ident_follows ts = is_ident_tok (peek 1 ts).tok

  abbrev pub word_follows : Bytes → Test R
  word_follows w ts = is_word (peek 1 ts) w

  -- `at_word(w) && is_word(peek(1), w2)`
  unfoldable pub at_words : Bytes → Bytes → Parser R Bool
  unfolding at_word
  at_words w w2 = at_word w >>= λ b. if b then test (word_follows w2) else pure false

  unfoldable pub at_selector : Parser R Bool
  unfolding at_punct
  at_selector = do a ← at_punct dot; b ← at_punct lbrack; c ← at_punct caret; pure (a || b || c)

  abbrev pub binary : Op → Expr R → Expr R → Loc → Expr R
  binary op a b loc = Expr.bin loc op a b

  -- The operator that stands there, passed: the chains of tests in `term`, `simple` and `expr`.
  unfoldable pub term_op : Parser R (Option Op)
  unfolding accept_punct accept_word at_word
  term_op = do
    mul ← accept_punct star
    if mul then pure (some Op.mul) else do
      rdiv ← accept_punct slash
      if rdiv then pure (some Op.rdiv) else do
        idiv ← accept_word kw_div
        if idiv then pure (some Op.idiv) else do
          modulo ← accept_word kw_mod
          if modulo then pure (some Op.modulo) else do
            and ← at_word kw_and
            and_then ← test (word_follows kw_then)
            if and && not and_then then advance >> pure (some Op.and) else pure none

  unfoldable pub simple_op : Parser R (Option Op)
  unfolding accept_punct accept_word at_word unsupported
  simple_op = do
    add ← accept_punct plus
    if add then pure (some Op.add) else do
      sub ← accept_punct minus
      if sub then pure (some Op.sub) else do
        or ← accept_word kw_or
        if or
            then reject_if (at_word kw_else) or_else >> pure (some Op.or)
            else do reject_if (at_word kw_xor) xor_of; pure none

  unfoldable pub relation : Parser R (Option Op)
  unfolding accept_punct at_word unsupported
  relation = do
    eq ← accept_punct Punct.eq
    if eq then pure (some Op.eq) else do
      ne ← accept_punct Punct.ne
      if ne then pure (some Op.ne) else do
        lt ← accept_punct Punct.lt
        if lt then pure (some Op.lt) else do
          le ← accept_punct Punct.le
          if le then pure (some Op.le) else do
            gt ← accept_punct Punct.gt
            if gt then pure (some Op.gt) else do
              ge ← accept_punct Punct.ge
              if ge then pure (some Op.ge) else do reject_if (at_word kw_in) in_set; pure none

  -- `adr` with an identifier behind it, at `loc`.
  unfoldable pub adr_factor : Loc → Parser R (Expr R)
  unfolding ident_text at_selector unsupported
  adr_factor loc = do
    advance
    name ← ident_text
    reject_if at_selector adr_of_selector
    pure (Expr.adr loc name)

  unfoldable mutual
    pub selectors : ℕ → Expr R → Parser R (Expr R)
    selectors zero e = stop
    selectors (suc fuel) e = do
      loc ← here
      opens ← accept_punct lbrack
      if opens
          then (do
            b ← expr fuel
            reject_if (at_punct comma) subscripts
            expect_punct rbrack
            selectors fuel (Expr.index loc e b))
          else do
            dotted ← accept_punct dot
            if dotted then ident_text >>= (λ name. selectors fuel (Expr.field loc e name)) else do
              up ← accept_punct caret
              if up then selectors fuel (Expr.deref loc e) else pure e

    pub factor : ℕ → Parser R (Expr R)
    factor zero = stop
    factor (suc fuel) = take_token >>= λ t. factor_of fuel t t.tok

    -- `switch (t->kind)`
    pub factor_of : ℕ → Token R → Tok R → Parser R (Expr R)
    factor_of zero t _ = stop
    factor_of (suc fuel) t (int n) = advance >> pure (Expr.int t.loc (pos n))
    factor_of (suc fuel) t (real r) = advance >> pure (Expr.real t.loc r)
    factor_of (suc fuel) t (str s) = advance >> pure (Expr.str t.loc s)
    factor_of (suc fuel) t (char c) = advance >> pure (Expr.char t.loc c)
    factor_of (suc fuel) t (punct _) = punct_factor fuel t.loc
    factor_of (suc fuel) t (ident text _) = ident_factor fuel t text
    factor_of (suc fuel) t eof = expected expression

    -- Case T_PUNCT.
    pub punct_factor : ℕ → Loc → Parser R (Expr R)
    punct_factor zero loc = stop
    punct_factor (suc fuel) loc = do
      opens ← accept_punct lparen
      if opens then (do e ← expr fuel; expect_punct rparen; selectors fuel e) else do
        set ← at_punct lbrack
        if set then unsupported_at loc set_constructor else expected expression

    -- Case T_IDENT.
    pub ident_factor : ℕ → Token R → Bytes → Parser R (Expr R)
    ident_factor zero t text = stop
    ident_factor (suc fuel) t text = do
      negated ← accept_word kw_not
      if negated then factor fuel >>= (λ e. pure (Expr.un t.loc Op.not e)) else do
        follows ← test ident_follows
        if is_word t kw_adr && follows then adr_factor t.loc else named_factor fuel t text

    -- A name or a call.
    pub named_factor : ℕ → Token R → Bytes → Parser R (Expr R)
    named_factor zero t text = stop
    named_factor (suc fuel) t text =
        if is_word t kw_ads
        then unsupported_at t.loc ads_of
        else if reserved_tok t.tok
        then expected expression
        else do
          advance
          call ← accept_punct lparen
          if call
              then call_args fuel >>= (λ args. selectors fuel (Expr.call t.loc text args))
              else selectors fuel (Expr.name t.loc text)

    -- The arguments of E_CALL, with the parenthesis that closes them.
    pub call_args : ℕ → Parser R (Args R)
    call_args zero = stop
    call_args (suc fuel) = do
      empty ← at_punct rparen
      args ← if empty then pure no_args else args_loop fuel
      expect_punct rparen
      pure args

    pub args_loop : ℕ → Parser R (Args R)
    args_loop zero = stop
    args_loop (suc fuel) = do
      e ← expr fuel
      reject_if (at_punct colon) field_width
      more ← accept_punct comma
      if more then args_loop fuel >>= (λ args. pure (arg e args)) else pure (arg e no_args)

    pub term_loop : ℕ → Expr R → Parser R (Expr R)
    term_loop zero e = stop
    term_loop (suc fuel) e = do
      loc ← here
      found ← term_op
      when_some found (pure e) λ op. factor fuel >>= λ b. term_loop fuel (binary op e b loc)

    pub term : ℕ → Parser R (Expr R)
    term zero = stop
    term (suc fuel) = factor fuel >>= term_loop fuel

    pub simple_loop : ℕ → Expr R → Parser R (Expr R)
    simple_loop zero e = stop
    simple_loop (suc fuel) e = do
      loc ← here
      found ← simple_op
      when_some found (pure e) λ op. term fuel >>= λ b. simple_loop fuel (binary op e b loc)

    -- With a sign or none.
    pub simple : ℕ → Parser R (Expr R)
    simple zero = stop
    simple (suc fuel) = do
      loc ← here
      negative ← accept_punct minus
      if negative
          then term fuel >>= (λ e. simple_loop fuel (Expr.un loc Op.neg e))
          else do accept_punct plus; e ← term fuel; simple_loop fuel e

    pub expr : ℕ → Parser R (Expr R)
    expr zero = stop
    expr (suc fuel) = do
      e ← simple fuel
      loc ← here
      found ← relation
      when_some found (pure e) λ op. simple fuel >>= λ b. pure (binary op e b loc)

  -- The loop of `bool_expr`.
  unfoldable pub bool_loop : ℕ → Expr R → Parser R (Expr R)
  unfolding expr at_words
  bool_loop zero e = stop
  bool_loop (suc fuel) e = do
    loc ← here
    and_then ← at_words kw_and kw_then
    if and_then
        then (do advance; advance; b ← expr fuel; bool_loop fuel (binary Op.and_then e b loc))
        else do or ← at_words kw_or kw_else; if or then unsupported_at loc or_else else pure e

  unfoldable pub bool_expr : ℕ → Parser R (Expr R)
  unfolding expr bool_loop
  bool_expr zero = stop
  bool_expr (suc fuel) = expr fuel >>= bool_loop fuel
