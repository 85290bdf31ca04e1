-- ===== src/Bootstrap/Parser/Sections.antt =====
-- bootstrap/parse.c: CONST, TYPE and VAR sections. A round of a loop costs a unit of fuel.
use native_pascal.Prelude.{ℕ, zero, suc, Bool, ◌&&◌, ◌||◌, not, if◌then◌else◌, List, [], ◌∷◌}
use native_pascal.Bootstrap.Token.{Punct, lbrack, comma, semi, colon}
use native_pascal.Bootstrap.Words.{kw_const, kw_type, kw_var}
use native_pascal.Bootstrap.Tree.{ConstDecl, TypeDecl, VarDecl, Section}
use native_pascal.Bootstrap.Parser.{
  Parser, Test, pure, stop, ◌>>=◌, ◌>>◌, advance, here, test, at_word, at_punct, reserved_or_other,
  reject_if, expect_punct, ident_text, ident_list, variable_attribute, variable_initializer,
}
use native_pascal.Bootstrap.Parser.Expressions.{expr}
use native_pascal.Bootstrap.Parser.TypeExprs.{punct_follows, type_expr}

module _ {R : Type 0} where
  abbrev pub at_ident_then : Punct → Test R
  at_ident_then p ts = not (reserved_or_other ts) && punct_follows p ts

  unfoldable pub const_decl : ℕ → Parser R (ConstDecl R)
  const_decl fuel = do
    loc ← here
    name ← ident_text
    expect_punct Punct.eq
    val ← expr fuel
    expect_punct semi
    pure (record { name = name; loc = loc; val = val })

  unfoldable pub const_loop : ℕ → Parser R (List (ConstDecl R))
  unfolding const_decl
  const_loop zero = stop
  const_loop (suc fuel) = do
    c ← const_decl fuel
    more ← test (at_ident_then Punct.eq)
    if more then const_loop fuel >>= (λ cs. pure (c ∷ cs)) else pure (c ∷ [])

  unfoldable pub const_section : ℕ → Parser R (Section R)
  unfolding const_loop
  const_section fuel = do loc ← here; advance; cs ← const_loop fuel; pure (Section.consts loc cs)

  unfoldable pub type_decl : ℕ → Parser R (TypeDecl R)
  type_decl fuel = do
    loc ← here
    name ← ident_text
    expect_punct Punct.eq
    te ← type_expr fuel
    expect_punct semi
    pure (record { name = name; loc = loc; te = te })

  unfoldable pub type_loop : ℕ → Parser R (List (TypeDecl R))
  unfolding type_decl
  type_loop zero = stop
  type_loop (suc fuel) = do
    t ← type_decl fuel
    more ← test (at_ident_then Punct.eq)
    if more then type_loop fuel >>= (λ ts. pure (t ∷ ts)) else pure (t ∷ [])

  unfoldable pub type_section : ℕ → Parser R (Section R)
  unfolding type_loop
  type_section fuel = do loc ← here; advance; ts ← type_loop fuel; pure (Section.types loc ts)

  unfoldable pub var_decl : ℕ → Parser R (VarDecl R)
  var_decl fuel = do
    loc ← here
    names ← ident_list fuel
    expect_punct colon
    te ← type_expr fuel
    reject_if (at_punct lbrack) variable_attribute
    reject_if (at_punct Punct.eq) variable_initializer
    expect_punct semi
    pure (record { names = names; loc = loc; te = te })

  unfoldable pub var_loop : ℕ → Parser R (List (VarDecl R))
  unfolding var_decl
  var_loop zero = stop
  var_loop (suc fuel) = do
    v ← var_decl fuel
    another ← test (at_ident_then comma)
    last ← test (at_ident_then colon)
    if another || last then var_loop fuel >>= (λ vs. pure (v ∷ vs)) else pure (v ∷ [])

  unfoldable pub var_section : ℕ → Parser R (Section R)
  unfolding var_loop
  var_section fuel = do loc ← here; advance; vs ← var_loop fuel; pure (Section.vars loc vs)

  unfoldable pub at_section : Parser R Bool
  at_section = do a ← at_word kw_const; b ← at_word kw_type; c ← at_word kw_var; pure (a || b || c)

  -- Called where `at_section` holds.
  unfoldable pub section : ℕ → Parser R (Section R)
  unfolding const_section type_section var_section
  section fuel = do
    is_const ← at_word kw_const
    if is_const
        then const_section fuel
        else do is_type ← at_word kw_type; if is_type then type_section fuel else var_section fuel

  -- `while (at_section()) vec_push(v, section());`
  unfoldable pub section_loop : ℕ → Parser R (List (Section R))
  unfolding section at_section
  section_loop zero = stop
  section_loop (suc fuel) = do
    more ← at_section
    if more then section fuel >>= (λ d. section_loop fuel >>= λ ds. pure (d ∷ ds)) else pure []
