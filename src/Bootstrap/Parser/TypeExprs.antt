-- ===== src/Bootstrap/Parser/TypeExprs.antt =====
-- bootstrap/parse.c: types. A call costs a unit of fuel.
use native_pascal.Prelude.{ℕ, zero, suc, Bool, ◌&&◌, ◌||◌, not, if◌then◌else◌}
use native_pascal.Bootstrap.Token.{
  Loc, Punct, lparen, rparen, lbrack, rbrack, comma, semi, colon, dotdot, caret,
}
use native_pascal.Bootstrap.Words.{
  kw_array, kw_of, kw_record, kw_end, kw_case, kw_packed, kw_set, kw_file, kw_string, kw_super,
  kw_vector, kw_ads, kw_adr, kw_lstring,
}
use native_pascal.Bootstrap.Tree.{TypeExpr, Fields, no_fields, group}
use native_pascal.Bootstrap.Parser.{
  Parser, Test, Construct, is_ident_tok, punct_tok, pure, stop, ◌>>=◌, ◌>>◌, cur, advance, peek,
  here, test, at_word, at_punct, unsupported_at, unsupported, reject_if, reject_at, accept_word,
  accept_punct, expect_word, expect_punct, ident_text, ident_list, unbounded_array, index_type,
  array_dimensions, variant_part, packed_type, set_type, file_type, string_type, super_array,
  vector_type, address_type, subrange,
}
use native_pascal.Bootstrap.Parser.Expressions.{simple, expr}

module _ {R : Type 0} where
  -- `peek(1)` is the punctuation mark.
  abbrev pub punct_follows : Punct → Test R
  punct_follows p ts = punct_tok (peek 1 ts).tok p

  abbrev pub not_ident : Test R
  not_ident ts = not (is_ident_tok (cur ts).tok)

  unfoldable pub at_address : Parser R Bool
  unfolding at_word
  at_address = at_word kw_ads >>= λ a. at_word kw_adr >>= λ b. pure (a || b)

  unfoldable pub at_string : Parser R Bool
  unfolding at_word
  at_string = at_word kw_string >>= λ a. test (punct_follows lparen) >>= λ b. pure (a && b)

  -- The forms that are refused at `loc`.
  unfoldable pub reject_types : Loc → Parser R (Unit {0})
  unfolding at_word at_address at_string unsupported_at
  reject_types loc = do
    reject_at loc (at_word kw_packed) packed_type
    reject_at loc (at_word kw_set) set_type
    reject_at loc (at_word kw_file) file_type
    reject_at loc at_string string_type
    reject_at loc (at_word kw_super) super_array
    reject_at loc (at_word kw_vector) vector_type
    reject_at loc at_address address_type
    reject_at loc (test not_ident) subrange

  -- `if (!at_punct(p)) unsupported(here(), what); pos++;`
  unfoldable pub require : Punct → Construct → Parser R (Unit {0})
  unfolding at_punct unsupported
  require p what = at_punct p >>= λ b. if b then advance else unsupported what

  -- The last two forms: LSTRING(n) and a name.
  unfoldable pub named_type : ℕ → Loc → Parser R (TypeExpr R)
  unfolding at_word at_punct expect_punct ident_text unsupported_at
  named_type fuel loc = do
    lstring ← at_word kw_lstring
    if lstring
        then (do
          advance
          expect_punct lparen
          lo ← expr fuel
          expect_punct rparen
          pure (TypeExpr.lstring loc lo))
        else do
          name ← ident_text
          reject_at loc (at_punct dotdot) subrange
          pure (TypeExpr.named loc name)

  unfoldable mutual
    pub type_expr : ℕ → Parser R (TypeExpr R)
    type_expr zero = stop
    type_expr (suc fuel) = do
      loc ← here
      pointer ← accept_punct caret
      if pointer then ident_text >>= (λ name. pure (TypeExpr.pointer loc name)) else do
        enum ← accept_punct lparen
        if enum
            then (do names ← ident_list fuel; expect_punct rparen; pure (TypeExpr.enum loc names))
            else do
              array ← accept_word kw_array
              if array then array_type fuel loc else do
                record_of ← accept_word kw_record
                if record_of
                    then (do
                      fields ← fields_loop fuel
                      expect_word kw_end
                      pure (TypeExpr.record_of loc fields))
                    else do reject_types loc; named_type fuel loc

    -- Behind ARRAY.
    pub array_type : ℕ → Loc → Parser R (TypeExpr R)
    array_type zero loc = stop
    array_type (suc fuel) loc = do
      require lbrack unbounded_array
      lo ← simple fuel
      require dotdot index_type
      hi ← simple fuel
      reject_if (at_punct comma) array_dimensions
      expect_punct rbrack
      expect_word kw_of
      elem ← type_expr fuel
      pure (TypeExpr.array loc lo hi elem)

    -- The loop behind RECORD.
    pub fields_loop : ℕ → Parser R (Fields R)
    fields_loop zero = stop
    fields_loop (suc fuel) = do
      done ← at_word kw_end
      if done then pure no_fields else do
        reject_if (at_word kw_case) variant_part
        loc ← here
        names ← ident_list fuel
        expect_punct colon
        te ← type_expr fuel
        more ← accept_punct semi
        if more
            then fields_loop fuel >>= (λ fields. pure (group loc names te fields))
            else pure (group loc names te no_fields)
