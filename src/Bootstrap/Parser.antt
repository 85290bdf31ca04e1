-- ===== src/Bootstrap/Parser.antt =====
-- bootstrap/parse.c: the position in the tokens, errors, and what reads one token. The array of
-- tokens from `pos` on is a `Tokens`, which `end`, the T_EOF token, closes.
pub mod Expressions
pub mod TypeExprs
pub mod Statements
pub mod Sections
pub mod Routines
pub mod Compilands
pub mod Progress
pub mod Print
pub mod RoundTrip
use native_pascal.Prelude.{
  ℕ, zero, suc, Bool, true, false, Option, none, some, List, [], ◌∷◌, if◌then◌else◌,
}
use native_pascal.Prelude.Memory.{Bytes}
use native_pascal.Bootstrap.Chars.{same_text}
use native_pascal.Bootstrap.Token.{
  Loc, Punct, punct_text, Tok, Token, eof, int, real, str, char, punct, comma,
}
use native_pascal.Bootstrap.Words.{reserved}

pub data Tokens (R : Type 0) : Type 0 where
  end : Loc → Tokens R
  token : Token R → Tokens R → Tokens R

-- What `expected` is told, and what `describe` makes of the token that stands there instead.
pub data Wanted : Type 0 where
  word : Bytes → Wanted
  mark : Punct → Wanted
  identifier expression statement compiland_head : Wanted

pub data Found : Type 0 where
  end_of_file integer_literal real_literal string_literal character_literal : Found
  spelled : Bytes → Found
  found : Punct → Found

-- What `unsupported` is told.
pub data Construct : Type 0 where
  subscripts set_constructor adr_of_selector ads_of field_width or_else xor_of in_set : Construct
  unbounded_array index_type array_dimensions variant_part packed_type set_type : Construct
  file_type string_type super_array vector_type address_type subrange : Construct
  statement_label for_static repeat_until case_of with_record goto_label exit_label : Construct
  variable_attribute variable_initializer procedural_parameter c_routine_body : Construct
  nested_routine label_section module_compiland device_compiland : Construct
  parameter_mode routine_attribute : Bytes → Construct

pub data Message : Type 0 where
  wanted : Wanted → Found → Message
  outside_subset : Construct → Message
  text_after_end : Message

-- `exhausted`: the model's fuel is used up.
pub data Parsed (R A : Type 0) : Type 0 where
  ok : A → Tokens R → Parsed R A
  fatal : Loc → Message → Parsed R A
  exhausted : Parsed R A

abbrev pub Parser : Type 0 → Type 0 → Type 0
Parser R A = Tokens R → Parsed R A

-- A test of the tokens ahead.
abbrev pub Test : Type 0 → Type 0
Test R = Tokens R → Bool

-- A token's kind and text, with no regard to its place.
abbrev pub is_ident_tok : {R : Type 0} → Tok R → Bool
is_ident_tok (Tok.ident _ _) = true
is_ident_tok _ = false

abbrev pub word_tok : {R : Type 0} → Tok R → Bytes → Bool
word_tok (Tok.ident text _) w = same_text text w
word_tok _ w = false

abbrev pub punct_tok : {R : Type 0} → Tok R → Punct → Bool
punct_tok (punct q) p = same_text (punct_text q) (punct_text p)
punct_tok _ p = false

abbrev pub is_eof_tok : {R : Type 0} → Tok R → Bool
is_eof_tok eof = true
is_eof_tok _ = false

abbrev pub describe_tok : {R : Type 0} → Tok R → Found
describe_tok eof = end_of_file
describe_tok (Tok.ident _ orig) = spelled orig
describe_tok (int _) = integer_literal
describe_tok (real _) = real_literal
describe_tok (str _) = string_literal
describe_tok (char _) = character_literal
describe_tok (punct p) = found p

-- The text of an identifier.
abbrev pub text_of : {R : Type 0} → Tok R → Bytes
text_of (Tok.ident text _) = text
text_of _ = []

-- The loop of `is_reserved`.
abbrev pub among : Bytes → List Bytes → Bool
among text [] = false
among text (w ∷ ws) = if same_text text w then true else among text ws

abbrev pub reserved_tok : {R : Type 0} → Tok R → Bool
reserved_tok (Tok.ident text _) = among text reserved
reserved_tok _ = false

module _ {R : Type 0} where
  module _ {A : Type 0} where
    unfoldable pub pure : A → Parser R A
    pure a ts = ok a ts

    unfoldable pub stop : Parser R A
    stop ts = exhausted

    -- What follows where something is found, and where not.
    abbrev pub when_some : {B : Type 0} → Option A → Parser R B → (A → Parser R B) → Parser R B
    when_some none p q = p
    when_some (some a) p q = q a

    infixl 5 ◌>>=◌ ◌>>◌
    unfoldable pub ◌>>=◌ : {B : Type 0} → Parser R A → (A → Parser R B) → Parser R B
    ◌>>=◌ p f ts = elim (p ts) [
      | ok a rest ↦ f a rest
      | fatal loc m ↦ fatal loc m
      | exhausted ↦ exhausted
    ]

    abbrev pub ◌>>◌ : {B : Type 0} → Parser R A → Parser R B → Parser R B
    p >> q = p >>= λ _. q

  abbrev pub cur : Tokens R → Token R
  cur (end loc) = record { tok = eof; loc = loc }
  cur (token t ts) = t

  -- `pos++`, which never passes the T_EOF.
  unfoldable pub advance : Parser R (Unit {0})
  advance (end loc) = ok tt (end loc)
  advance (token t ts) = ok tt ts

  abbrev pub peek : ℕ → Tokens R → Token R
  peek zero ts = cur ts
  peek (suc k) (end loc) = cur (end loc)
  peek (suc k) (token t ts) = if is_eof_tok t.tok then t else peek k ts

  unfoldable pub here : Parser R Loc
  here ts = ok (cur ts).loc ts

  unfoldable pub take_token : Parser R (Token R)
  take_token ts = ok (cur ts) ts

  abbrev pub is_word : Token R → Bytes → Bool
  is_word t w = word_tok t.tok w

  unfoldable pub test : Test R → Parser R Bool
  test holds ts = ok (holds ts) ts

  unfoldable pub at_word : Bytes → Parser R Bool
  at_word w = test λ ts. is_word (cur ts) w

  unfoldable pub at_punct : Punct → Parser R Bool
  at_punct p = test λ ts. punct_tok (cur ts).tok p

  abbrev pub describe : Token R → Found
  describe t = describe_tok t.tok

  unfoldable pub expected : {A : Type 0} → Wanted → Parser R A
  expected what ts = fatal (cur ts).loc (wanted what (describe (cur ts)))

  -- `unsupported(loc, what)`, and with `here()` as the place.
  unfoldable pub unsupported_at : {A : Type 0} → Loc → Construct → Parser R A
  unsupported_at loc what ts = fatal loc (outside_subset what)

  unfoldable pub unsupported : {A : Type 0} → Construct → Parser R A
  unfolding unsupported_at
  unsupported what = here >>= λ loc. unsupported_at loc what

  -- `if (holds) unsupported(here(), what);`
  unfoldable pub reject_if : Parser R Bool → Construct → Parser R (Unit {0})
  reject_if holds what = holds >>= λ b. if b then unsupported what else pure tt

  -- `if (holds) unsupported(loc, what);`
  unfoldable pub reject_at : Loc → Parser R Bool → Construct → Parser R (Unit {0})
  reject_at loc holds what = holds >>= λ b. if b then unsupported_at loc what else pure tt

  unfoldable pub accept_word : Bytes → Parser R Bool
  unfolding at_word
  accept_word w = at_word w >>= λ b. if b then advance >> pure true else pure false

  unfoldable pub accept_punct : Punct → Parser R Bool
  unfolding at_punct
  accept_punct p = at_punct p >>= λ b. if b then advance >> pure true else pure false

  unfoldable pub expect_word : Bytes → Parser R (Unit {0})
  unfolding at_word expected
  expect_word w = at_word w >>= λ b. if b then advance else expected (word w)

  unfoldable pub expect_punct : Punct → Parser R (Unit {0})
  unfolding at_punct expected
  expect_punct p = at_punct p >>= λ b. if b then advance else expected (mark p)

  -- The test of `ident`: no identifier, or a reserved one.
  abbrev pub reserved_or_other : Test R
  reserved_or_other ts = if is_ident_tok (cur ts).tok then reserved_tok (cur ts).tok else true

  unfoldable pub ident : Parser R (Token R)
  unfolding expected
  ident = do
    bad ← test reserved_or_other
    t ← take_token
    if bad then expected identifier else advance >> pure t

  -- The text of an `ident()`.
  unfoldable pub ident_text : Parser R Bytes
  unfolding ident
  ident_text = ident >>= λ t. pure (text_of t.tok)

  unfoldable pub ident_list : ℕ → Parser R (List Bytes)
  unfolding ident_text accept_punct
  ident_list zero = stop
  ident_list (suc fuel) = do
    name ← ident_text
    more ← accept_punct comma
    if more then ident_list fuel >>= (λ names. pure (name ∷ names)) else pure (name ∷ [])
