-- ===== src/Bootstrap/Parser/Print.antt =====
-- The text of an expression, with the parentheses that bootstrap/parse.c needs and no others: an
-- independent description of the grammar of expressions. A level is how tightly an expression
-- binds: 0 what selectors may follow, 1 a factor, 2 a term, 3 a simple expression, 4 a relation.
use native_pascal.Prelude.{ℕ, Bool, true, false, leb, ◌≡◌}
use native_pascal.Prelude.Int.{ℤ, pos, negsuc, pos_part}
use native_pascal.Prelude.Memory.{Bytes}
use native_pascal.Bootstrap.Chars.{same_text}
use native_pascal.Bootstrap.Token.{
  Loc, Punct, Tok, lparen, rparen, lbrack, rbrack, comma, dot, caret, plus, minus, star, slash,
  punct, ident,
}
use native_pascal.Bootstrap.Words.{kw_not, kw_adr, kw_ads, kw_div, kw_mod, kw_and, kw_or, reserved}
use native_pascal.Bootstrap.Ast.{
  Op, add, sub, mul, rdiv, idiv, modulo, and, or, and_then, neg, Expr, Args, int, real, str, char,
  name, adr, call, index, field, deref, bin, un, no_args, arg, loc_of,
}
use native_pascal.Bootstrap.Parser.{Tokens, token, among}

-- The level of what an operator makes, and those of its operands.
abbrev pub op_level : Op → ℕ
op_level mul = 2
op_level rdiv = 2
op_level idiv = 2
op_level modulo = 2
op_level and = 2
op_level add = 3
op_level sub = 3
op_level or = 3
op_level _ = 4

abbrev pub left_level : Op → ℕ
left_level mul = 2
left_level rdiv = 2
left_level idiv = 2
left_level modulo = 2
left_level and = 2
left_level _ = 3

abbrev pub right_level : Op → ℕ
right_level mul = 1
right_level rdiv = 1
right_level idiv = 1
right_level modulo = 1
right_level and = 1
right_level add = 2
right_level sub = 2
right_level or = 2
right_level _ = 3

abbrev pub is_binary : Op → Bool
is_binary and_then = false
is_binary neg = false
is_binary Op.not = false
is_binary _ = true

module _ {R : Type 0} where
  abbrev pub word : Bytes → Tok R
  word w = ident w w

  abbrev pub op_tok : Op → Tok R
  op_tok mul = punct star
  op_tok rdiv = punct slash
  op_tok idiv = word kw_div
  op_tok modulo = word kw_mod
  op_tok and = word kw_and
  op_tok add = punct plus
  op_tok sub = punct minus
  op_tok or = word kw_or
  op_tok Op.eq = punct Punct.eq
  op_tok Op.ne = punct Punct.ne
  op_tok Op.lt = punct Punct.lt
  op_tok Op.le = punct Punct.le
  op_tok Op.gt = punct Punct.gt
  op_tok _ = punct Punct.ge

  abbrev pub level_of : Expr R → ℕ
  level_of (int _ _) = 1
  level_of (real _ _) = 1
  level_of (str _ _) = 1
  level_of (char _ _) = 1
  level_of (adr _ _) = 1
  level_of (bin _ op _ _) = op_level op
  level_of (un _ neg _) = 3
  level_of (un _ _ _) = 1
  level_of _ = 0

  abbrev pub put : Loc → Tok R → Tokens R → Tokens R
  put loc k rest = token (record { tok = k; loc = loc }) rest

  -- In parentheses, unless it fits.
  abbrev pub wrap : Bool → Loc → (Tokens R → Tokens R) → Tokens R → Tokens R
  wrap true loc text rest = text rest
  wrap false loc text rest = put loc (punct lparen) (text (put loc (punct rparen) rest))

  unfoldable mutual
    -- The tokens of an expression, in front of others.
    pub print : Expr R → Tokens R → Tokens R
    print (int loc v) rest = put loc (Tok.int (pos_part v)) rest
    print (real loc r) rest = put loc (Tok.real r) rest
    print (str loc s) rest = put loc (Tok.str s) rest
    print (char loc c) rest = put loc (Tok.char c) rest
    print (name loc n) rest = put loc (word n) rest
    print (adr loc n) rest = put loc (word kw_adr) (put loc (word n) rest)
    print (call loc n args) rest =
        put loc (word n)
          (put loc (punct lparen) (print_args loc args (put loc (punct rparen) rest)))
    print (index loc a b) rest =
        wrap (leb (level_of a) 0) (loc_of a) (print a)
          (put loc (punct lbrack) (print b (put loc (punct rbrack) rest)))
    print (field loc a n) rest =
        wrap (leb (level_of a) 0) (loc_of a) (print a) (put loc (punct dot) (put loc (word n) rest))
    print (deref loc a) rest =
        wrap (leb (level_of a) 0) (loc_of a) (print a) (put loc (punct caret) rest)
    print (bin loc op a b) rest =
        wrap (leb (level_of a) (left_level op)) (loc_of a) (print a)
          (put loc (op_tok op) (wrap (leb (level_of b) (right_level op)) (loc_of b) (print b) rest))
    print (un loc neg a) rest =
        put loc (punct minus) (wrap (leb (level_of a) 2) (loc_of a) (print a) rest)
    print (un loc _ a) rest =
        put loc (word kw_not) (wrap (leb (level_of a) 1) (loc_of a) (print a) rest)

    pub print_args : Loc → Args R → Tokens R → Tokens R
    print_args loc no_args rest = rest
    print_args loc (arg e no_args) rest = print e rest
    print_args loc (arg e (arg f more)) rest =
        print e (put loc (punct comma) (print_args loc (arg f more) rest))

-- A name that is no reserved word, and one that is neither ADR nor ADS.
abbrev pub Nameable : Bytes → Type 0
Nameable n = among n reserved ≡ false

abbrev pub Usable : Bytes → Type 0
Usable n = Nameable n × (same_text n kw_adr ≡ false) × (same_text n kw_ads ≡ false)

abbrev pub Natural : ℤ → Type 0
Natural (pos _) = Unit
Natural (negsuc _) = ⊥

-- The expressions that have a text.
unfoldable mutual
  pub Printable : {R : Type 0} → Expr R → Type 0
  Printable (int _ v) = Natural v
  Printable (real _ _) = Unit
  Printable (str _ _) = Unit
  Printable (char _ _) = Unit
  Printable (name _ n) = Usable n
  Printable (adr _ n) = Nameable n
  Printable (call _ n args) = Usable n × AllPrintable args
  Printable (index _ a b) = Printable a × Printable b
  Printable (field _ a n) = Printable a × Nameable n
  Printable (deref _ a) = Printable a
  Printable (bin _ op a b) = (is_binary op ≡ true) × Printable a × Printable b
  Printable (un _ neg a) = Printable a
  Printable (un _ Op.not a) = Printable a
  Printable (un _ _ a) = ⊥

  pub AllPrintable : {R : Type 0} → Args R → Type 0
  AllPrintable no_args = Unit
  AllPrintable (arg e args) = Printable e × AllPrintable args
