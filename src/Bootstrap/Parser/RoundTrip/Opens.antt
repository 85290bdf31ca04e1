-- ===== src/Bootstrap/Parser/RoundTrip/Opens.antt =====
-- bootstrap/parse.c: the first token of an expression's text.
use native_pascal.Prelude.{
  ℕ, zero, suc, ◌≤◌, Bool, true, false, not, ◌&&◌, leb, ◌≡◌, refl, arith, some, get_elem?, List, [],
  ◌∷◌, subst,
}
use native_pascal.Prelude.Memory.{Bytes}
use native_pascal.Bootstrap.Chars.{same_text}
use native_pascal.Bootstrap.Token.{Loc, Tok, lparen, rparen, plus, minus, punct, ident}
use native_pascal.Bootstrap.Words.{kw_not, kw_then, kw_else, reserved}
use native_pascal.Bootstrap.Ast.{
  Op, mul, rdiv, idiv, modulo, and, neg, Expr, int, real, str, char, name, adr, call, index, field,
  deref, bin, un, loc_of,
}
use native_pascal.Bootstrap.Parser.{Tokens, cur, word_tok, punct_tok, among}
use native_pascal.Bootstrap.Parser.Print.{
  wrap, print, level_of, op_level, left_level, Printable, Nameable,
}
use native_pascal.Bootstrap.Parser.RoundTrip.Levels.{NotPunct, NotWord, Unsigned}

among-false :
    (text : Bytes) (words : List Bytes) (i : ℕ) {w : Bytes}
    → get_elem? words i ≡ some w
    → among text words ≡ false
    → same_text text w ≡ false
among-false text [] i e h = absurd (cc)
among-false text (v ∷ vs) zero e h = ground arith
among-false text (v ∷ vs) (suc i) e h = among-false text vs i e (ground arith)

-- A name is none of these words.
pub name_not : (n : Bytes) → Nameable n → same_text n kw_not ≡ false
name_not n h = among-false n reserved 17 refl h

pub name_then : (n : Bytes) → Nameable n → same_text n kw_then ≡ false
name_then n h = among-false n reserved 26 refl h

pub name_else : (n : Bytes) → Nameable n → same_text n kw_else ≡ false
name_else n h = among-false n reserved 8 refl h

-- A left operand that starts with a sign makes a level at which a sign may stand.
left-signed :
    (op : Op) (l : ℕ) → leb l (left_level op) ≡ true → leb 3 l ≡ true → leb 3 (op_level op) ≡ true
left-signed mul l h g = absurd (ground arith)
left-signed rdiv l h g = absurd (ground arith)
left-signed idiv l h g = absurd (ground arith)
left-signed modulo l h g = absurd (ground arith)
left-signed and l h g = absurd (ground arith)
left-signed op l h g = refl

words : (a b : Bool) → (not a && not b) ≡ true → (a ≡ false) × (b ≡ false)
words false false h = (refl, refl)
words true b h = absurd (cc)
words false true h = absurd (cc)

module _ {R : Type 0} where
  -- What an expression may start with; a sign, where one may stand.
  abbrev opens : Bool → Tok R → Bool
  opens signed Tok.eof = false
  opens signed (ident text _) = not (same_text text kw_then) && not (same_text text kw_else)
  opens signed (punct lparen) = true
  opens signed (punct minus) = signed
  opens signed (punct _) = false
  opens signed _ = true

  opens-more :
      (k : Tok R) (s t : Bool) → (s ≡ true → t ≡ true) → opens s k ≡ true → opens t k ≡ true
  opens-more (punct minus) s t m h = m h
  opens-more k s t m h = h

  name-opens : (k : Tok R) (n : Bytes) (s : Bool) → k ≡ ident n n → Nameable n → opens s k ≡ true
  name-opens k n s e h = rw (e, name_then n h, name_else n h) refl

  wrap-opens :
      (b s : Bool) (loc : Loc) (w : Tokens R → Tokens R) (rest : Tokens R)
      → (b ≡ true → (rest : Tokens R) → opens s (cur (w rest)).tok ≡ true)
      → opens s (cur (wrap b loc w rest)).tok ≡ true
  wrap-opens true s loc w rest h = h refl rest
  wrap-opens false s loc w rest h = refl

  signless : (a : Expr R) → leb (level_of a) 0 ≡ true → leb 3 (level_of a) ≡ true → ⊥
  signless a y z = ground arith

  pub print-opens :
      (e : Expr R) (rest : Tokens R)
      → Printable e
      → opens (leb 3 (level_of e)) (cur (print e rest)).tok ≡ true
  unfolding print Printable
  print-opens (int _ _) rest p = refl
  print-opens (real _ _) rest p = refl
  print-opens (str _ _) rest p = refl
  print-opens (char _ _) rest p = refl
  print-opens (name _ n) rest p = name-opens _ n false refl p.0
  print-opens (adr _ n) rest p = refl
  print-opens (call _ n args) rest (p, _) = name-opens _ n false refl p.0
  print-opens (index loc a b) rest (p, _) =
      wrap-opens (leb (level_of a) 0) false (loc_of a) (print a) _ λ y rest2.
        opens-more (cur (print a rest2)).tok (leb 3 (level_of a)) false
          (λ z. absurd (signless a y z)) (print-opens a rest2 p)
  print-opens (field loc a n) rest (p, _) =
      wrap-opens (leb (level_of a) 0) false (loc_of a) (print a) _ λ y rest2.
        opens-more (cur (print a rest2)).tok (leb 3 (level_of a)) false
          (λ z. absurd (signless a y z)) (print-opens a rest2 p)
  print-opens (deref loc a) rest p =
      wrap-opens (leb (level_of a) 0) false (loc_of a) (print a) _ λ y rest2.
        opens-more (cur (print a rest2)).tok (leb 3 (level_of a)) false
          (λ z. absurd (signless a y z)) (print-opens a rest2 p)
  print-opens (bin loc op a b) rest (o, p, q) =
      wrap-opens (leb (level_of a) (left_level op)) (leb 3 (op_level op)) (loc_of a) (print a) _
        λ y rest2.
          opens-more (cur (print a rest2)).tok (leb 3 (level_of a)) (leb 3 (op_level op))
            (left-signed op (level_of a) y) (print-opens a rest2 p)
  print-opens (un loc neg a) rest p = refl
  print-opens (un loc Op.not a) rest p = refl
  print-opens (un loc _ a) rest p = absurd p

  -- What `opens` shuts out.
  opens-unsigned :
      (k : Tok R) → opens false k ≡ true → (punct_tok k minus ≡ false) × (punct_tok k plus ≡ false)
  opens-unsigned (punct lparen) h = (refl, refl)
  opens-unsigned (punct p) h = absurd (cc)
  opens-unsigned k h = (refl, refl)

  opens-unclosed : (k : Tok R) (s : Bool) → opens s k ≡ true → punct_tok k rparen ≡ false
  opens-unclosed (punct lparen) s h = refl
  opens-unclosed (punct minus) s h = refl
  opens-unclosed (punct p) s h = absurd (cc)
  opens-unclosed k s h = refl

  opens-words :
      (k : Tok R) (s : Bool)
      → opens s k ≡ true
      → (word_tok k kw_then ≡ false) × (word_tok k kw_else ≡ false)
  opens-words (ident text _) s h = words (same_text text kw_then) (same_text text kw_else) h
  opens-words k s h = (refl, refl)

  pub print-Unsigned : (e : Expr R) → Printable e → level_of e ≤ 2 → Unsigned (print e)
  print-Unsigned e p l rest =
      let signless : leb 3 (level_of e) ≡ false = ground arith in
      opens-unsigned (cur (print e rest)).tok
        (subst (λ b. opens b (cur (print e rest)).tok ≡ true) signless (print-opens e rest p))

  pub print-unclosed : (e : Expr R) (rest : Tokens R) → Printable e → NotPunct rparen (print e rest)
  print-unclosed e rest p = opens-unclosed (cur (print e rest)).tok _ (print-opens e rest p)

  -- An operand, in parentheses or not, starts with no word that an operator goes on with.
  pub wrap-words :
      (e : Expr R) (b : Bool) (loc : Loc) (rest : Tokens R)
      → Printable e
      → NotWord kw_then (wrap b loc (print e) rest) × NotWord kw_else (wrap b loc (print e) rest)
  wrap-words e true loc rest p = opens-words (cur (print e rest)).tok _ (print-opens e rest p)
  wrap-words e false loc rest p = (refl, refl)
