-- ===== src/Bootstrap/Parser/RoundTrip/Operators.antt =====
-- bootstrap/parse.c: an operator between its operands is read at its level.
use native_pascal.Prelude.{ℕ, zero, suc, refl, some}
use native_pascal.Bootstrap.Token.{Loc, Tok, minus}
use native_pascal.Bootstrap.Words.{kw_then, kw_else}
use native_pascal.Bootstrap.Ast.{Op, Expr, bin, un, neg}
use native_pascal.Bootstrap.Parser.{Tokens, stop}
use native_pascal.Bootstrap.Parser.Expressions.{
  term_op, simple_op, relation, term_loop, simple_loop, simple, expr, word_follows,
}
use native_pascal.Bootstrap.Parser.Print.{put, op_tok}
use native_pascal.Bootstrap.Parser.RoundTrip.{
  Only, out, pure-Only, >>=-Only, here-Only, test-Only, at_word-Only, at_word-false, no_word-Only,
  passes_word-Only, passes_punct-Only, no_punct-Only, reject_if-Only, advance-Only,
}
use native_pascal.Bootstrap.Parser.RoundTrip.Levels.{
  NotWord, NoSelector, NoTermOp, NoSimpleOp, Reads, term_loop-stop, simple_loop-stop,
}

-- The operators of each level.
pub data Multiplying : Op → Type 0 where
  multiplies : Multiplying Op.mul
  divides : Multiplying Op.rdiv
  quotients : Multiplying Op.idiv
  remainders : Multiplying Op.modulo
  conjoins : Multiplying Op.and

pub data Adding : Op → Type 0 where
  adds : Adding Op.add
  subtracts : Adding Op.sub
  disjoins : Adding Op.or

pub data Relating : Op → Type 0 where
  equals : Relating Op.eq
  differs : Relating Op.ne
  less : Relating Op.lt
  at_most : Relating Op.le
  greater : Relating Op.gt
  at_least : Relating Op.ge

module _ {R : Type 0} where
  term_op-some :
      {op : Op} (t : Multiplying op) (loc : Loc) (ts : Tokens R)
      → NotWord kw_then ts
      → Only (some op) ts (term_op (put loc (op_tok op) ts))
  unfolding term_op
  term_op-some multiplies loc ts h = passes_punct-Only _ _ ts _ refl (pure-Only _ ts)
  term_op-some divides loc ts h =
      no_punct-Only _ _ _ refl (passes_punct-Only _ _ ts _ refl (pure-Only _ ts))
  term_op-some quotients loc ts h =
      no_punct-Only _ _ _ refl
        (no_punct-Only _ _ _ refl (passes_word-Only _ _ ts _ refl (pure-Only _ ts)))
  term_op-some remainders loc ts h = no_punct-Only _ _ _ refl (
      no_punct-Only _ _ _ refl
        (no_word-Only _ _ _ refl (passes_word-Only _ _ ts _ refl (pure-Only _ ts))))
  term_op-some conjoins loc ts h = no_punct-Only _ _ _ refl (
      no_punct-Only _ _ _ refl (
        no_word-Only _ _ _ refl (
          no_word-Only _ _ _ refl (
            at_word-Only _ _ _ refl
              (test-Only _ _ (word_follows kw_then) h (advance-Only _ _ ts (pure-Only _ ts)))))))

  simple_op-some :
      {op : Op} (t : Adding op) (loc : Loc) (ts : Tokens R)
      → NotWord kw_else ts
      → Only (some op) ts (simple_op (put loc (op_tok op) ts))
  unfolding simple_op
  simple_op-some adds loc ts h = passes_punct-Only _ _ ts _ refl (pure-Only _ ts)
  simple_op-some subtracts loc ts h =
      no_punct-Only _ _ _ refl (passes_punct-Only _ _ ts _ refl (pure-Only _ ts))
  simple_op-some disjoins loc ts h = no_punct-Only _ _ _ refl (
      no_punct-Only _ _ _ refl (
        passes_word-Only _ _ ts _ refl
          (>>=-Only _ _ ts (reject_if-Only _ _ ts (at_word-false ts _ h)) (pure-Only _ ts))))

  relation-some :
      {op : Op} (t : Relating op) (loc : Loc) (ts : Tokens R)
      → Only (some op) ts (relation (put loc (op_tok op) ts))
  unfolding relation
  relation-some equals loc ts = passes_punct-Only _ _ ts _ refl (pure-Only _ ts)
  relation-some differs loc ts =
      no_punct-Only _ _ _ refl (passes_punct-Only _ _ ts _ refl (pure-Only _ ts))
  relation-some less loc ts =
      no_punct-Only _ _ _ refl
        (no_punct-Only _ _ _ refl (passes_punct-Only _ _ ts _ refl (pure-Only _ ts)))
  relation-some at_most loc ts = no_punct-Only _ _ _ refl (
      no_punct-Only _ _ _ refl
        (no_punct-Only _ _ _ refl (passes_punct-Only _ _ ts _ refl (pure-Only _ ts))))
  relation-some greater loc ts = no_punct-Only _ _ _ refl (
      no_punct-Only _ _ _ refl (
        no_punct-Only _ _ _ refl
          (no_punct-Only _ _ _ refl (passes_punct-Only _ _ ts _ refl (pure-Only _ ts)))))
  relation-some at_least loc ts = no_punct-Only _ _ _ refl (
      no_punct-Only _ _ _ refl (
        no_punct-Only _ _ _ refl (
          no_punct-Only _ _ _ refl
            (no_punct-Only _ _ _ refl (passes_punct-Only _ _ ts _ refl (pure-Only _ ts))))))

  -- An operator ends what a tighter level reads.
  term_ends :
      {op : Op} (t : Multiplying op) (loc : Loc) (ts : Tokens R)
      → NoSelector (put loc (op_tok op) ts)
  term_ends multiplies loc ts = (refl, refl, refl, refl)
  term_ends divides loc ts = (refl, refl, refl, refl)
  term_ends quotients loc ts = (refl, refl, refl, refl)
  term_ends remainders loc ts = (refl, refl, refl, refl)
  term_ends conjoins loc ts = (refl, refl, refl, refl)

  simple_ends :
      {op : Op} (t : Adding op) (loc : Loc) (ts : Tokens R)
      → NoSelector (put loc (op_tok op) ts) × NoTermOp (put loc (op_tok op) ts)
  simple_ends adds loc ts = ((refl, refl, refl, refl), (refl, refl, refl, refl, refl))
  simple_ends subtracts loc ts = ((refl, refl, refl, refl), (refl, refl, refl, refl, refl))
  simple_ends disjoins loc ts = ((refl, refl, refl, refl), (refl, refl, refl, refl, refl))

  relation_ends :
      {op : Op} (t : Relating op) (loc : Loc) (ts : Tokens R)
      → NoSelector (put loc (op_tok op) ts)
        × NoTermOp (put loc (op_tok op) ts)
        × NoSimpleOp (put loc (op_tok op) ts)
  relation_ends equals loc ts =
      ((refl, refl, refl, refl), (refl, refl, refl, refl, refl), (refl, refl, refl, refl))
  relation_ends differs loc ts =
      ((refl, refl, refl, refl), (refl, refl, refl, refl, refl), (refl, refl, refl, refl))
  relation_ends less loc ts =
      ((refl, refl, refl, refl), (refl, refl, refl, refl, refl), (refl, refl, refl, refl))
  relation_ends at_most loc ts =
      ((refl, refl, refl, refl), (refl, refl, refl, refl, refl), (refl, refl, refl, refl))
  relation_ends greater loc ts =
      ((refl, refl, refl, refl), (refl, refl, refl, refl, refl), (refl, refl, refl, refl))
  relation_ends at_least loc ts =
      ((refl, refl, refl, refl), (refl, refl, refl, refl, refl), (refl, refl, refl, refl))

  module _ {op : Op} (a b : Expr R) (loc : Loc) (wa wb : Tokens R → Tokens R) where
    pub term_op-Reads :
        Multiplying op
        → Reads 2 a wa
        → Reads 1 b wb
        → ((rest : Tokens R) → NotWord kw_then (wb rest))
        → Reads 2 (bin loc op a b) (λ rest. wa (put loc (op_tok op) (wb rest)))
    unfolding term_loop stop
    term_op-Reads t ra rb o x last rest n k fuel = ra x last _ (term_ends t loc (wb rest)) goes fuel
      where
        goes : (fuel : ℕ) → Only x last (term_loop fuel a (put loc (op_tok op) (wb rest)))
        goes zero = out
        goes (suc fuel) = here-Only _ _ (
            >>=-Only _ _ _ (term_op-some t loc (wb rest) (o rest))
              (>>=-Only _ _ _ (rb rest n fuel) (k fuel)))

    pub simple_op-Reads :
        Adding op
        → Reads 3 a wa
        → Reads 2 b wb
        → ((rest : Tokens R) → NotWord kw_else (wb rest))
        → Reads 3 (bin loc op a b) (λ rest. wa (put loc (op_tok op) (wb rest)))
    unfolding simple_loop stop
    simple_op-Reads t ra rb o x last rest n m k fuel =
        ra x last _ (simple_ends t loc (wb rest)).0 (simple_ends t loc (wb rest)).1 goes fuel
      where
        goes : (fuel : ℕ) → Only x last (simple_loop fuel a (put loc (op_tok op) (wb rest)))
        goes zero = out
        goes (suc fuel) = here-Only _ _ (
            >>=-Only _ _ _ (simple_op-some t loc (wb rest) (o rest))
              (>>=-Only _ _ _ (rb b rest rest n (λ f. term_loop-stop rest m f b) fuel) (k fuel)))

    pub relation-Reads :
        Relating op
        → Reads 3 a wa
        → Reads 3 b wb
        → Reads 4 (bin loc op a b) (λ rest. wa (put loc (op_tok op) (wb rest)))
    unfolding expr stop
    relation-Reads t ra rb rest c zero = out
    relation-Reads t ra rb rest (n, m, l, r) (suc fuel) =
        let (n2, m2, l2) = relation_ends t loc (wb rest) in
        >>=-Only _ _ _ (ra a _ _ n2 m2 (λ f. simple_loop-stop _ l2 f a) fuel) (
          here-Only _ _ (
            >>=-Only _ _ _ (relation-some t loc (wb rest)) (
              >>=-Only _ _ _ (rb b rest rest n m (λ f. simple_loop-stop rest l f b) fuel)
                (pure-Only _ rest))))

  pub neg-Reads :
      (a : Expr R) (loc : Loc) (wa : Tokens R → Tokens R)
      → Reads 2 a wa
      → Reads 3 (un loc neg a) (λ rest. put loc (Tok.punct minus) (wa rest))
  unfolding simple stop
  neg-Reads a loc wa ra x last rest n m k zero = out
  neg-Reads a loc wa ra x last rest n m k (suc fuel) = here-Only _ _ (
      passes_punct-Only _ _ _ _ refl
        (>>=-Only _ _ _ (ra a rest rest n (λ f. term_loop-stop rest m f a) fuel) (k fuel)))
