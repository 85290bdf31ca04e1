-- ===== src/Bootstrap/Parser/RoundTrip/Expressions.antt =====
-- bootstrap/parse.c reads the text of an expression as that expression.
use native_pascal.Prelude.{ℕ, zero, suc, ◌+◌, ◌*◌, ◌≤◌, leb, ◌≡◌, refl, arith}
use native_pascal.Prelude.Int.{pos, negsuc}
use native_pascal.Prelude.Memory.{Bytes}
use native_pascal.Bootstrap.Token.{Loc, punct, rparen, lbrack, rbrack, dot, caret, comma, colon}
use native_pascal.Bootstrap.Ast.{
  Op, add, sub, mul, rdiv, idiv, modulo, and, or, and_then, neg, Expr, Args, int, real, str, char,
  name, adr, call, index, field, deref, bin, un, no_args, arg, loc_of,
}
use native_pascal.Bootstrap.Parser.{Tokens, ok, stop}
use native_pascal.Bootstrap.Parser.Expressions.{selectors, expr, call_args, args_loop}
use native_pascal.Bootstrap.Parser.Print.{
  put, word, wrap, print, print_args, level_of, Printable, AllPrintable, Nameable,
}
use native_pascal.Bootstrap.Parser.Progress.{size, Leaves-runs}
use native_pascal.Bootstrap.Parser.Progress.Expressions.{expr-Leaves}
use native_pascal.Bootstrap.Parser.RoundTrip.{
  Only, out, Only-ok, pure-Only, >>=-Only, here-Only, at_punct-Only, at_punct-false,
  passes_punct-Only, no_punct-Only, expect_punct-Only, reject_if-Only,
}
use native_pascal.Bootstrap.Parser.RoundTrip.Levels.{
  NotPunct, Closes, Reads, loose-Reads, wrap-Reads,
}
use native_pascal.Bootstrap.Parser.RoundTrip.Opens.{print-Unsigned, print-unclosed, wrap-words}
use native_pascal.Bootstrap.Parser.RoundTrip.Operators.{
  multiplies, divides, quotients, remainders, conjoins, adds, subtracts, disjoins, equals, differs,
  less, at_most, greater, at_least, term_op-Reads, simple_op-Reads, relation-Reads, neg-Reads,
}
use native_pascal.Bootstrap.Parser.RoundTrip.Atoms.{
  int-Reads, real-Reads, str-Reads, char-Reads, ident-Only, name-Reads, adr-Reads, call-Reads,
  not-Reads,
}

module _ {R : Type 0} where
  level_of-le : (e : Expr R) → level_of e ≤ 4
  level_of-le e = ground arith

  -- An expression that is read at its own level is read at any, in parentheses where it needs them.
  fit-Reads :
      (e : Expr R) (l : ℕ)
      → Printable e
      → Reads (level_of e) e (print e)
      → Reads l e (wrap (leb (level_of e) l) (loc_of e) (print e))
  fit-Reads e l p r =
      wrap-Reads e (print e) (level_of e) l (loc_of e) (level_of-le e) (print-Unsigned e p) r

  whole-Reads : (e : Expr R) → Printable e → Reads (level_of e) e (print e) → Reads 4 e (print e)
  whole-Reads e p r = loose-Reads e (print e) (level_of e) 4 (level_of-le e) (print-Unsigned e p) r

  -- A bracket, a parenthesis or a comma ends an expression.
  rbrack-Closes : (loc : Loc) (rest : Tokens R) → Closes (put loc (punct rbrack) rest)
  rbrack-Closes loc rest = (
    (refl, refl, refl, refl),
    (refl, refl, refl, refl, refl),
    (refl, refl, refl, refl),
    (refl, refl, refl, refl, refl, refl, refl),
  )

  rparen-Closes : (loc : Loc) (rest : Tokens R) → Closes (put loc (punct rparen) rest)
  rparen-Closes loc rest = (
    (refl, refl, refl, refl),
    (refl, refl, refl, refl, refl),
    (refl, refl, refl, refl),
    (refl, refl, refl, refl, refl, refl, refl),
  )

  comma-Closes : (loc : Loc) (rest : Tokens R) → Closes (put loc (punct comma) rest)
  comma-Closes loc rest = (
    (refl, refl, refl, refl),
    (refl, refl, refl, refl, refl),
    (refl, refl, refl, refl),
    (refl, refl, refl, refl, refl, refl, refl),
  )

  index-Reads :
      (loc : Loc) (a b : Expr R) (wa wb : Tokens R → Tokens R)
      → Reads 0 a wa
      → Reads 4 b wb
      → Reads 0
          (index loc a b)
          (λ rest. wa (put loc (punct lbrack) (wb (put loc (punct rbrack) rest))))
  unfolding selectors stop
  index-Reads loc a b wa wb ra rb x last rest p k = ra x last _ refl goes
    where
      inner : Tokens R
      inner = wb (put loc (punct rbrack) rest)

      goes : (fuel : ℕ) → Only x last (selectors fuel a (put loc (punct lbrack) inner))
      goes zero = out
      goes (suc fuel) = here-Only _ _ (
          passes_punct-Only _ _ inner lbrack refl (
            >>=-Only _ _ _ (rb _ (rbrack-Closes loc rest) fuel) (
              >>=-Only _ _ _ (reject_if-Only _ _ _ (at_punct-false _ comma refl))
                (>>=-Only _ _ _ (expect_punct-Only _ rest rbrack refl) (k fuel)))))

  field-Reads :
      (loc : Loc) (a : Expr R) (n : Bytes) (wa : Tokens R → Tokens R)
      → Nameable n
      → Reads 0 a wa
      → Reads 0 (field loc a n) (λ rest. wa (put loc (punct dot) (put loc (word n) rest)))
  unfolding selectors stop
  field-Reads loc a n wa h ra x last rest p k = ra x last _ refl goes
    where
      goes :
          (fuel : ℕ) → Only x last (selectors fuel a (put loc (punct dot) (put loc (word n) rest)))
      goes zero = out
      goes (suc fuel) = here-Only _ _ (
          no_punct-Only _ _ _ refl
            (passes_punct-Only _ _ _ dot refl (>>=-Only _ _ _ (ident-Only loc n rest h) (k fuel))))

  deref-Reads :
      (loc : Loc) (a : Expr R) (wa : Tokens R → Tokens R)
      → Reads 0 a wa
      → Reads 0 (deref loc a) (λ rest. wa (put loc (punct caret) rest))
  unfolding selectors stop
  deref-Reads loc a wa ra x last rest p k = ra x last _ refl goes
    where
      goes : (fuel : ℕ) → Only x last (selectors fuel a (put loc (punct caret) rest))
      goes zero = out
      goes (suc fuel) = here-Only _ _ (
          no_punct-Only _ _ _ refl
            (no_punct-Only _ _ _ refl (passes_punct-Only _ _ rest caret refl (k fuel))))

  -- The loop over arguments reads them, if there are any.
  abbrev LoopReads : Loc → Args R → Type 0
  LoopReads loc no_args = Unit
  LoopReads loc args =
      (rest : Tokens R) (fuel : ℕ)
      → Only args (put loc (punct rparen) rest)
          (args_loop fuel (print_args loc args (put loc (punct rparen) rest)))

  last_arg-Reads : (loc : Loc) (e : Expr R) → Reads 4 e (print e) → LoopReads loc (arg e no_args)
  unfolding print args_loop stop
  last_arg-Reads loc e r rest zero = out
  last_arg-Reads loc e r rest (suc fuel) = >>=-Only _ _ _ (r _ (rparen-Closes loc rest) fuel) (
      >>=-Only _ _ _ (reject_if-Only _ _ _ (at_punct-false _ colon refl))
        (no_punct-Only _ _ comma refl (pure-Only _ _)))

  more_args-Reads :
      (loc : Loc) (e f : Expr R) (more : Args R)
      → Reads 4 e (print e)
      → LoopReads loc (arg f more)
      → LoopReads loc (arg e (arg f more))
  unfolding print args_loop stop
  more_args-Reads loc e f more r l rest zero = out
  more_args-Reads loc e f more r l rest (suc fuel) =
      >>=-Only _ _ _
        (r _ (comma-Closes loc (print_args loc (arg f more) (put loc (punct rparen) rest))) fuel)
        (>>=-Only _ _ _ (reject_if-Only _ _ _ (at_punct-false _ colon refl))
          (passes_punct-Only _ _ _ comma refl (>>=-Only _ _ _ (l rest fuel) (pure-Only _ _))))

  -- The first argument has a text, if there is one.
  abbrev Starts : Args R → Type 0
  Starts no_args = Unit
  Starts (arg e more) = Printable e

  AllPrintable-Starts : (args : Args R) → AllPrintable args → Starts args
  unfolding Printable
  AllPrintable-Starts no_args p = tt
  AllPrintable-Starts (arg e more) (p, q) = p

  print_args-unclosed :
      (loc : Loc) (e : Expr R) (more : Args R) (rest : Tokens R)
      → Printable e
      → NotPunct rparen (print_args loc (arg e more) (put loc (punct rparen) rest))
  unfolding print
  print_args-unclosed loc e no_args rest p = print-unclosed e _ p
  print_args-unclosed loc e (arg f more) rest p = print-unclosed e _ p

  call_args-Only :
      (loc : Loc) (args : Args R)
      → Starts args
      → LoopReads loc args
      → (rest : Tokens R) (fuel : ℕ)
      → Only args rest (call_args fuel (print_args loc args (put loc (punct rparen) rest)))
  unfolding print call_args stop
  call_args-Only loc args p l rest zero = out
  call_args-Only loc no_args p l rest (suc fuel) = at_punct-Only _ _ rparen refl (
      >>=-Only _ _ _ (pure-Only no_args _)
        (>>=-Only _ _ _ (expect_punct-Only _ rest rparen refl) (pure-Only _ rest)))
  call_args-Only loc (arg e more) p l rest (suc fuel) =
      at_punct-Only _ _ rparen (print_args-unclosed loc e more rest p) (
        >>=-Only _ _ _ (l rest fuel)
          (>>=-Only _ _ _ (expect_punct-Only _ rest rparen refl) (pure-Only _ rest)))

  mutual
    unfolding print Printable args_loop stop

    -- The text of an expression is read at the expression's level.
    print-Reads : (e : Expr R) → Printable e → Reads (level_of e) e (print e)
    print-Reads (int loc (pos n)) p = int-Reads loc n
    print-Reads (int loc (negsuc n)) p = absurd p
    print-Reads (real loc r) p = real-Reads loc r
    print-Reads (str loc s) p = str-Reads loc s
    print-Reads (char loc c) p = char-Reads loc c
    print-Reads (name loc n) p = name-Reads loc n p
    print-Reads (adr loc n) p = adr-Reads loc n p
    print-Reads (call loc n args) (p, q) =
        call-Reads loc n args (print_args loc args) p
          (call_args-Only loc args (AllPrintable-Starts args q) (loop-Reads loc args q))
    print-Reads (index loc a b) (p, q) =
        index-Reads loc a b _ (print b) (fit-Reads a 0 p (print-Reads a p))
          (whole-Reads b q (print-Reads b q))
    print-Reads (field loc a n) (p, q) = field-Reads loc a n _ q (fit-Reads a 0 p (print-Reads a p))
    print-Reads (deref loc a) p = deref-Reads loc a _ (fit-Reads a 0 p (print-Reads a p))
    print-Reads (bin loc mul a b) (_, p, q) =
        term_op-Reads a b loc _ _ multiplies (fit-Reads a 2 p (print-Reads a p))
          (fit-Reads b 1 q (print-Reads b q)) λ rest. (wrap-words b _ _ rest q).0
    print-Reads (bin loc rdiv a b) (_, p, q) =
        term_op-Reads a b loc _ _ divides (fit-Reads a 2 p (print-Reads a p))
          (fit-Reads b 1 q (print-Reads b q)) λ rest. (wrap-words b _ _ rest q).0
    print-Reads (bin loc idiv a b) (_, p, q) =
        term_op-Reads a b loc _ _ quotients (fit-Reads a 2 p (print-Reads a p))
          (fit-Reads b 1 q (print-Reads b q)) λ rest. (wrap-words b _ _ rest q).0
    print-Reads (bin loc modulo a b) (_, p, q) =
        term_op-Reads a b loc _ _ remainders (fit-Reads a 2 p (print-Reads a p))
          (fit-Reads b 1 q (print-Reads b q)) λ rest. (wrap-words b _ _ rest q).0
    print-Reads (bin loc and a b) (_, p, q) =
        term_op-Reads a b loc _ _ conjoins (fit-Reads a 2 p (print-Reads a p))
          (fit-Reads b 1 q (print-Reads b q)) λ rest. (wrap-words b _ _ rest q).0
    print-Reads (bin loc add a b) (_, p, q) =
        simple_op-Reads a b loc _ _ adds (fit-Reads a 3 p (print-Reads a p))
          (fit-Reads b 2 q (print-Reads b q)) λ rest. (wrap-words b _ _ rest q).1
    print-Reads (bin loc sub a b) (_, p, q) =
        simple_op-Reads a b loc _ _ subtracts (fit-Reads a 3 p (print-Reads a p))
          (fit-Reads b 2 q (print-Reads b q)) λ rest. (wrap-words b _ _ rest q).1
    print-Reads (bin loc or a b) (_, p, q) =
        simple_op-Reads a b loc _ _ disjoins (fit-Reads a 3 p (print-Reads a p))
          (fit-Reads b 2 q (print-Reads b q)) λ rest. (wrap-words b _ _ rest q).1
    print-Reads (bin loc Op.eq a b) (_, p, q) =
        relation-Reads a b loc _ _ equals (fit-Reads a 3 p (print-Reads a p))
          (fit-Reads b 3 q (print-Reads b q))
    print-Reads (bin loc Op.ne a b) (_, p, q) =
        relation-Reads a b loc _ _ differs (fit-Reads a 3 p (print-Reads a p))
          (fit-Reads b 3 q (print-Reads b q))
    print-Reads (bin loc Op.lt a b) (_, p, q) =
        relation-Reads a b loc _ _ less (fit-Reads a 3 p (print-Reads a p))
          (fit-Reads b 3 q (print-Reads b q))
    print-Reads (bin loc Op.le a b) (_, p, q) =
        relation-Reads a b loc _ _ at_most (fit-Reads a 3 p (print-Reads a p))
          (fit-Reads b 3 q (print-Reads b q))
    print-Reads (bin loc Op.gt a b) (_, p, q) =
        relation-Reads a b loc _ _ greater (fit-Reads a 3 p (print-Reads a p))
          (fit-Reads b 3 q (print-Reads b q))
    print-Reads (bin loc Op.ge a b) (_, p, q) =
        relation-Reads a b loc _ _ at_least (fit-Reads a 3 p (print-Reads a p))
          (fit-Reads b 3 q (print-Reads b q))
    print-Reads (bin loc and_then a b) (o, _, _) = absurd (cc)
    print-Reads (bin loc neg a b) (o, _, _) = absurd (cc)
    print-Reads (bin loc Op.not a b) (o, _, _) = absurd (cc)
    print-Reads (un loc neg a) p = neg-Reads a loc _ (fit-Reads a 2 p (print-Reads a p))
    print-Reads (un loc Op.not a) p = not-Reads loc a _ (fit-Reads a 1 p (print-Reads a p))
    print-Reads (un loc _ a) p = absurd p

    loop-Reads : (loc : Loc) (args : Args R) → AllPrintable args → LoopReads loc args
    loop-Reads loc no_args p = tt
    loop-Reads loc (arg e no_args) (p, _) = last_arg-Reads loc e (whole-Reads e p (print-Reads e p))
    loop-Reads loc (arg e (arg f more)) (p, q) =
        more_args-Reads loc e f more (whole-Reads e p (print-Reads e p))
          (loop-Reads loc (arg f more) q)

  -- The text of an expression is its tokens with no more parentheses than the levels of its operators
  -- ask for. Where no token follows that goes on with an expression, and with sixteen units of fuel
  -- for each token and seven more, `expr` reads the text of a printable expression as that
  -- expression, places included, and leaves what follows.
  pub expr-print :
      (e : Expr R) (rest : Tokens R) (fuel : ℕ)
      → Printable e
      → Closes rest
      → 16 * size (print e rest) + 7 ≤ fuel
      → expr fuel (print e rest) ≡ ok e rest
  expr-print e rest fuel p c h =
      Only-ok (whole-Reads e p (print-Reads e p) rest c fuel)
        (Leaves-runs (expr-Leaves fuel (print e rest) h))
