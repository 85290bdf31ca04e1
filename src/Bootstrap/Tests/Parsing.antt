-- ===== src/Bootstrap/Tests/Parsing.antt =====
-- Runs of bootstrap/parse.c, and its theorems at examples.
use native_pascal.Prelude.{ℕ, ◌≡◌, refl, arith, [], ◌∷◌}
use native_pascal.Prelude.Int.{pos}
use native_pascal.Prelude.Memory.{Bytes}
use native_pascal.Bootstrap.Token.{Loc, Tok, ident, int, punct, semi, dot, plus, star, becomes}
use native_pascal.Bootstrap.Words.{kw_program, kw_begin, kw_end}
use native_pascal.Bootstrap.Ast.{Expr, add, mul}
use native_pascal.Bootstrap.Parser.{
  Tokens, end, token, Parsed, ok, pure, stop, ◌>>=◌, advance, here, take_token, test, at_word,
  at_punct, expected, unsupported, unsupported_at, reject_if, reject_at, accept_word, accept_punct,
  expect_word, expect_punct, ident_text, ident_list,
}
use native_pascal.Bootstrap.Parser
use native_pascal.Bootstrap.Parser.Expressions.{
  term_op, simple_op, relation, adr_factor, at_selector, expr,
}
use native_pascal.Bootstrap.Parser.Compilands.{parse_compiland}
use native_pascal.Bootstrap.Parser.Progress.{size, Gives}
use native_pascal.Bootstrap.Parser.Print.{print, Printable}
use native_pascal.Bootstrap.Parser.RoundTrip.Expressions.{expr-print}
use native_pascal.Bootstrap.Parser.Progress.Compilands.{parse_compiland-Ended, Ended}

abbrev line : ℕ → Loc
line n = record { file = []; line = n }

-- One token on a line of its own.
abbrev on : ℕ → Tok ℕ → Tokens ℕ → Tokens ℕ
on n k = token (record { tok = k; loc = line n })

abbrev word : ℕ → Bytes → Tokens ℕ → Tokens ℕ
word n w = on n (ident w w)

-- `1 + 2 * 3`
abbrev sum : Tokens ℕ → Tokens ℕ
sum rest = on 1 (int 1) (on 2 (punct plus) (on 3 (int 2) (on 4 (punct star) (on 5 (int 3) rest))))

abbrev sum_tree : Expr ℕ
sum_tree =
    Expr.bin (line 2) add (Expr.int (line 1) (pos 1))
      (Expr.bin (line 4) mul (Expr.int (line 3) (pos 2)) (Expr.int (line 5) (pos 3)))

sum_parses : expr 40 (sum (end (line 6))) ≡ ok sum_tree (end (line 6))
unfolding pure stop ◌>>=◌ advance here take_token test at_word at_punct expected unsupported
    unsupported_at reject_if accept_word accept_punct expect_word expect_punct ident_text
    Parser.ident term_op simple_op relation adr_factor at_selector expr
sum_parses = refl

-- `PROGRAM P; BEGIN P := 1 + 2 * 3 END.`
abbrev program : Tokens ℕ
program = word 1 kw_program (
    word 1 (b'p' ∷ []) (
      on 1 (punct semi) (
        word 1 kw_begin (
          word 1 (b'p' ∷ [])
            (on 1 (punct becomes) (sum (word 6 kw_end (on 6 (punct dot) (end (line 7))))))))))

parse_compiland-Ended_example : Gives Ended (parse_compiland 256 program)
unfolding size
parse_compiland-Ended_example = parse_compiland-Ended 256 program (omega arith)

expr-print_example : expr 87 (print sum_tree (end (line 6))) ≡ ok sum_tree (end (line 6))
unfolding print size Printable
expr-print_example =
    expr-print sum_tree (end (line 6)) 87 (refl, tt, (refl, tt, tt))
      (
        (refl, refl, refl, refl),
        (refl, refl, refl, refl, refl),
        (refl, refl, refl, refl),
        (refl, refl, refl, refl, refl, refl, refl),
      )
      (omega arith)
