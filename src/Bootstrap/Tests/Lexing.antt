-- ===== src/Bootstrap/Tests/Lexing.antt =====
-- Runs of bootstrap/lex.c on small texts, and instances of its theorems.
use native_pascal.Prelude.{
  ◌≡◌, ◌≢◌, ◌↔◌, ◌-◌, ◌^◌, refl, true, [], ◌∷◌, ◌++◌, Option, none, some, ◌==◌, if◌then◌else◌,
}
use native_pascal.Prelude.Memory.{Bytes}
use native_pascal.Bootstrap.Token.{
  eof, ident, int, char, punct, becomes, semi, ok, err, exceeds_integer64,
}
use native_pascal.Bootstrap.Lexer.Number.{digit_value, fraction_length, exponent_length, lex_number}
use native_pascal.Bootstrap.Lexer.Number.Digits.{value}
use native_pascal.Bootstrap.Lexer.Number.Exact.{horner, within}
use native_pascal.Bootstrap.Lexer.Number.Constants.{
  radix_constant, lex_number-radix, lex_number-decimal,
}
use native_pascal.Bootstrap.Lexer.Literal.{lex_string}
use native_pascal.Bootstrap.Lexer.Literal.Spelling.{Holds, Spelled, lex_string_iff}
use native_pascal.Bootstrap.Lexer.Comment.{Comment, comment_loop}
use native_pascal.Bootstrap.Lexer.Comment.Skips.{Found, comment_loop_iff}
use native_pascal.Bootstrap.Lexer.Step.{skip, lex_step}
use native_pascal.Bootstrap.Lexer.Step.Lines.{StepConsumes, lex_step-StepConsumes}
use native_pascal.Bootstrap.Lexer.File.{lexed, exhausted, lex_file}
use native_pascal.Bootstrap.Lexer.File.Total.{lex_file-ends}

-- A decimal point's digits, as a stand-in for a real number.
abbrev as_written : Bytes → Bytes
as_written s = s

-- "16#fF"
lex_number-radix_example :
    lex_number as_written ((b'1' ∷ b'6' ∷ []) ++ b'#' ∷ b'f' ∷ b'F' ∷ b';' ∷ [])
    ≡ radix_constant (horner 10 0 (b'1' ∷ b'6' ∷ [])) (b'f' ∷ b'F' ∷ b';' ∷ [])
unfolding value
lex_number-radix_example =
    lex_number-radix as_written (b'1' ∷ b'6' ∷ []) (b'f' ∷ b'F' ∷ b';' ∷ []) (refl, (refl, tt))

radix_runs :
    (lex_number as_written (b'1' ∷ b'6' ∷ b'#' ∷ b'f' ∷ b'F' ∷ b';' ∷ []) ≡ ok (int 255, b';' ∷ []))
unfolding lex_number digit_value
radix_runs = refl

-- "42;"
lex_number-decimal_example :
    lex_number as_written ((b'4' ∷ b'2' ∷ []) ++ b';' ∷ [])
    ≡ within
        (2 ^ 63 - 1)
        (horner 10 0 (b'4' ∷ b'2' ∷ []))
        (ok (int (horner 10 0 (b'4' ∷ b'2' ∷ [])), b';' ∷ []))
        (err exceeds_integer64)
unfolding fraction_length exponent_length value
lex_number-decimal_example =
    lex_number-decimal as_written (b'4' ∷ b'2' ∷ []) (b';' ∷ []) (refl, (refl, tt)) refl refl refl
      refl

-- "''';": a quote.
lex_string_iff_example :
    (lex_string {R = Bytes} (0x27 ∷ 0x27 ∷ 0x27 ∷ b';' ∷ []) ≡ ok (char 0x27, b';' ∷ [])) ↔ (
      (body : Bytes) × Holds {R = Bytes} body (char 0x27)
      × Spelled body (0x27 ∷ 0x27 ∷ 0x27 ∷ b';' ∷ []) (b';' ∷ []))
lex_string_iff_example = lex_string_iff (0x27 ∷ 0x27 ∷ 0x27 ∷ b';' ∷ []) (char 0x27) (b';' ∷ [])

-- A comment of two lines.
abbrev two_lines : Comment
two_lines = record { body = b'*' ∷ 0x0a ∷ []; line = 8; rest = b'x' ∷ [] }

comment_loop_iff_example :
    (comment_loop true [] 7 (b'*' ∷ 0x0a ∷ b'*' ∷ b')' ∷ b'x' ∷ []) ≡ ok two_lines)
    ↔ Found true [] 7 (b'*' ∷ 0x0a ∷ b'*' ∷ b')' ∷ b'x' ∷ []) two_lines
comment_loop_iff_example = comment_loop_iff true 7 (b'*' ∷ 0x0a ∷ b'*' ∷ b')' ∷ b'x' ∷ []) two_lines

lex_step_runs :
    lex_step as_written 3 b'{' (b'a' ∷ 0x0a ∷ b'}' ∷ b'x' ∷ []) ≡ ok (skip 4 (b'x' ∷ []))
unfolding lex_step
lex_step_runs = refl

lex_step-StepConsumes_example :
    StepConsumes {R = Bytes} 3 (b'{' ∷ b'a' ∷ 0x0a ∷ b'}' ∷ b'x' ∷ []) (skip 4 (b'x' ∷ []))
lex_step-StepConsumes_example =
    lex_step-StepConsumes as_written 3 b'{' (b'a' ∷ 0x0a ∷ b'}' ∷ b'x' ∷ []) (skip 4 (b'x' ∷ []))
      lex_step_runs

-- File "a" includes file "b"; file "r" includes itself.
abbrev files : Bytes → Option Bytes
files [] = none
files (c ∷ cs) =
    if c == b'a'
    then some (
        b'{' ∷ b'$' ∷ b'i' ∷ b'n' ∷ b'c' ∷ b'l' ∷ b'u' ∷ b'd' ∷ b'e' ∷ b':' ∷ 0x27 ∷ b'b' ∷ 0x27
        ∷ b'}' ∷ 0x0a ∷ b';' ∷ [])
    else if c == b'b'
    then some (b'X' ∷ b':' ∷ b'=' ∷ [])
    else none

lex_file_runs :
    lex_file as_written files (b'a' ∷ [])
    ≡ lexed (
        record { tok = ident (b'x' ∷ []) (b'X' ∷ []); loc = record { file = b'b' ∷ []; line = 1 } }
        ∷ record { tok = punct becomes; loc = record { file = b'b' ∷ []; line = 1 } }
        ∷ record { tok = punct semi; loc = record { file = b'a' ∷ []; line = 2 } }
        ∷ record { tok = eof; loc = record { file = b'a' ∷ []; line = 2 } }
        ∷ [])
unfolding lex_file
lex_file_runs = refl

lex_file-ends_example : lex_file as_written files (b'a' ∷ []) ≢ exhausted
lex_file-ends_example = lex_file-ends as_written files (b'a' ∷ [])
