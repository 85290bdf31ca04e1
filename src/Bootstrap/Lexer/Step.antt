-- ===== src/Bootstrap/Lexer/Step.antt =====
-- One round of the loop of `lex_one` in bootstrap/lex.c.
pub mod Lines
use native_pascal.Prelude.{
  ℕ, ◌+◌, Bool, true, false, [], ◌∷◌, map, Option, none, some, ◌==◌, if◌then◌else◌, drop,
}
use native_pascal.Prelude.Memory.{Bytes}
use native_pascal.Bootstrap.Chars.{
  is_digit, is_space, starts_word, in_word, to_lower, take_while, drop_while, starts_with,
}
use native_pascal.Bootstrap.Token.{
  Punct, lparen, rparen, lbrack, rbrack, comma, semi, colon, becomes, dot, dotdot, caret, plus,
  minus, star, slash, eq, ne, lt, le, gt, ge, Tok, ident, punct, Result, ok, err,
  unexpected_character, ◌>>=◌,
}
use native_pascal.Bootstrap.Lexer.Number.{lex_number}
use native_pascal.Bootstrap.Lexer.Literal.{lex_string}
use native_pascal.Bootstrap.Lexer.Comment.{Comment, skip_comment}

-- What a round does: it passes over space or a comment, splices a file, or pushes a token. `rest`
-- is the text behind it, and `line` the line there.
pub data Step (R : Type 0) : Type 0 where
  skip : (line : ℕ) (rest : Bytes) → Step R
  splice : (name : Bytes) (line : ℕ) (rest : Bytes) → Step R
  push : (tok : Tok R) (rest : Bytes) → Step R

-- The `switch` on the character, with the next one (0 at the end): the punctuation, and whether it
-- takes both.
pub punct_of : ℕ → ℕ → Option (Punct × Bool)
punct_of c d =
    if c == b'('
    then some (lparen, false)
    else if c == b')'
    then some (rparen, false)
    else if c == b'['
    then some (lbrack, false)
    else if c == b']'
    then some (rbrack, false)
    else if c == b','
    then some (comma, false)
    else if c == b';'
    then some (semi, false)
    else if c == b'^'
    then some (caret, false)
    else if c == b'+'
    then some (plus, false)
    else if c == b'-'
    then some (minus, false)
    else if c == b'*'
    then some (star, false)
    else if c == b'/'
    then some (slash, false)
    else if c == b'='
    then some (eq, false)
    else if c == b':'
    then (if d == b'=' then some (becomes, true) else some (colon, false))
    else if c == b'.'
    then (if d == b'.' then some (dotdot, true) else some (dot, false))
    else if c == b'<'
    then (if d == b'>'
        then some (ne, true)
        else if d == b'='
        then some (le, true)
        else some (lt, false))
    else if c == b'>'
    then (if d == b'=' then some (ge, true) else some (gt, false))
    else none

abbrev next_char : Bytes → ℕ
next_char [] = 0
next_char (d ∷ cs) = d

abbrev is_open_paren_star : ℕ → Bytes → Bool
is_open_paren_star c cs = elim (c == b'(') [
  | true ↦ starts_with (λ d. d == b'*') cs
  | false ↦ false
]

module _ {R : Type 0} where
  lex_punct : ℕ → Bytes → Result (Step R)
  unfolding punct_of
  lex_punct c cs = elim (punct_of c (next_char cs)) [
    | none ↦ err (unexpected_character c)
    | some (p, two) ↦ ok (push (punct p) (if two then drop 1 cs else cs))
  ]

  lex_ident : ℕ → Bytes → Result (Step R)
  lex_ident c cs =
      let orig = c ∷ take_while in_word cs in
      ok (push (ident (map to_lower orig) orig) (drop_while in_word cs))

  pushed : Result (Tok R × Bytes) → Result (Step R)
  pushed r = r >>= λ t. ok (push t.0 t.1)

  commented : Result (Comment × Option Bytes) → Result (Step R)
  commented r = r >>= λ c. elim c.1 [
    | none ↦ ok (skip c.0.line c.0.rest)
    | some name ↦ ok (splice name c.0.line c.0.rest)
  ]

module _ {R : Type 0} (strtod : Bytes → R) where
  -- A token, at a character that is no space and opens no comment.
  lex_token : ℕ → Bytes → Result (Step R)
  unfolding lex_punct lex_ident pushed lex_number lex_string
  lex_token c cs =
      if starts_word c
      then lex_ident c cs
      else if is_digit c
      then pushed (lex_number strtod (c ∷ cs))
      else if c == 0x27
      then pushed (lex_string cs)
      else lex_punct c cs

  -- At a character and the text behind it, on the line.
  unfoldable pub lex_step : ℕ → ℕ → Bytes → Result (Step R)
  unfolding lex_token commented skip_comment
  lex_step line c cs =
      if c == 0x0a
      then ok (skip (line + 1) cs)
      else if is_space c
      then ok (skip line cs)
      else if c == b'{'
      then commented (skip_comment false line cs)
      else if is_open_paren_star c cs
      then commented (skip_comment true line (drop 1 cs))
      else lex_token c cs
