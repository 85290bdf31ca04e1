-- ===== src/Bootstrap/Lexer/Literal.antt =====
-- `lex_string` of bootstrap/lex.c: string and character literals.
pub mod Spelling
use native_pascal.Prelude.{true, false, [], ◌∷◌, ◌++◌, ◌==◌}
use native_pascal.Prelude.Memory.{Bytes}
use native_pascal.Bootstrap.Token.{Tok, str, char, Result, ok, err, unterminated_string, ◌>>=◌}

-- The loop, with the bytes collected so far and the text from the current position on.
pub string_loop : Bytes → Bytes → Result (Bytes × Bytes)
string_loop acc [] = err unterminated_string
string_loop acc (c ∷ []) = elim (c == 0x0a) [
  | true ↦ err unterminated_string
  | false ↦ elim (c == 0x27) [ true ↦ ok (acc, []) | false ↦ err unterminated_string ]
]
string_loop acc (c ∷ d ∷ cs) = elim (c == 0x0a) [
  | true ↦ err unterminated_string
  | false ↦ elim (c == 0x27) [
    | true ↦ elim (d == 0x27) [ true ↦ string_loop (acc ++ c ∷ []) cs | false ↦ ok (acc, d ∷ cs) ]
    | false ↦ string_loop (acc ++ c ∷ []) (d ∷ cs)
  ]
]

-- A single quoted character is a CHAR, not a string.
pub literal : {R : Type 0} → Bytes → Tok R
literal (c ∷ []) = char c
literal s = str s

-- On the text behind the opening quote.
unfoldable pub lex_string : {R : Type 0} → Bytes → Result (Tok R × Bytes)
unfolding string_loop literal
lex_string s = string_loop [] s >>= λ r. ok (literal r.0, r.1)
