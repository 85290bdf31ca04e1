-- ===== src/Bootstrap/Lexer/Comment.antt =====
-- `skip_comment` and `metacommand` of bootstrap/lex.c.
pub mod Skips
use native_pascal.Prelude.{
  ℕ, zero, suc, ◌+◌, Bool, true, false, not, ◌&&◌, ◌||◌, [], ◌∷◌, ◌++◌, Option, none, some, ◌==◌,
  if◌then◌else◌, drop,
}
use native_pascal.Prelude.Memory.{Bytes}
use native_pascal.Bootstrap.Chars.{
  same_text, is_digit, is_space, starts_word, to_upper, take_while, drop_while, starts_with,
}
use native_pascal.Bootstrap.Token.{
  Result, ok, err, malformed_mathck, malformed_include, unsupported_metacommand,
  unterminated_comment, ◌>>=◌,
}

-- What a comment is found to hold: its body, the line at its end, and the text behind it.
pub record Comment : Type 0 where
  pub body : Bytes
  pub line : ℕ
  pub rest : Bytes

abbrev bump : ℕ → ℕ → ℕ
bump line c = if c == 0x0a then line + 1 else line

-- The loop; `paren` tells the form with a parenthesis and a star from the one with braces.
pub comment_loop : Bool → Bytes → ℕ → Bytes → Result Comment
comment_loop paren body line [] = err unterminated_comment
comment_loop paren body line (c ∷ cs) = elim (not paren && c == b'}') [
  | true ↦ ok (record { body = body; line = line; rest = cs })
  | false ↦ elim (paren && c == b'*' && starts_with (λ d. d == b')') cs) [
    | true ↦ ok (record { body = body; line = line; rest = drop 1 cs })
    | false ↦ comment_loop paren (body ++ c ∷ []) (bump line c) cs
  ]
]

-- The word of a metacommand in upper case, `room` characters at most, and what follows it.
pub take_word : ℕ → Bytes → Bytes × Bytes
take_word zero s = ([], s)
take_word (suc room) [] = ([], [])
take_word (suc room) (c ∷ cs) =
    let more = take_word room cs in
    if starts_word c then (to_upper c ∷ more.0, more.1) else ([], c ∷ cs)

abbrev mathck_word : Bytes
mathck_word = b'M' ∷ b'A' ∷ b'T' ∷ b'H' ∷ b'C' ∷ b'K' ∷ []

abbrev include_word : Bytes
include_word = b'I' ∷ b'N' ∷ b'C' ∷ b'L' ∷ b'U' ∷ b'D' ∷ b'E' ∷ []

abbrev is_sign : ℕ → Bool
is_sign c = c == b'+' || c == b'-'

-- One character of the test, if there is one.
abbrev skip_one : (ℕ → Bool) → Bytes → Bytes
skip_one test [] = []
skip_one test (c ∷ cs) = if test c then cs else c ∷ cs

-- Behind the setting of `$MATHCK`: only space is left.
mathck_end : Bytes → Result (Option Bytes)
mathck_end s = elim (drop_while is_space s) [ [] ↦ ok none | _ ∷ _ ↦ err malformed_mathck ]

-- Behind `$MATHCK:`: an optional sign and digits.
mathck_level : Bytes → Result (Option Bytes)
unfolding mathck_end
mathck_level s =
    let t = skip_one is_sign (drop_while is_space s) in
    if starts_with is_digit t then mathck_end (drop_while is_digit t) else err malformed_mathck

-- `$MATHCK` settings are checked and ignored.
mathck : Bytes → Result (Option Bytes)
unfolding mathck_end mathck_level
mathck [] = err malformed_mathck
mathck (c ∷ cs) =
    if is_sign c then mathck_end cs else if c == b':' then mathck_level cs else err malformed_mathck

-- The file name of `$INCLUDE`, up to its closing quote.
quoted : Bytes → Result (Option Bytes)
quoted s =
    if starts_with (λ c. c == 0x27) (drop_while (λ c. not (c == 0x27)) s)
    then ok (some (take_while (λ c. not (c == 0x27)) s))
    else err malformed_include

include_name : Bytes → Result (Option Bytes)
unfolding quoted
include_name [] = err malformed_include
include_name (c ∷ cs) = if c == 0x27 then quoted cs else err malformed_include

run_metacommand : Bytes → Bytes → Result (Option Bytes)
unfolding mathck include_name
run_metacommand word rest =
    if same_text word mathck_word
    then mathck (drop_while is_space rest)
    else if not (same_text word include_word)
    then err (unsupported_metacommand word)
    else include_name (drop_while is_space (skip_one (λ c. c == b':') (drop_while is_space rest)))

-- On the body behind its `$`; the word buffer holds 31 characters. The result is the name of the
-- file to splice, if the command asks for one.
unfoldable pub metacommand : Bytes → Result (Option Bytes)
unfolding run_metacommand take_word
metacommand body = let w = take_word 31 body in run_metacommand w.0 w.1

pub run_comment : Bytes → Result (Option Bytes)
unfolding metacommand
run_comment [] = ok none
run_comment (c ∷ cs) = if c == b'$' then metacommand cs else ok none

-- On the text behind the opener: what the comment holds, and the file that it asks for.
unfoldable pub skip_comment : Bool → ℕ → Bytes → Result (Comment × Option Bytes)
unfolding comment_loop run_comment
skip_comment paren line s =
    comment_loop paren [] line s >>= λ c. run_comment c.body >>= λ name. ok (c, name)
