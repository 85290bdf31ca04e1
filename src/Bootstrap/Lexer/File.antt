-- ===== src/Bootstrap/Lexer/File.antt =====
-- `lex_one` and `lex_file` of bootstrap/lex.c: the loop over a file, and $INCLUDE.
pub mod Total
use native_pascal.Prelude.{
  ℕ, zero, suc, List, [], ◌∷◌, ◌++◌, Option, none, some, ◌==◌, if◌then◌else◌, length,
}
use native_pascal.Prelude.Memory.{Bytes}
use native_pascal.Bootstrap.Token.{Loc, eof, Token, Reason, ok, err, include_too_deep, cannot_open}
use native_pascal.Bootstrap.Lexer.Step.{skip, splice, push, lex_step}

-- An error with the place that `fatal` prints, or tokens. `fatal` ends the run, so no token of a
-- run with an error is seen. The first file has no place to report from. `exhausted` is the model's
-- own: a loop that ran out of rounds.
pub data Lexed (A : Type 0) : Type 0 where
  lexed : A → Lexed A
  fatal : Option Loc → Reason → Lexed A
  exhausted : Lexed A

infixl 5 ◌>>=◌
abbrev pub ◌>>=◌ : {A B : Type 0} → Lexed A → (A → Lexed B) → Lexed B
lexed a >>= f = f a
fatal loc e >>= f = fatal loc e
exhausted >>= f = exhausted

-- `dir_of`: the path up to its last slash, that included.
pub dir_of : Bytes → Bytes
dir_of [] = []
dir_of (c ∷ cs) = elim (dir_of cs) [ [] ↦ if c == b'/' then c ∷ [] else [] | d ∷ ds ↦ c ∷ d ∷ ds ]

-- The path of an included file, as it is opened.
pub include_path : Bytes → Bytes → Bytes
include_path dir [] = dir
include_path dir (c ∷ cs) = if c == b'/' then c ∷ cs else dir ++ (c ∷ cs)

-- The file system is `read_file`: `none` for a file that cannot be opened.
module _ {R : Type 0} (strtod : Bytes → R) (read_file : Bytes → Option Bytes) where
  -- The loop over the text of one file from a line on. `include path loc` lexes an included file.
  pub lex_loop :
      (Bytes → Loc → Lexed (List (Token R)))
      → (file dir : Bytes) → ℕ
      → ℕ
      → Bytes
      → Lexed (List (Token R))
  unfolding include_path
  lex_loop include file dir zero line s = exhausted
  lex_loop include file dir (suc rounds) line [] = lexed []
  lex_loop include file dir (suc rounds) line (c ∷ cs) =
      let here : Loc = record { file = file; line = line } in
      elim (lex_step strtod line c cs) [
        | err e ↦ fatal (some here) e
        | ok (skip line' rest) ↦ lex_loop include file dir rounds line' rest
        | ok (splice name line' rest) ↦ include (include_path dir name) here >>= λ spliced.
            lex_loop include file dir rounds line' rest >>= λ more. lexed (spliced ++ more)
        | ok (push tok rest) ↦ lex_loop include file dir rounds line rest >>= λ more.
            lexed (record { tok = tok; loc = here } ∷ more)
      ]

  -- A file, with the lexer of the files that it includes.
  pub lex_one_of :
      (Bytes → Loc → Lexed (List (Token R))) → Bytes → Option Loc → Lexed (List (Token R))
  unfolding lex_loop dir_of
  lex_one_of include path from = elim (read_file path) [
    | none ↦ fatal from (cannot_open path)
    | some s ↦ lex_loop include path (dir_of path) (suc (length s)) 1 s
  ]

  -- A file opened at a nesting from which `left` further levels may be included.
  pub lex_one : ℕ → Bytes → Option Loc → Lexed (List (Token R))
  unfolding lex_one_of
  lex_one zero path from = lex_one_of (λ p loc. fatal (some loc) include_too_deep) path from
  lex_one (suc left) path from = lex_one_of (λ p loc. lex_one left p (some loc)) path from

  -- The place of the end: that of the last token, or the file's first line.
  last_loc : Loc → List (Token R) → Loc
  last_loc loc [] = loc
  last_loc loc (t ∷ ts) = last_loc t.loc ts

  -- A file of depth 16 may still include one, of depth 17, which may include none.
  unfoldable pub lex_file : Bytes → Lexed (List (Token R))
  unfolding lex_one last_loc lex_step
  lex_file path = lex_one 17 path none >>= λ ts.
      lexed (ts ++ record { tok = eof; loc = last_loc (record { file = path; line = 1 }) ts } ∷ [])
