-- ===== src/Bootstrap/Lexer/File/Total.antt =====
-- The lexer of a file ends, with tokens or an error: its rounds are enough.
use native_pascal.Prelude.{
  ℕ, zero, suc, ◌<◌, ◌≡◌, ◌≢◌, refl, List, [], ◌∷◌, ◌++◌, Option, none, some, arith, length,
  length-append, ap,
}
use native_pascal.Prelude.Memory.{Bytes}
use native_pascal.Bootstrap.Token.{
  Loc, eof, Token, Reason, include_too_deep, cannot_open, Result, ok, err,
}
use native_pascal.Bootstrap.Lexer.Lines.{Consumes}
use native_pascal.Bootstrap.Lexer.Step.{Step, skip, splice, push, lex_step}
use native_pascal.Bootstrap.Lexer.Step.Lines.{lex_step-StepConsumes}
use native_pascal.Bootstrap.Lexer.File.{
  Lexed, dir_of, last_loc, lexed, fatal, exhausted, ◌>>=◌, include_path, lex_loop, lex_one_of,
  lex_one, lex_file,
}

>>=-not_exhausted :
    {A B : Type 0} (m : Lexed A) (f : A → Lexed B)
    → m ≢ exhausted
    → ((a : A) → f a ≢ exhausted)
    → (m >>= f) ≢ exhausted
>>=-not_exhausted (lexed a) f h k e = k a e
>>=-not_exhausted (fatal loc r) f h k e = cc
>>=-not_exhausted exhausted f h k e = h refl

lexed_not_exhausted : {A : Type 0} (a : A) → lexed a ≢ exhausted
lexed_not_exhausted a e = cc

fatal_not_exhausted :
    {A : Type 0} (loc : Option Loc) (r : Reason) → ◌≢◌ {A = Lexed A} (fatal loc r) exhausted
fatal_not_exhausted loc r e = cc

-- What a step leaves is shorter.
Consumes-length :
    (line line' : ℕ) (s rest : Bytes) → Consumes line s line' rest → length rest < length s
Consumes-length line line' s rest c =
    omega (arith, ap length c.splits, length-append c.taken rest, c.some_taken)

module _ {R : Type 0} (strtod : Bytes → R) (read_file : Bytes → Option Bytes) where
  module _ (include : Bytes → Loc → Lexed (List (Token R)))
      (ends : (p : Bytes) (loc : Loc) → include p loc ≢ exhausted) (file dir : Bytes) where
    -- A round, given that the rounds behind it end.
    lex_round-ends :
        (rounds line c : ℕ) (cs : Bytes)
        → length cs < rounds
        → ((line : ℕ) (s : Bytes)
            → length s < rounds
            → lex_loop strtod read_file include file dir rounds line s ≢ exhausted)
        → (r : Result (Step R)) → lex_step strtod line c cs ≡ r
        → lex_loop strtod read_file include file dir (suc rounds) line (c ∷ cs) ≢ exhausted
    unfolding lex_loop
    lex_round-ends rounds line c cs h rest_ends (err x) e =
        rw (e, lex_loop) (fatal_not_exhausted (some (record { file = file; line = line })) x)
    lex_round-ends rounds line c cs h rest_ends (ok (skip line' rest)) e =
        let taken = lex_step-StepConsumes strtod line c cs (skip line' rest) e in
        rw (e, lex_loop)
          (rest_ends line' rest (omega (arith, Consumes-length line line' (c ∷ cs) rest taken)))
    lex_round-ends rounds line c cs h rest_ends (ok (splice name line' rest)) e =
        let taken = lex_step-StepConsumes strtod line c cs (splice name line' rest) e in
        let loop = lex_loop strtod read_file include file dir rounds line' rest in
        let here : Loc = record { file = file; line = line } in
        rw (e, lex_loop)
          (>>=-not_exhausted (include (include_path dir name) here)
            (λ spliced. loop >>= λ more. lexed (spliced ++ more))
            (ends (include_path dir name) here)
            (λ spliced.
              >>=-not_exhausted loop (λ more. lexed (spliced ++ more))
                (rest_ends line' rest
                  (omega (arith, Consumes-length line line' (c ∷ cs) rest taken)))
                (λ more. lexed_not_exhausted (spliced ++ more))))
    lex_round-ends rounds line c cs h rest_ends (ok (push tok rest)) e =
        let taken = lex_step-StepConsumes strtod line c cs (push tok rest) e in
        let here : Loc = record { file = file; line = line } in
        let found : Token R = record { tok = tok; loc = here } in
        rw (e, lex_loop)
          (>>=-not_exhausted (lex_loop strtod read_file include file dir rounds line rest)
            (λ more. lexed (found ∷ more))
            (rest_ends line rest (omega (arith, Consumes-length line line (c ∷ cs) rest taken)))
            (λ more. lexed_not_exhausted (found ∷ more)))

    lex_loop-ends :
        (rounds line : ℕ) (s : Bytes)
        → length s < rounds
        → lex_loop strtod read_file include file dir rounds line s ≢ exhausted
    lex_loop-ends zero line s h = absurd (omega arith)
    lex_loop-ends (suc rounds) line [] h = unfold lex_loop in lexed_not_exhausted []
    lex_loop-ends (suc rounds) line (c ∷ cs) h =
        lex_round-ends rounds line c cs (omega arith) (lex_loop-ends rounds)
          (lex_step strtod line c cs) refl

  -- A file, given that the files that it includes end.
  lex_one_of-ends :
      (include : Bytes → Loc → Lexed (List (Token R))) (path : Bytes) (from : Option Loc)
      → ((p : Bytes) (loc : Loc) → include p loc ≢ exhausted)
      → lex_one_of strtod read_file include path from ≢ exhausted
  unfolding lex_one_of
  lex_one_of-ends include path from ends = go (read_file path) refl
    where
      go :
          (f : Option Bytes)
          → read_file path ≡ f
          → lex_one_of strtod read_file include path from ≢ exhausted
      go none e = rw (e, lex_one_of) (fatal_not_exhausted from (cannot_open path))
      go (some s) e =
          rw (e, lex_one_of)
            (lex_loop-ends include ends path (dir_of path) (suc (length s)) 1 s (omega arith))

  lex_one-ends :
      (left : ℕ) (path : Bytes) (from : Option Loc)
      → lex_one strtod read_file left path from ≢ exhausted
  unfolding lex_one
  lex_one-ends zero path from =
      lex_one_of-ends (λ p loc. fatal (some loc) include_too_deep) path from
        (λ p loc. fatal_not_exhausted (some loc) include_too_deep)
  lex_one-ends (suc left) path from =
      lex_one_of-ends (λ p loc. lex_one strtod read_file left p (some loc)) path from
        (λ p loc. lex_one-ends left p (some loc))

  -- Whatever the files hold, the lexer ends with tokens or with an error: it does not run out of
  -- rounds, nor does it follow $INCLUDE for ever.
  pub lex_file-ends : (path : Bytes) → lex_file strtod read_file path ≢ exhausted
  unfolding lex_file
  lex_file-ends path =
      >>=-not_exhausted (lex_one strtod read_file 17 path none)
        (λ ts. lexed (
          ts
          ++ record {
            tok = eof;
            loc = last_loc strtod read_file (record { file = path; line = 1 }) ts;
          }
            ∷ []))
        (lex_one-ends 17 path none) (λ ts. lexed_not_exhausted _)
