-- ===== src/Bootstrap/Lexer/Step/Lines.antt =====
-- Every step of the lexer takes bytes from the front of its text, and keeps count of the lines.
use native_pascal.Prelude.{
  ℕ, ◌+◌, ◌≡◌, refl, sym, ap, ◌∙◌, Bool, true, false, [], ◌∷◌, ◌++◌, map, Option, none, some, arith,
  ◌==◌, if◌then◌else◌, drop, Bool-cases, inl, inr,
}
use mathlib.Core.List.{append_assoc}
use native_pascal.Prelude.Memory.{Bytes}
use native_pascal.Bootstrap.Chars.{
  is_digit, is_space, starts_word, in_word, All, take_while, drop_while, to_lower,
}
use native_pascal.Bootstrap.Token.{Punct, Tok, ident, punct, Result, ok, err, >>=-eq-ok, ◌>>=◌}
use native_pascal.Bootstrap.Lexer.Comment.{Comment, comment_loop, run_comment, skip_comment}
use native_pascal.Bootstrap.Lexer.Comment.Skips.{closer, Found, comment_loop_iff}
use native_pascal.Bootstrap.Lexer.Literal.{lex_string}
use native_pascal.Bootstrap.Lexer.Literal.Spelling.{
  Spelled, quoted, not_newline, lex_string_iff, is_quote,
}
use native_pascal.Bootstrap.Lexer.Number.{lex_number}
use native_pascal.Bootstrap.Lexer.Number.Extent.{lex_number-Takes}
use native_pascal.Bootstrap.Lexer.Lines.{
  newlines, newlines-append, Consumes, Takes, Takes-refl, Takes-cons, Takes-Consumes,
  drop_while-Takes,
}
use native_pascal.Bootstrap.Lexer.Step.{
  Step, skip, splice, push, punct_of, next_char, is_open_paren_star, lex_punct, lex_ident, pushed,
  commented, lex_token, lex_step,
}

-- A step from a line of a text.
abbrev pub StepConsumes : {R : Type 0} → ℕ → Bytes → Step R → Type 0
StepConsumes line s (skip line' rest) = Consumes line s line' rest
StepConsumes line s (splice name line' rest) = Consumes line s line' rest
StepConsumes line s (push tok rest) = Consumes line s line rest

-- A literal takes its quotes and no newline.
quoted-newlines : (body : Bytes) → All not_newline body → newlines (quoted body) ≡ 0
quoted-newlines [] a = refl
quoted-newlines (c ∷ cs) (n, a) = elim (Bool-cases (is_quote c)) [
  | inl q ↦ rw q (omega (arith, quoted-newlines cs a))
  | inr q ↦ rw q (ground (arith, quoted-newlines cs a))
]

Spelled-Takes : (body s rest : Bytes) → Spelled body s rest → Takes s rest
Spelled-Takes body s rest f = record {
  taken = quoted body ++ 0x27 ∷ [];
  splits = f.splits ∙ sym (append_assoc (quoted body) (0x27 ∷ []) rest);
  quiet = omega (arith, newlines-append (quoted body) (0x27 ∷ []), quoted-newlines body f.one_line);
}

-- A comment behind an opener `c`, or `c` and a star.
Found-Consumes :
    (paren : Bool) (line c : ℕ) (s : Bytes) (r : Comment)
    → (c == 0x0a) ≡ false
    → Found paren [] line s r
    → Consumes line (c ∷ s) r.line r.rest
Found-Consumes paren line c s r n f = record {
  taken = c ∷ (f.inside ++ closer paren);
  splits = ap (◌∷◌ c) (f.splits ∙ sym (append_assoc f.inside (closer paren) r.rest));
  counts =
      rw n
        (omega (arith, newlines-append f.inside (closer paren), f.line_is, closer_newlines paren));
  some_taken = omega arith;
}
  where
    closer_newlines : (paren : Bool) → newlines (closer paren) ≡ 0
    closer_newlines true = refl
    closer_newlines false = refl

Consumes-cons :
    (line c line' : ℕ) {s rest : Bytes}
    → (c == 0x0a) ≡ false
    → Consumes line s line' rest
    → Consumes line (c ∷ s) line' rest
Consumes-cons line c line' n f = record {
  taken = c ∷ f.taken;
  splits = ap (◌∷◌ c) f.splits;
  counts = rw n (omega (arith, f.counts));
  some_taken = omega arith;
}

skip_comment-Found :
    (paren : Bool) (line : ℕ) (s : Bytes) (r : Comment) (name : Option Bytes)
    → skip_comment paren line s ≡ ok (r, name)
    → Found paren [] line s r
unfolding skip_comment
skip_comment-Found paren line s r name e =
    let (x, loop, rest) =
      >>=-eq-ok (comment_loop paren [] line s) (λ c. run_comment c.body >>= λ name. ok (c, name))
        e in
    let (found, _, last) = >>=-eq-ok (run_comment x.body) (λ name. ok (x, name)) rest in
    let same : x ≡ r = cc in rw same at ((comment_loop_iff paren line s x).0 loop)

drop_one-Takes : (s : Bytes) → (next_char s == 0x0a) ≡ false → Takes s (drop 1 s)
drop_one-Takes [] h = Takes-refl []
drop_one-Takes (c ∷ cs) h = Takes-cons c h (Takes-refl cs)

-- A second character that punctuation takes is no newline.
punct_of_two : (c d : ℕ) (p : Punct) → punct_of c d ≡ some (p, true) → (d == 0x0a) ≡ false
unfolding punct_of
punct_of_two c d p h = ground arith

module _ {R : Type 0} (line c : ℕ) (cs : Bytes) (step : Step R) where
  newline-StepConsumes :
      (c == 0x0a) ≡ true
      → ◌≡◌ {A = Result (Step R)} (ok (skip (line + 1) cs)) (ok step)
      → StepConsumes line (c ∷ cs) step
  newline-StepConsumes y e =
      let same : skip (line + 1) cs ≡ step = cc in
      rw (← same) (record {
        taken = c ∷ [];
        splits = refl;
        counts = rw y (omega arith);
        some_taken = omega arith;
      })

  space-StepConsumes :
      (c == 0x0a) ≡ false
      → ◌≡◌ {A = Result (Step R)} (ok (skip line cs)) (ok step)
      → StepConsumes line (c ∷ cs) step
  space-StepConsumes n e =
      let same : skip line cs ≡ step = cc in rw (← same) (Takes-Consumes line c n (Takes-refl cs))

  -- The outcome of a comment, given what it takes.
  commented-StepConsumes :
      (m : Result (Comment × Option Bytes))
      → ((r : Comment) (name : Option Bytes)
          → m ≡ ok (r, name)
          → Consumes line (c ∷ cs) r.line r.rest)
      → commented m ≡ ok step
      → StepConsumes line (c ∷ cs) step
  unfolding commented
  commented-StepConsumes (ok (r, none)) takes e =
      let same : skip r.line r.rest ≡ step = cc in rw (← same) (takes r none refl)
  commented-StepConsumes (ok (r, some name)) takes e =
      let same : splice name r.line r.rest ≡ step = cc in rw (← same) (takes r (some name) refl)
  commented-StepConsumes (err _) takes e = absurd (cc)

  pushed-StepConsumes :
      (r : Result (Tok R × Bytes))
      → (c == 0x0a) ≡ false
      → ((t : Tok R) (rest : Bytes) → r ≡ ok (t, rest) → Takes cs rest)
      → pushed r ≡ ok step
      → StepConsumes line (c ∷ cs) step
  unfolding pushed
  pushed-StepConsumes (ok (t, rest)) n takes e =
      let same : push t rest ≡ step = cc in
      rw (← same) (Takes-Consumes line c n (takes t rest refl))
  pushed-StepConsumes (err _) n takes e = absurd (cc)

  lex_ident-StepConsumes :
      (c == 0x0a) ≡ false → lex_ident c cs ≡ ok step → StepConsumes line (c ∷ cs) step
  unfolding lex_ident
  lex_ident-StepConsumes n e =
      let orig = c ∷ take_while in_word cs in
      let same : push (ident (map to_lower orig) orig) (drop_while in_word cs) ≡ step = cc in
      rw (← same) (Takes-Consumes line c n (drop_while-Takes in_word refl cs))

  punct-StepConsumes :
      (p : Punct) (two : Bool)
      → (c == 0x0a) ≡ false
      → (two ≡ true → (next_char cs == 0x0a) ≡ false)
      → ◌≡◌ {A = Result (Step R)} (ok (push (punct p) (if two then drop 1 cs else cs))) (ok step)
      → StepConsumes line (c ∷ cs) step
  punct-StepConsumes p true n second e =
      let same : push (punct p) (drop 1 cs) ≡ step = cc in
      rw (← same) (Takes-Consumes line c n (drop_one-Takes cs (second refl)))
  punct-StepConsumes p false n second e =
      let same : push (punct p) cs ≡ step = cc in
      rw (← same) (Takes-Consumes line c n (Takes-refl cs))

  lex_punct-StepConsumes :
      (o : Option (Punct × Bool))
      → punct_of c (next_char cs) ≡ o
      → (c == 0x0a) ≡ false
      → lex_punct c cs ≡ ok step
      → StepConsumes line (c ∷ cs) step
  lex_punct-StepConsumes none p n e = absurd (unfold lex_punct in cc (rw (p, lex_punct) at e))
  lex_punct-StepConsumes (some (q, two)) p n e =
      punct-StepConsumes q two n (λ t. punct_of_two c (next_char cs) q (rw t at p))
        (unfold lex_punct in rw (p, lex_punct) at e)

-- Both branches of a test on a result.
if-ok :
    {A P : Type 0} (b : Bool) {x y z : A}
    → (b ≡ true → x ≡ z → P)
    → (b ≡ false → y ≡ z → P)
    → (if b then x else y) ≡ z
    → P
if-ok true then_ else_ e = then_ refl e
if-ok false then_ else_ e = else_ refl e

opener_cases :
    {P : Type 0} (c : ℕ) (cs : Bytes)
    → is_open_paren_star c cs ≡ true
    → ((ds : Bytes) → cs ≡ b'*' ∷ ds → P)
    → P
opener_cases c [] h k = absurd (ground arith)
opener_cases c (d ∷ ds) h k = let star : d ≡ b'*' = ground arith in k ds (ap (λ x. x ∷ ds) star)

lex_string-Takes :
    {R : Type 0} (cs : Bytes) (t : Tok R) (rest : Bytes)
    → lex_string cs ≡ ok (t, rest)
    → Takes cs rest
lex_string-Takes cs t rest f =
    let (body, _, spelled) = (lex_string_iff cs t rest).0 f in Spelled-Takes body cs rest spelled

module _ {R : Type 0} (strtod : Bytes → R) (line c : ℕ) (cs : Bytes) (step : Step R) where
  lex_token-StepConsumes :
      (c == 0x0a) ≡ false → lex_token strtod c cs ≡ ok step → StepConsumes line (c ∷ cs) step
  unfolding lex_token
  lex_token-StepConsumes n =
      if-ok (starts_word c) (λ w. lex_ident-StepConsumes line c cs step n)
        (λ w.
          if-ok (is_digit c)
            (λ d.
              pushed-StepConsumes line c cs step (lex_number strtod (c ∷ cs)) n
                (λ t rest. lex_number-Takes t rest strtod c cs d))
            (λ d.
              if-ok (c == 0x27)
                (λ q. pushed-StepConsumes line c cs step (lex_string cs) n (lex_string-Takes cs))
                (λ q. lex_punct-StepConsumes line c cs step (punct_of c (next_char cs)) refl n)))

  -- A step of the lexer from a character on takes that character at least, and what it leaves is
  -- the text behind what it took. The line behind a space, a newline, a comment or an $INCLUDE has
  -- grown by the newlines taken, and a token takes no newline.
  pub lex_step-StepConsumes : lex_step strtod line c cs ≡ ok step → StepConsumes line (c ∷ cs) step
  unfolding lex_step
  lex_step-StepConsumes = if-ok (c == 0x0a) (newline-StepConsumes line c cs step) (λ n.
      if-ok (is_space c) (λ _. space-StepConsumes line c cs step n)
        (λ _.
          if-ok (c == b'{')
            (λ _. commented-StepConsumes line c cs step (skip_comment false line cs) (λ r name e.
              Found-Consumes false line c cs r n (skip_comment-Found false line cs r name e)))
            (λ _.
              if-ok (is_open_paren_star c cs)
                (λ o. opener_cases c cs o (λ ds same.
                  commented-StepConsumes line c cs step (skip_comment true line (drop 1 cs))
                    (λ r name e. rw same (
                      Consumes-cons line c r.line n (
                        Found-Consumes true line b'*' ds r refl
                          (skip_comment-Found true line ds r name (rw same at e)))))))
                (λ _. lex_token-StepConsumes n))))
