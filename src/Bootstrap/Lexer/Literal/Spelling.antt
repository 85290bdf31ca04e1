-- ===== src/Bootstrap/Lexer/Literal/Spelling.antt =====
-- String literals against the way that they are spelled.
use native_pascal.Prelude.{
  ℕ, ◌≡◌, ◌↔◌, refl, sym, ap, ◌∙◌, Bool, true, false, not, [], ◌∷◌, ◌++◌, arith, ◌==◌,
  if◌then◌else◌, Bool-cases, inl, inr,
}
use mathlib.Core.List.{append_assoc, append-nil}
use native_pascal.Prelude.Memory.{Bytes}
use native_pascal.Bootstrap.Chars.{All, Stops}
use native_pascal.Bootstrap.Token.{Tok, str, char, ok, err, unterminated_string, >>=-eq-ok}
use native_pascal.Bootstrap.Lexer.Literal.{string_loop, literal, lex_string}

abbrev pub is_quote : ℕ → Bool
is_quote c = c == 0x27

abbrev pub not_newline : ℕ → Bool
not_newline c = not (c == 0x0a)

-- The bytes of a literal as they are written: a quote is doubled.
abbrev pub quoted : Bytes → Bytes
quoted [] = []
quoted (c ∷ cs) = if is_quote c then 0x27 ∷ 0x27 ∷ quoted cs else c ∷ quoted cs

-- `s` is the spelling of `body`, a closing quote and `rest`, which does not go on with a quote.
pub record Spelled (body s rest : Bytes) : Type 0 where
  pub splits : s ≡ quoted body ++ 0x27 ∷ rest
  pub one_line : All not_newline body
  pub stops : Stops is_quote rest

-- The token of a literal's bytes.
pub data Holds {R : Type 0} : Bytes → Tok R → Type 0 where
  empty : Holds [] (str [])
  one : (c : ℕ) → Holds (c ∷ []) (char c)
  more : (c d : ℕ) (cs : Bytes) → Holds (c ∷ d ∷ cs) (str (c ∷ d ∷ cs))

literal-Holds : {R : Type 0} (body : Bytes) → Holds {R = R} body (literal body)
unfolding literal
literal-Holds [] = empty
literal-Holds (c ∷ []) = one c
literal-Holds (c ∷ d ∷ cs) = more c d cs

Holds-literal : {R : Type 0} {body : Bytes} {t : Tok R} → Holds body t → t ≡ literal body
unfolding literal
Holds-literal empty = refl
Holds-literal (one c) = refl
Holds-literal (more c d cs) = refl

Reads : Bytes → Bytes → Bytes × Bytes → Type 0
Reads acc s r = (body : Bytes) × (r.0 ≡ acc ++ body) × Spelled body s r.1

Reads-cons :
    (acc : Bytes) (c : ℕ) (s : Bytes) (r : Bytes × Bytes)
    → not_newline c ≡ true
    → is_quote c ≡ false
    → Reads (acc ++ c ∷ []) s r
    → Reads acc (c ∷ s) r
unfolding Reads
Reads-cons acc c s r n q (body, e, f) = (
  c ∷ body,
  e ∙ append_assoc acc (c ∷ []) body,
  record { splits = rw q (ap (◌∷◌ c) f.splits); one_line = (n, f.one_line); stops = f.stops },
)

Reads-quote :
    (acc : Bytes) (s : Bytes) (r : Bytes × Bytes)
    → Reads (acc ++ 0x27 ∷ []) s r
    → Reads acc (0x27 ∷ 0x27 ∷ s) r
unfolding Reads
Reads-quote acc s r (body, e, f) = (
  0x27 ∷ body,
  e ∙ append_assoc acc (0x27 ∷ []) body,
  record {
    splits = ap (λ t. 0x27 ∷ 0x27 ∷ t) f.splits;
    one_line = (refl, f.one_line);
    stops = f.stops;
  },
)

Reads-end : (acc rest : Bytes) → Stops is_quote rest → Reads acc (0x27 ∷ rest) (acc, rest)
unfolding Reads
Reads-end acc rest h =
    ([], sym (append-nil acc), record { splits = refl; one_line = tt; stops = h })

-- One step, by the first character and whether another quote follows.
module _ (acc : Bytes) where
  loop_plain :
      (c : ℕ) (s : Bytes)
      → not_newline c ≡ true
      → is_quote c ≡ false
      → string_loop acc (c ∷ s) ≡ string_loop (acc ++ c ∷ []) s
  unfolding string_loop
  loop_plain c [] n q = ground arith
  loop_plain c (d ∷ s) n q = ground arith

  loop_newline :
      (c : ℕ) (s : Bytes)
      → not_newline c ≡ false
      → string_loop acc (c ∷ s) ≡ err unterminated_string
  unfolding string_loop
  loop_newline c [] n = ground arith
  loop_newline c (d ∷ s) n = ground arith

  loop_doubled : (s : Bytes) → string_loop acc (0x27 ∷ 0x27 ∷ s) ≡ string_loop (acc ++ 0x27 ∷ []) s
  unfolding string_loop
  loop_doubled s = refl

  loop_end : (rest : Bytes) → Stops is_quote rest → string_loop acc (0x27 ∷ rest) ≡ ok (acc, rest)
  unfolding string_loop
  loop_end [] h = refl
  loop_end (d ∷ rest) h = ground arith

quote_of : (c : ℕ) → is_quote c ≡ true → c ≡ 0x27
quote_of c q = ground arith

Reads-at_end :
    (acc : Bytes) (c : ℕ) (rest : Bytes) (r : Bytes × Bytes)
    → is_quote c ≡ true
    → Stops is_quote rest
    → string_loop acc (c ∷ rest) ≡ ok r
    → Reads acc (c ∷ rest) r
Reads-at_end acc c rest r q st h =
    let returned = loop_end acc rest st in
    let found = rw (quote_of c q) at h in
    let same : ◌≡◌ {A = Bytes × Bytes} (acc, rest) r = cc in
    rw (quote_of c q, ← same) (Reads-end acc rest st)

Reads-at_pair :
    (acc : Bytes) (c d : ℕ) (s : Bytes) (r : Bytes × Bytes)
    → is_quote c ≡ true
    → is_quote d ≡ true
    → (string_loop (acc ++ 0x27 ∷ []) s ≡ ok r → Reads (acc ++ 0x27 ∷ []) s r)
    → string_loop acc (c ∷ d ∷ s) ≡ ok r
    → Reads acc (c ∷ d ∷ s) r
Reads-at_pair acc c d s r q q' later h =
    let found = rw (quote_of c q, quote_of d q') at h in
    rw (quote_of c q, quote_of d q')
      (Reads-quote acc s r (later (sym (loop_doubled acc s) ∙ found)))

Reads-failed :
    (acc : Bytes) (c : ℕ) (s : Bytes) (r : Bytes × Bytes)
    → not_newline c ≡ false
    → string_loop acc (c ∷ s) ≡ ok r
    → Reads acc (c ∷ s) r
Reads-failed acc c s r n h = let failed = loop_newline acc c s n in absurd (cc)

string_loop-Reads : (s acc : Bytes) (r : Bytes × Bytes) → string_loop acc s ≡ ok r → Reads acc s r
string_loop-Reads [] acc r h = unfold string_loop in absurd (cc h)
string_loop-Reads (c ∷ []) acc r h = elim (Bool-cases (not_newline c)) [
  | inr n ↦ Reads-failed acc c [] r n h
  | inl n ↦ elim (Bool-cases (is_quote c)) [
    | inr q ↦
        Reads-cons acc c [] r n q
          (string_loop-Reads [] (acc ++ c ∷ []) r (sym (loop_plain acc c [] n q) ∙ h))
    | inl q ↦ Reads-at_end acc c [] r q tt h
  ]
]
string_loop-Reads (c ∷ d ∷ s) acc r h = elim (Bool-cases (not_newline c)) [
  | inr n ↦ Reads-failed acc c (d ∷ s) r n h
  | inl n ↦ elim (Bool-cases (is_quote c)) [
    | inr q ↦
        Reads-cons acc c (d ∷ s) r n q
          (string_loop-Reads (d ∷ s) (acc ++ c ∷ []) r (sym (loop_plain acc c (d ∷ s) n q) ∙ h))
    | inl q ↦ elim (Bool-cases (is_quote d)) [
      | inr p ↦ Reads-at_end acc c (d ∷ s) r q p h
      | inl p ↦ Reads-at_pair acc c d s r q p (string_loop-Reads s (acc ++ 0x27 ∷ []) r) h
    ]
  ]
]

-- The other way round.
loop_reads :
    (body acc rest : Bytes)
    → All not_newline body
    → Stops is_quote rest
    → string_loop acc (quoted body ++ 0x27 ∷ rest) ≡ ok (acc ++ body, rest)
loop_reads [] acc rest a h = rw append-nil (loop_end acc rest h)
loop_reads (c ∷ cs) acc rest (n, a) h = elim (Bool-cases (is_quote c)) [
  | inl q ↦
      rw (q, quote_of c q)
        (loop_doubled acc (quoted cs ++ 0x27 ∷ rest)
          ∙ loop_reads cs (acc ++ 0x27 ∷ []) rest a h
          ∙ rw append_assoc)
  | inr q ↦ rw q (
      loop_plain acc c (quoted cs ++ 0x27 ∷ rest) n q
      ∙ loop_reads cs (acc ++ c ∷ []) rest a h
      ∙ rw append_assoc)
]

module _ {R : Type 0} (s : Bytes) (t : Tok R) (rest : Bytes) where
  lex_string-Spelled :
      lex_string s ≡ ok (t, rest) → (body : Bytes) × Holds body t × Spelled body s rest
  unfolding lex_string Reads
  lex_string-Spelled h =
      let (r, e, k) = >>=-eq-ok (string_loop [] s) (λ r. ok (literal r.0, r.1)) h in
      let (body, b, f) = string_loop-Reads s [] r e in
      let tok : t ≡ literal r.0 = cc in
      let left : r.1 ≡ rest = cc in
      (body, rw (tok ∙ ap literal b) (literal-Holds body), rw left at f)

  lex_string_reads :
      (body : Bytes) → Holds body t → Spelled body s rest → lex_string s ≡ ok (t, rest)
  unfolding lex_string
  lex_string_reads body e f =
      rw (f.splits, loop_reads body [] rest f.one_line f.stops, Holds-literal e)

  -- A text behind an opening quote is read as a literal exactly when it is the literal's bytes with
  -- each quote doubled, none of them a newline, then a closing quote and no further one. The token
  -- holds these bytes: a character if there is one, else a string.
  pub lex_string_iff :
      (lex_string s ≡ ok (t, rest)) ↔ ((body : Bytes) × Holds body t × Spelled body s rest)
  lex_string_iff = (lex_string-Spelled, λ r. lex_string_reads r.0 r.1 r.2)
