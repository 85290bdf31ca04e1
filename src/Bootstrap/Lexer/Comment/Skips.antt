-- ===== src/Bootstrap/Lexer/Comment/Skips.antt =====
-- `skip_comment` passes over a comment, up to its first closer.
use native_pascal.Prelude.{
  ℕ, ◌+◌, ◌≡◌, ◌↔◌, refl, sym, ap, ◌∙◌, Bool, true, false, ◌&&◌, [], ◌∷◌, ◌++◌, arith, ◌==◌,
  if◌then◌else◌, Bool-cases, inl, inr,
}
use mathlib.Core.List.{append_assoc, append-nil}
use native_pascal.Prelude.Memory.{Bytes}
use native_pascal.Bootstrap.Chars.{starts_with}
use native_pascal.Bootstrap.Token.{ok}
use native_pascal.Bootstrap.Lexer.Comment.{Comment, comment_loop}
use native_pascal.Bootstrap.Lexer.Lines.{newlines}

-- The closer of each form.
abbrev pub closer : Bool → Bytes
closer true = b'*' ∷ b')' ∷ []
closer false = b'}' ∷ []

-- Whether the closer stands first.
abbrev pub closes : Bool → Bytes → Bool
closes paren [] = false
closes true (c ∷ cs) = c == b'*' && starts_with (λ d. d == b')') cs
closes false (c ∷ cs) = c == b'}'

-- No closer stands within the first bytes `s` of `s ++ t`.
abbrev pub Open : Bool → Bytes → Bytes → Type 0
Open paren [] t = Unit
Open paren (c ∷ cs) t = (closes paren (c ∷ (cs ++ t)) ≡ false) × Open paren cs t

-- `c` is what the loop finds in `s` behind the part `before` of the body, from a line on.
pub record Found (paren : Bool) (before : Bytes) (line : ℕ) (s : Bytes) (c : Comment) : Type 0 where
  pub inside : Bytes
  pub body_is : c.body ≡ before ++ inside
  pub splits : s ≡ inside ++ (closer paren ++ c.rest)
  pub line_is : c.line ≡ line + newlines inside
  pub opens : Open paren inside (closer paren ++ c.rest)

module _ (paren : Bool) (before : Bytes) (line : ℕ) (c : ℕ) (cs : Bytes) where
  loop_more :
      closes paren (c ∷ cs) ≡ false
      → comment_loop paren before line (c ∷ cs)
        ≡ comment_loop paren (before ++ c ∷ []) (if c == 0x0a then line + 1 else line) cs
  unfolding comment_loop
  loop_more h = ground arith

  Found-cons :
      (r : Comment)
      → closes paren (c ∷ cs) ≡ false
      → Found paren (before ++ c ∷ []) (if c == 0x0a then line + 1 else line) cs r
      → Found paren before line (c ∷ cs) r
  Found-cons r h f = record {
    inside = c ∷ f.inside;
    body_is = f.body_is ∙ append_assoc before (c ∷ []) f.inside;
    splits = ap (◌∷◌ c) f.splits;
    line_is = ground (arith, f.line_is);
    opens = (rw f.splits at h, f.opens);
  }

loop_closed_brace :
    (before : Bytes) (line : ℕ) (c : ℕ) (cs : Bytes)
    → closes false (c ∷ cs) ≡ true
    → comment_loop false before line (c ∷ cs)
      ≡ ok (record { body = before; line = line; rest = cs })
unfolding comment_loop
loop_closed_brace before line c cs h = ground arith

loop_closed_paren :
    (before : Bytes) (line : ℕ) (c d : ℕ) (cs : Bytes)
    → closes true (c ∷ d ∷ cs) ≡ true
    → comment_loop true before line (c ∷ d ∷ cs)
      ≡ ok (record { body = before; line = line; rest = cs })
unfolding comment_loop
loop_closed_paren before line c d cs h = ground arith

Found-here :
    (paren : Bool) (before : Bytes) (line : ℕ) (rest : Bytes)
    → Found paren before line
        (closer paren ++ rest)
        (record { body = before; line = line; rest = rest })
Found-here paren before line rest = record {
  inside = [];
  body_is = sym (append-nil before);
  splits = refl;
  line_is = omega arith;
  opens = tt;
}

-- Behind a first character that closes the comment.
closes-splits :
    (paren : Bool) (c : ℕ) (cs : Bytes)
    → closes paren (c ∷ cs) ≡ true
    → (rest : Bytes) × (c ∷ cs ≡ closer paren ++ rest)
closes-splits false c cs h = (cs, ground arith)
closes-splits true c [] h = absurd (ground arith)
closes-splits true c (d ∷ cs) h = (cs, ground arith)

loop_closed :
    (paren : Bool) (before : Bytes) (line : ℕ) (rest : Bytes)
    → comment_loop paren before line (closer paren ++ rest)
      ≡ ok (record { body = before; line = line; rest = rest })
loop_closed false before line rest = loop_closed_brace before line b'}' rest refl
loop_closed true before line rest = loop_closed_paren before line b'*' b')' rest refl

Found-of_closed :
    (paren : Bool) (before : Bytes) (line : ℕ) (s : Bytes) (r : Comment) (rest : Bytes)
    → s ≡ closer paren ++ rest
    → comment_loop paren before line s ≡ ok r
    → Found paren before line s r
Found-of_closed paren before line s r rest e h =
    let returned = loop_closed paren before line rest in
    let found = rw e at h in
    let same : ◌≡◌ {A = Comment} (record { body = before; line = line; rest = rest }) r = cc in
    rw (e, ← same) (Found-here paren before line rest)

-- What the loop returns stands in the text up to its first closer.
comment_loop-Found :
    (paren : Bool) (s before : Bytes) (line : ℕ) (r : Comment)
    → comment_loop paren before line s ≡ ok r
    → Found paren before line s r
comment_loop-Found paren [] before line r h = unfold comment_loop in absurd (cc h)
comment_loop-Found paren (c ∷ cs) before line r h = elim (Bool-cases (closes paren (c ∷ cs))) [
  | inl y ↦
      let (rest, e) = closes-splits paren c cs y in
      Found-of_closed paren before line (c ∷ cs) r rest e h
  | inr n ↦
      Found-cons paren before line c cs r n
        (comment_loop-Found paren cs _ _ r (rw (loop_more paren before line c cs n) at h))
]

-- The other way round: whatever holds no closer is passed over.
loop_passes :
    (paren : Bool) (inside before : Bytes) (line : ℕ) (rest : Bytes)
    → Open paren inside (closer paren ++ rest)
    → comment_loop paren before line (inside ++ (closer paren ++ rest))
      ≡ ok (record { body = before ++ inside; line = line + newlines inside; rest = rest })
loop_passes paren [] before line rest o =
    ground (arith, append-nil before, loop_closed paren before line rest)
loop_passes paren (c ∷ cs) before line rest (n, o) =
    loop_more paren before line c (cs ++ (closer paren ++ rest)) n
    ∙ loop_passes paren cs (before ++ c ∷ []) _ rest o
    ∙ ground (arith, append_assoc before (c ∷ []) cs)

-- A comment's text is read as `c` exactly when it is the body, the form's closer and the rest that
-- `c` names, with no closer within the body, and the line is that of the opener and the newlines
-- of the body.
pub comment_loop_iff :
    (paren : Bool) (line : ℕ) (s : Bytes) (c : Comment)
    → (comment_loop paren [] line s ≡ ok c) ↔ Found paren [] line s c
comment_loop_iff paren line s c = (
  comment_loop-Found paren s [] line c,
  λ f.
      let passes = loop_passes paren f.inside [] line c.rest f.opens in
      let same : ◌≡◌ {A = Comment}
          (record { body = f.inside; line = line + newlines f.inside; rest = c.rest }) c =
        λ i. record { body = sym f.body_is i; line = sym f.line_is i; rest = c.rest } in
      rw f.splits (passes ∙ ap ok same),
)
