-- ===== src/Bootstrap/Lexer/Lines.antt =====
-- What the lexer of bootstrap/lex.c takes from its text for a step, and the lines that it counts.
use native_pascal.Prelude.{
  ℕ, ◌+◌, ◌≤◌, ◌≡◌, refl, Bool, true, false, [], ◌∷◌, ◌++◌, arith, ◌==◌, if◌then◌else◌, length,
  Bool-cases, inl, inr, sym, ap, ◌∙◌,
}
use mathlib.Core.List.{append_assoc}
use native_pascal.Prelude.Memory.{Bytes}
use native_pascal.Bootstrap.Chars.{All, drop_while}

abbrev pub newlines : Bytes → ℕ
newlines [] = 0
newlines (c ∷ cs) = (if c == 0x0a then 1 else 0) + newlines cs

pub newlines-append : (s t : Bytes) → newlines (s ++ t) ≡ newlines s + newlines t
newlines-append [] t = omega arith
newlines-append (c ∷ cs) t = omega (arith, newlines-append cs t)

pub newlines_zero :
    (test : ℕ → Bool) → test 0x0a ≡ false → (s : Bytes) → All test s → newlines s ≡ 0
newlines_zero test h [] a = refl
newlines_zero test h (c ∷ cs) (y, a) = elim (Bool-cases (c == 0x0a)) [
  | inl e ↦ let same : c ≡ 10 = ground arith in absurd (cc (rw same at y))
  | inr n ↦ rw n (omega (arith, newlines_zero test h cs a))
]

-- A step takes some bytes, at least one, from the front of a text, and counts their newlines.
pub record Consumes (line : ℕ) (s : Bytes) (line' : ℕ) (rest : Bytes) : Type 0 where
  pub taken : Bytes
  pub splits : s ≡ taken ++ rest
  pub counts : line' ≡ line + newlines taken
  pub some_taken : 1 ≤ length taken

-- Some bytes, none of them a newline, stand before `rest` in `s`.
pub record Takes (s rest : Bytes) : Type 0 where
  pub taken : Bytes
  pub splits : s ≡ taken ++ rest
  pub quiet : newlines taken ≡ 0

pub Takes-refl : (s : Bytes) → Takes s s
Takes-refl s = record { taken = []; splits = refl; quiet = refl }

pub Takes-trans : {s t u : Bytes} → Takes s t → Takes t u → Takes s u
Takes-trans {u} a b = record {
  taken = a.taken ++ b.taken;
  splits = a.splits ∙ ap (λ x. a.taken ++ x) b.splits ∙ sym (append_assoc a.taken b.taken u);
  quiet = omega (arith, newlines-append a.taken b.taken, a.quiet, b.quiet);
}

pub Takes-cons : (c : ℕ) {s rest : Bytes} → (c == 0x0a) ≡ false → Takes s rest → Takes (c ∷ s) rest
Takes-cons c n a = record {
  taken = c ∷ a.taken;
  splits = ap (◌∷◌ c) a.splits;
  quiet = rw n (omega (arith, a.quiet));
}

-- A step that takes a first byte and more, no newline among them, is on one line.
pub Takes-Consumes :
    (line c : ℕ) {s rest : Bytes}
    → (c == 0x0a) ≡ false
    → Takes s rest
    → Consumes line (c ∷ s) line rest
Takes-Consumes line c n a = record {
  taken = c ∷ a.taken;
  splits = ap (◌∷◌ c) a.splits;
  counts = rw n (omega (arith, a.quiet));
  some_taken = omega arith;
}

pub drop_while-Takes :
    (test : ℕ → Bool) → test 0x0a ≡ false → (s : Bytes) → Takes s (drop_while test s)
drop_while-Takes test h [] = Takes-refl []
drop_while-Takes test h (c ∷ cs) = elim (Bool-cases (test c)) [
  | inl y ↦ rw y (Takes-cons c (not_newline y) (drop_while-Takes test h cs))
  | inr n ↦ rw n (Takes-refl (c ∷ cs))
]
  where
    not_newline : test c ≡ true → (c == 0x0a) ≡ false
    not_newline y = elim (Bool-cases (c == 0x0a)) [
      | inr n ↦ n
      | inl e ↦ let same : c ≡ 10 = ground arith in absurd (cc (rw same at y))
    ]
