-- ===== src/Bootstrap/Chars.antt =====
-- The tests of <ctype.h> that bootstrap/ uses, in the C locale, and prefixes of texts.
use native_pascal.Prelude.{
  ℕ, ◌+◌, ◌-◌, ◌≡◌, refl, ap, ap₂, Bool, true, false, ◌&&◌, ◌||◌, [], ◌∷◌, ◌++◌, leb, ◌==◌,
  if◌then◌else◌, arith, Bool-cases, inl, inr,
}
use native_pascal.Prelude.Memory.{Bytes}

abbrev pub is_digit : ℕ → Bool
is_digit c = leb b'0' c && leb c b'9'

abbrev pub is_upper : ℕ → Bool
is_upper c = leb b'A' c && leb c b'Z'

abbrev pub is_lower : ℕ → Bool
is_lower c = leb b'a' c && leb c b'z'

abbrev pub is_alpha : ℕ → Bool
is_alpha c = is_upper c || is_lower c

abbrev pub is_space : ℕ → Bool
is_space c = c == 32 || leb 9 c && leb c 13

-- `isalpha(c) || c == '_'`
abbrev pub starts_word : ℕ → Bool
starts_word c = is_alpha c || c == b'_'

-- `isalnum(c) || c == '_'`
abbrev pub in_word : ℕ → Bool
in_word c = is_alpha c || is_digit c || c == b'_'

abbrev pub to_lower : ℕ → ℕ
to_lower c = if is_upper c then c + 32 else c

abbrev pub to_upper : ℕ → ℕ
to_upper c = if is_lower c then c - 32 else c

-- `while (p < len && test(s[p])) p++;`: what is passed, and what is left.
abbrev pub take_while : (ℕ → Bool) → Bytes → Bytes
take_while test [] = []
take_while test (c ∷ cs) = if test c then c ∷ take_while test cs else []

abbrev pub drop_while : (ℕ → Bool) → Bytes → Bytes
drop_while test [] = []
drop_while test (c ∷ cs) = if test c then drop_while test cs else c ∷ cs

abbrev pub All : (ℕ → Bool) → Bytes → Type 0
All test [] = Unit
All test (c ∷ cs) = (test c ≡ true) × All test cs

-- No character of the test stands first.
abbrev pub Stops : (ℕ → Bool) → Bytes → Type 0
Stops test [] = Unit
Stops test (c ∷ cs) = test c ≡ false

abbrev pub starts_with : (ℕ → Bool) → Bytes → Bool
starts_with test [] = false
starts_with test (c ∷ cs) = test c

pub take_while-append-drop_while :
    (test : ℕ → Bool) (s : Bytes) → take_while test s ++ drop_while test s ≡ s
take_while-append-drop_while test [] = refl
take_while-append-drop_while test (c ∷ cs) = elim (Bool-cases (test c)) [
  | inl y ↦ rw y (ap (◌∷◌ c) (take_while-append-drop_while test cs))
  | inr n ↦ rw n
]

pub take_while-All : (test : ℕ → Bool) (s : Bytes) → All test (take_while test s)
take_while-All test [] = tt
take_while-All test (c ∷ cs) = elim (Bool-cases (test c)) [
  | inl y ↦ rw y (y, take_while-All test cs)
  | inr n ↦ rw n tt
]

pub drop_while-Stops : (test : ℕ → Bool) (s : Bytes) → Stops test (drop_while test s)
drop_while-Stops test [] = tt
drop_while-Stops test (c ∷ cs) = elim (Bool-cases (test c)) [
  | inl y ↦ rw y (drop_while-Stops test cs)
  | inr n ↦ rw n n
]

-- `strcmp(s, t) == 0`, on texts without a 0.
abbrev pub same_text : Bytes → Bytes → Bool
same_text [] [] = true
same_text (a ∷ s) (b ∷ t) = a == b && same_text s t
same_text _ _ = false

pub same_text_refl : (s : Bytes) → same_text s s ≡ true
same_text_refl [] = refl
same_text_refl (a ∷ s) = grind (arith, same_text_refl s)

pub same_text-eq : (s t : Bytes) → same_text s t ≡ true → s ≡ t
same_text-eq [] [] h = refl
same_text-eq [] (b ∷ t) h = absurd (cc)
same_text-eq (a ∷ s) [] h = absurd (cc)
same_text-eq (a ∷ s) (b ∷ t) h = elim (Bool-cases (a == b)) [
  | inl y ↦ let e : a ≡ b = ground arith in ap₂ ◌∷◌ e (same_text-eq s t (rw y at h))
  | inr n ↦ absurd (cc (rw n at h))
]
