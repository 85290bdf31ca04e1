-- ===== src/Runtime/Decode/Trim.antt =====
-- What DECODE's trimming takes from its text.
use native_pascal.Prelude.{
  ℕ, zero, suc, ◌+◌, ◌≤◌, ◌<◌, ◌≡◌, inl, inr, Bool, true, false, [], ◌∷◌, ◌++◌, some, refl, sym, ap,
  ◌∙◌, arith, length, get_elem?, take, drop, take-append-drop, get_elem?-drop, get_elem?-take,
  get_elem?-ge, length-take, Bool-cases, dec_lt,
}
use native_pascal.Prelude.Memory.{Bytes}
use native_pascal.Runtime.Decode.{is_blank, trim_front, blank_at, trimmed_length, decode_trim}

abbrev pub AllBlank : Bytes → Type 0
AllBlank s = (i c : ℕ) → get_elem? s i ≡ some c → is_blank c ≡ true

-- `t` is the text less the blanks at its two ends.
pub record IsTrimmed (text t : Bytes) : Type 0 where
  pub front : Bytes
  pub back : Bytes
  pub splits : text ≡ front ++ (t ++ back)
  pub front_blank : AllBlank front
  pub back_blank : AllBlank back
  pub starts : (c : ℕ) → get_elem? t 0 ≡ some c → is_blank c ≡ false
  pub ends : (i c : ℕ) → length t ≡ i + 1 → get_elem? t i ≡ some c → is_blank c ≡ false

record FrontTrimmed (text t : Bytes) : Type 0 where
  front : Bytes
  splits : text ≡ front ++ t
  front_blank : AllBlank front
  starts : (c : ℕ) → get_elem? t 0 ≡ some c → is_blank c ≡ false

AllBlank-cons : (c : ℕ) (s : Bytes) → is_blank c ≡ true → AllBlank s → AllBlank (c ∷ s)
AllBlank-cons c s h t zero d e = let same : c ≡ d = ground arith in rw (← same) h
AllBlank-cons c s h t (suc i) d e = t i d e

trim_front-FrontTrimmed : (s : Bytes) → FrontTrimmed s (trim_front s)
unfolding trim_front
trim_front-FrontTrimmed [] = record {
  front = [];
  splits = refl;
  front_blank = λ i c e. cc;
  starts = λ c e. cc;
}
trim_front-FrontTrimmed (c ∷ cs) = elim (Bool-cases (is_blank c)) [
  | inl y ↦
      let rest = trim_front-FrontTrimmed cs in
      rw (y, trim_front)
        (record {
          front = c ∷ rest.front;
          splits = ap (◌∷◌ c) rest.splits;
          front_blank = AllBlank-cons c rest.front y rest.front_blank;
          starts = rest.starts;
        })
  | inr n ↦
      rw (n, trim_front)
        (record {
          front = [];
          splits = refl;
          front_blank = λ i d e. cc;
          starts = λ d e. let same : c ≡ d = ground arith in rw (← same) n;
        })
]

record LengthTrimmed (s : Bytes) (n k : ℕ) : Type 0 where
  bound : k ≤ n
  behind : (i : ℕ) → k ≤ i → i < n → blank_at s i ≡ true
  last : (i : ℕ) → k ≡ i + 1 → blank_at s i ≡ false

LengthTrimmed-suc :
    (s : Bytes) (n k : ℕ) → blank_at s n ≡ true → LengthTrimmed s n k → LengthTrimmed s (suc n) k
LengthTrimmed-suc s n k y t = record {
  bound = omega (arith, t.bound);
  behind = λ i a b. elim (dec_lt i n) [
    | yes p ↦ t.behind i a p
    | no p ↦ let e : n ≡ i = omega arith in rw (← e) y
  ];
  last = t.last;
}

LengthTrimmed-whole : (s : Bytes) (n : ℕ) → blank_at s n ≡ false → LengthTrimmed s (suc n) (suc n)
LengthTrimmed-whole s n h = record {
  bound = omega arith;
  behind = λ i a b. absurd (omega arith);
  last = λ i e. let same : n ≡ i = omega arith in rw (← same) h;
}

trimmed_length-LengthTrimmed : (s : Bytes) (n : ℕ) → LengthTrimmed s n (trimmed_length s n)
unfolding trimmed_length
trimmed_length-LengthTrimmed s zero = record {
  bound = omega arith;
  behind = λ i a b. absurd (omega arith);
  last = λ i e. absurd (omega arith);
}
trimmed_length-LengthTrimmed s (suc n) = elim (Bool-cases (blank_at s n)) [
  | inl y ↦
      rw (y, trimmed_length)
        (LengthTrimmed-suc s n (trimmed_length s n) y (trimmed_length-LengthTrimmed s n))
  | inr no_blank ↦ rw (no_blank, trimmed_length) (LengthTrimmed-whole s n no_blank)
]

is_blank_of :
    (s : Bytes) (i : ℕ) {c : ℕ} {b : Bool}
    → blank_at s i ≡ b
    → get_elem? s i ≡ some c
    → is_blank c ≡ b
unfolding blank_at
is_blank_of s i h e = rw (e, blank_at) at h

module _ (s : Bytes) (k : ℕ) (t : LengthTrimmed s (length s) k) where
  drop-AllBlank : AllBlank (drop k s)
  drop-AllBlank i c e =
      let at : get_elem? s (k + i) ≡ some c = sym (get_elem?-drop k s i) ∙ e in
      elim (dec_lt (k + i) (length s)) [
        | yes p ↦ is_blank_of s (k + i) (t.behind (k + i) (omega arith) p) at
        | no p ↦ let past = get_elem?-ge s (k + i) (omega arith) in cc
      ]

  take-ends :
      (i c : ℕ) → length (take k s) ≡ i + 1 → get_elem? (take k s) i ≡ some c → is_blank c ≡ false
  take-ends i c l e =
      let whole : k ≡ i + 1 = omega (arith, length-take k s, t.bound) in
      is_blank_of s i (t.last i whole) (sym (get_elem?-take k s i (omega arith)) ∙ e)

take-starts :
    (s : Bytes) (k c : ℕ)
    → ((c : ℕ) → get_elem? s 0 ≡ some c → is_blank c ≡ false)
    → get_elem? (take k s) 0 ≡ some c
    → is_blank c ≡ false
take-starts s zero c h e = cc
take-starts s (suc k) c h e = h c (sym (get_elem?-take (suc k) s 0 (omega arith)) ∙ e)

-- The text that a DECODE reads is its argument less all leading and trailing blanks and tabs, and
-- no others.
pub decode_trim-IsTrimmed : (text : Bytes) → IsTrimmed text (decode_trim text)
unfolding decode_trim
decode_trim-IsTrimmed text = record {
  front = head.front;
  back = drop k s;
  splits = head.splits ∙ ap (λ t. head.front ++ t) (sym (take-append-drop k s));
  front_blank = head.front_blank;
  back_blank = drop-AllBlank s k tail;
  starts = λ c e. take-starts s k c head.starts e;
  ends = take-ends s k tail;
}
  where
    s : Bytes
    s = trim_front text

    head : FrontTrimmed text s
    head = trim_front-FrontTrimmed text

    k : ℕ
    k = trimmed_length s (length s)

    tail : LengthTrimmed s (length s) k
    tail = trimmed_length-LengthTrimmed s (length s)
