-- ===== src/Runtime/Decode/Printed.antt =====
-- DECODE's trimming of numerals with blanks in front of them.
use native_pascal.Prelude.{
  ℕ, zero, suc, ◌+◌, ◌-◌, ◌*◌, ◌≤◌, ◌≡◌, inl, inr, Bool, true, false, [], ◌∷◌, ◌++◌, Option, none,
  some, refl, ap, ◌∙◌, arith, ◌==◌, length, get_elem?, take, replicate, Bool-cases,
}
use native_pascal.Prelude.Int.{ℤ}
use native_pascal.Prelude.Memory.{Bytes, get_elem?-lt}
use native_pascal.Runtime.Decode.{
  is_blank, is_digit, trim_front, blank_at, trimmed_length, decode_trim,
}
use native_pascal.Runtime.Decode.Digits.{exact_digits}
use native_pascal.Runtime.Decode.Integer.{exact_magnitude, exact_value, map_value}

-- A text that a format `%*d` may give for a value: blanks, then an optional sign and digits.
pub record Prints (text : Bytes) (v : ℤ) : Type 0 where
  pub blanks : ℕ
  pub body : Bytes
  pub splits : text ≡ replicate blanks b' ' ++ body
  pub denotes : exact_value body ≡ some v

abbrev NoBlank : Bytes → Type 0
NoBlank s = (i c : ℕ) → get_elem? s i ≡ some c → is_blank c ≡ false

NoBlank-cons : (c : ℕ) (s : Bytes) → is_blank c ≡ false → NoBlank s → NoBlank (c ∷ s)
NoBlank-cons c s h t zero d e = let same : c ≡ d = ground arith in rw (← same) h
NoBlank-cons c s h t (suc i) d e = t i d e

exact_digits-NoBlank : (cs : Bytes) (v : ℕ) {m : ℕ} → exact_digits v cs ≡ some m → NoBlank cs
exact_digits-NoBlank [] v h = λ i c e. cc
exact_digits-NoBlank (c ∷ cs) v h = elim (Bool-cases (is_digit c)) [
  | inl y ↦
      NoBlank-cons c cs (ground arith) (exact_digits-NoBlank cs (v * 10 + (c - b'0')) (rw y at h))
  | inr n ↦ absurd (cc (rw n at h))
]

map_value-some :
    (negative : Bool) (o : Option ℕ) {v : ℤ}
    → map_value negative o ≡ some v
    → (m : ℕ) × (o ≡ some m)
map_value-some negative none h = absurd (cc)
map_value-some negative (some m) h = (m, refl)

exact_magnitude-NoBlank : (cs : Bytes) {m : ℕ} → exact_magnitude cs ≡ some m → NoBlank cs
exact_magnitude-NoBlank [] h = absurd (cc)
exact_magnitude-NoBlank (c ∷ cs) h = exact_digits-NoBlank (c ∷ cs) 0 h

-- A numeral has no blank in it.
exact_value-NoBlank : (body : Bytes) {v : ℤ} → exact_value body ≡ some v → NoBlank body
exact_value-NoBlank [] h = absurd (cc)
exact_value-NoBlank (c ∷ cs) h = elim (Bool-cases (c == b'+')) [
  | inl y ↦
      let (m, e) = map_value-some false (exact_magnitude cs) (rw y at h) in
      NoBlank-cons c cs (ground arith) (exact_magnitude-NoBlank cs e)
  | inr n ↦ elim (Bool-cases (c == b'-')) [
    | inl y ↦
        let (m, e) = map_value-some true (exact_magnitude cs) (rw (n, y) at h) in
        NoBlank-cons c cs (ground arith) (exact_magnitude-NoBlank cs e)
    | inr k ↦
        let (m, e) = map_value-some false (exact_digits 0 (c ∷ cs)) (rw (n, k) at h) in
        exact_digits-NoBlank (c ∷ cs) 0 e
  ]
]

trim_front-NoBlank :
    (k : ℕ) (c : ℕ) (s : Bytes)
    → is_blank c ≡ false
    → trim_front (replicate k b' ' ++ c ∷ s) ≡ c ∷ s
unfolding trim_front
trim_front-NoBlank zero c s h = rw (h, trim_front) refl
trim_front-NoBlank (suc k) c s h = trim_front-NoBlank k c s h

trimmed_length-NoBlank : (s : Bytes) (n : ℕ) → n ≤ length s → NoBlank s → trimmed_length s n ≡ n
unfolding trimmed_length blank_at
trimmed_length-NoBlank s zero h b = refl
trimmed_length-NoBlank s (suc n) h b =
    let (c, e) = get_elem?-lt s n (omega arith) in rw (trimmed_length, blank_at, e, b n c e) refl

take-length : (s : Bytes) → take (length s) s ≡ s
take-length [] = refl
take-length (c ∷ cs) = rw (take-length cs)

decode_trim_padded :
    (k c : ℕ) (s : Bytes) → NoBlank (c ∷ s) → decode_trim (replicate k b' ' ++ c ∷ s) ≡ c ∷ s
unfolding decode_trim
decode_trim_padded k c s b = rw (
  trim_front-NoBlank k c s (b 0 c refl),
  trimmed_length-NoBlank (c ∷ s) (suc (length s)) (omega arith) b,
  take-length s,
)

padded_value :
    (k : ℕ) (body : Bytes) {v : ℤ}
    → exact_value body ≡ some v
    → decode_trim (replicate k b' ' ++ body) ≡ body
padded_value k [] h = absurd (cc)
padded_value k (c ∷ s) h = decode_trim_padded k c s (exact_value-NoBlank (c ∷ s) h)

pub decode_trim-Prints : {text : Bytes} {v : ℤ} (p : Prints text v) → decode_trim text ≡ p.body
decode_trim-Prints p = ap decode_trim p.splits ∙ padded_value p.blanks p.body p.denotes
