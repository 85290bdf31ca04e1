-- ===== src/Runtime/Decode/Digits.antt =====
-- The digit loop of DECODE, against arithmetic without a bound.
use native_pascal.Prelude.{
  ℕ, ◌+◌, ◌-◌, ◌*◌, ◌/◌, ◌≤◌, ◌<◌, ◌≡◌, inl, inr, true, false, [], ◌∷◌, Option, none, some, refl,
  arith, ltb, leb, if◌then◌else◌, Bool-cases, sym, ◌∙◌, dec_lt,
}
use native_pascal.Prelude.Memory.{Bytes}
use native_pascal.Runtime.Decode.{is_digit, uint64_max, decode_digits}

-- The number that decimal digits behind the number `v` denote; `none` if a byte is no digit.
abbrev pub exact_digits : ℕ → Bytes → Option ℕ
exact_digits v [] = some v
exact_digits v (c ∷ cs) =
    let rest = exact_digits (v * 10 + (c - b'0')) cs in if is_digit c then rest else none

-- A number, unless it is above the bound.
abbrev pub up_to : ℕ → Option ℕ → Option ℕ
up_to bound none = none
up_to bound (some m) = if leb m bound then some m else none

-- More digits never make the number smaller.
exact_digits-le : (cs : Bytes) (v : ℕ) {m : ℕ} → exact_digits v cs ≡ some m → v ≤ m
exact_digits-le [] v e = ground arith
exact_digits-le (c ∷ cs) v {m} e = elim (Bool-cases (is_digit c)) [
  | inl d ↦ omega (arith, exact_digits-le cs (v * 10 + (c - b'0')) (rw d at e))
  | inr n ↦ absurd (cc (rw n at e))
]

up_to_above : (bound : ℕ) (o : Option ℕ) → ((m : ℕ) → o ≡ some m → bound < m) → up_to bound o ≡ none
up_to_above bound none h = refl
up_to_above bound (some m) h = let above = h m refl in ground arith

module _ (c : ℕ) (cs : Bytes) (v : ℕ) where
  decode_digits_stop : is_digit c ≡ false → decode_digits v (c ∷ cs) ≡ none
  unfolding decode_digits
  decode_digits_stop n = rw n

  decode_digits_overflow :
      is_digit c ≡ true → uint64_max < v * 10 + (c - b'0') → decode_digits v (c ∷ cs) ≡ none
  unfolding decode_digits
  decode_digits_overflow d h =
      let over : ltb ((uint64_max - (c - b'0')) / 10) v ≡ true = ground arith in rw (d, over)

  decode_digits_more :
      is_digit c ≡ true
      → v * 10 + (c - b'0') ≤ uint64_max
      → decode_digits v (c ∷ cs) ≡ decode_digits (v * 10 + (c - b'0')) cs
  unfolding decode_digits
  decode_digits_more d h =
      let under : ltb ((uint64_max - (c - b'0')) / 10) v ≡ false = ground arith in rw (d, under)

-- The overflow test stops the loop exactly when the number denoted is above the bound.
pub decode_digits-exact :
    (cs : Bytes) (v : ℕ)
    → v ≤ uint64_max
    → decode_digits v cs ≡ up_to uint64_max (exact_digits v cs)
decode_digits-exact [] v h = unfold decode_digits in ground arith
decode_digits-exact (c ∷ cs) v h = elim (Bool-cases (is_digit c)) [
  | inr n ↦ rw n (decode_digits_stop c cs v n)
  | inl d ↦ rw d (elim (dec_lt uint64_max (v * 10 + (c - b'0'))) [
    | yes over ↦
        decode_digits_overflow c cs v d over
        ∙ sym (
            up_to_above uint64_max _ (λ m (e : exact_digits (v * 10 + (c - b'0')) cs ≡ some m).
              omega (arith, exact_digits-le cs (v * 10 + (c - b'0')) e)))
    | no under ↦
        decode_digits_more c cs v d (omega arith)
        ∙ decode_digits-exact cs (v * 10 + (c - b'0')) (omega arith)
  ])
]
