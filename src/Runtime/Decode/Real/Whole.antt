-- ===== src/Runtime/Decode/Real/Whole.antt =====
-- Which texts DECODE takes for a REAL.
use native_pascal.Prelude.{
  ℕ, zero, suc, ◌≤◌, ◌≡◌, inl, inr, Bool, true, false, not, ◌&&◌, [], ◌∷◌, ◌++◌, some, refl, arith,
  ltb, leb, ◌==◌, if◌then◌else◌, length, get_elem?, Bool-cases, ap, ◌∙◌,
}
use native_pascal.Prelude.Memory.{Bytes}
use native_pascal.Runtime.Decode.{Decoded, failed, stored}
use native_pascal.Runtime.Decode.Real.{Converted, c_string, is_space, judge_real, decode_real_text}

abbrev starts_with_space : Bytes → Bool
starts_with_space [] = false
starts_with_space (c ∷ cs) = is_space c

-- The byte that `end` points to is NUL where the string ends, and only there.
end_byte :
    (t : Bytes) (n : ℕ)
    → n ≤ length (c_string t)
    → (last : ℕ) × (get_elem? (t ++ 0 ∷ []) n ≡ some last)
      × ((last == 0) ≡ (n == length (c_string t)))
end_byte [] n h = let e : n ≡ 0 = omega arith in rw e (0, refl, refl)
end_byte (c ∷ cs) zero h =
    (c, refl, elim (Bool-cases (c == 0)) [ inl y ↦ rw y refl | inr k ↦ rw k (ground arith) ])
end_byte (c ∷ cs) (suc n) h = elim (Bool-cases (c == 0)) [
  | inl y ↦ absurd (omega (arith, rw y at h))
  | inr k ↦
      let (last, e, same) = end_byte cs n (omega (arith, rw k at h)) in
      (last, e, same ∙ rw k (ground arith))
]

abbrev pub real_if : {R : Type 0} → Bool → R → Decoded R
real_if b v = if b then stored v else failed

module _ {R : Type 0} (strtod : Bytes → Converted R) (beyond : R → Bool) where
  -- A text is taken if its string is a number to its end, behind no space, and not too large.
  abbrev pub takes_real : Bytes → Bool
  takes_real t =
      let r = strtod (c_string t) in
      ltb (length t) 512
      && not (starts_with_space t)
      && ltb 0 r.consumed
      && r.consumed == length (c_string t)
      && not (r.erange && beyond r.value)

  judge_real_same :
      (r : Converted R) (last n : ℕ)
      → (last == 0) ≡ (r.consumed == n)
      → judge_real beyond r last
        ≡ real_if (ltb 0 r.consumed && r.consumed == n && not (r.erange && beyond r.value)) r.value
  judge_real_same r last n same = elim (Bool-cases (r.erange && beyond r.value)) [
    | inl y ↦ elim (Bool-cases (last == 0)) [ inl z ↦ ground arith | inr z ↦ ground arith ]
    | inr y ↦ elim (Bool-cases (last == 0)) [ inl z ↦ ground arith | inr z ↦ ground arith ]
  ]

  -- Where strtod takes no more than its string, DECODE of a REAL reads inside its text only. It
  -- stores strtod's value if and only if the trimmed text is not empty and shorter than 512, does
  -- not start with a space, and strtod takes one byte or more, and all bytes before the first NUL,
  -- without an overflow. Otherwise it fails.
  pub decode_real_text-takes :
      ((s : Bytes) → (strtod s).consumed ≤ length s)
      → (t : Bytes)
      → decode_real_text strtod beyond t ≡ some (real_if (takes_real t) (strtod (c_string t)).value)
  unfolding decode_real_text
  decode_real_text-takes k [] =
      let none_taken : ltb 0 (strtod []).consumed ≡ false = ground (arith, k []) in
      rw none_taken refl
  decode_real_text-takes k (c ∷ cs) =
      let r = strtod (c_string (c ∷ cs)) in
      let (last, e, same) = end_byte (c ∷ cs) r.consumed (k (c_string (c ∷ cs))) in
      elim (Bool-cases (leb 512 (length (c ∷ cs)))) [
        | inl long ↦
            let over : ltb (length (c ∷ cs)) 512 ≡ false = ground arith in rw (long, over) refl
        | inr short ↦
            let under : ltb (length (c ∷ cs)) 512 ≡ true = ground arith in
            elim (Bool-cases (is_space c)) [
              | inl y ↦ rw (short, under, y) refl
              | inr z ↦
                  rw (short, under, z, e)
                    (ap some (judge_real_same r last (length (c_string (c ∷ cs))) same))
            ]
      ]
