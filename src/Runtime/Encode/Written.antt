-- ===== src/Runtime/Encode/Written.antt =====
-- What ENCODE does to its destination.
use native_pascal.Prelude.{
  ◌≤◌, ◌≡◌, inl, inr, Bool, true, false, ◌++◌, Option, none, some, refl, arith, length, drop, ltb,
  leb, [], ◌∷◌, Bool-cases, dec_lt, ◌<◌,
}
use native_pascal.Prelude.Int.{ℤ, pos, ltb_ℤ, ◌≤ℤ◌}
use native_pascal.Prelude.Memory.{Bytes}
use native_pascal.Runtime.Encode.{Lstring, overwrite, most, store_printed, encode_fmt}

-- The text fits into the declared capacity and into what a length byte counts.
abbrev pub Fits : Bytes → ℤ → Type 0
Fits text cap = (pos 1 ≤ℤ cap) × (pos (length text) ≤ℤ cap) × (length text ≤ 255)

-- The result of a call and the destination behind it.
pub data Encoded (has_args : Bool) (printed : Option Bytes) (cap : ℤ) (dest : Lstring)
    : Bool → Lstring → Type 0 where
  refused :
      ((text : Bytes) → printed ≡ some text → has_args ≡ true → ¬ (Fits text cap))
      → Encoded has_args printed cap dest false dest
  written :
      {text : Bytes}
      → printed ≡ some text
      → has_args ≡ true
      → Fits text cap
      → Encoded has_args printed cap dest true
          (record { size = length text; chars = text ++ drop (length text) dest.chars })

overwrite-drop :
    (dest text : Bytes)
    → length text ≤ length dest
    → overwrite dest text ≡ some (text ++ drop (length text) dest)
unfolding overwrite
overwrite-drop dest [] h = refl
overwrite-drop [] (c ∷ cs) h = absurd (omega arith)
overwrite-drop (d ∷ ds) (c ∷ cs) h = rw (overwrite-drop ds cs (omega arith))

module _ (text : Bytes) (cap : ℤ) (dest : Lstring) where
  pub encode_fmt-Fits :
      Fits text cap
      → most cap ≤ length dest.chars
      → encode_fmt true (some text) cap dest
        ≡ some (true, record { size = length text; chars = text ++ drop (length text) dest.chars })
  unfolding encode_fmt store_printed
  encode_fmt-Fits (p, q, r) room =
      let positive : ltb_ℤ (pos 0) cap ≡ true = ground arith in
      let short : leb 512 (length text) ≡ false = ground arith in
      let within : ltb (most cap) (length text) ≡ false = ground arith in
      rw (positive, short, within, overwrite-drop dest.chars text (ground arith)) refl

  encode_fmt_long :
      most cap < length text → encode_fmt true (some text) cap dest ≡ some (false, dest)
  unfolding encode_fmt store_printed
  encode_fmt_long h = ground arith

  encode_fmt_empty :
      ltb_ℤ (pos 0) cap ≡ false → encode_fmt true (some text) cap dest ≡ some (false, dest)
  unfolding encode_fmt
  encode_fmt_empty h = rw h refl

-- Where as many characters as the capacity, or 255, can be written, ENCODE never writes outside of
-- its destination. It succeeds if and only if its arguments are there, the capacity is positive,
-- and the text was printed and is no longer than the capacity and 255. Then the length byte and the
-- first characters are those of the text and the characters behind are as they were; otherwise
-- nothing is changed.
pub encode_fmt-Encoded :
    (has_args : Bool) (printed : Option Bytes) (cap : ℤ) (dest : Lstring)
    → most cap ≤ length dest.chars
    → (ok : Bool) × (d : Lstring) × (encode_fmt has_args printed cap dest ≡ some (ok, d))
      × Encoded has_args printed cap dest ok d
unfolding encode_fmt store_printed
encode_fmt-Encoded false printed cap dest room =
    (false, dest, refl, refused (λ text e h. absurd (cc)))
encode_fmt-Encoded true none cap dest room =
    (false, dest, ground arith, refused (λ text e h. absurd (cc)))
encode_fmt-Encoded true (some text) cap dest room = elim (Bool-cases (ltb_ℤ (pos 0) cap)) [
  | inr n ↦
      (false, dest, encode_fmt_empty text cap dest n, refused (λ t e h (p, q, r). ground arith))
  | inl y ↦ elim (dec_lt (most cap) (length text)) [
    | yes p ↦ (
      false,
      dest,
      encode_fmt_long text cap dest p,
      refused (λ t e h (a, b, c). let same : text ≡ t = cc in ground arith),
    )
    | no p ↦
        let fits : Fits text cap = (ground arith, ground arith, ground arith) in
        (true, _, encode_fmt-Fits text cap dest fits room, written refl refl fits)
  ]
]
