-- ===== src/Runtime/Decode/Integer.antt =====
-- DECODE of the integer family, against the exact value of its text.
use native_pascal.Prelude.{
  ℕ, ◌-◌, ◌^◌, ◌≡◌, Bool, true, false, ◌||◌, [], ◌∷◌, Option, none, some, refl, arith, leb, ◌==◌,
  if◌then◌else◌,
}
use native_pascal.Prelude.Int.{ℤ, pos, negsuc, sub_ℕ, ltb_ℤ, ◌≤ℤ◌}
use native_pascal.Prelude.Memory.{Bytes}
use native_pascal.Runtime.Decode.{
  Decoded, failed, stored, Bounds, uint64_max, int64_max, decode_trim, magnitude_of, with_sign,
  decode_decimal, store_integer, store_decimal, decode_integer_text,
}
use native_pascal.Runtime.Decode.Digits.{exact_digits, up_to, decode_digits-exact}

-- The types of the integer family, by width.
pub data Width : Type 0 where
  w8 w16 w32 w64 : Width

abbrev pub bits_of : Width → ℕ
bits_of w8 = 8
bits_of w16 = 16
bits_of w32 = 32
bits_of w64 = 64

abbrev pub exact_magnitude : Bytes → Option ℕ
exact_magnitude [] = none
exact_magnitude (c ∷ cs) = exact_digits 0 (c ∷ cs)

abbrev signed : Bool → ℕ → ℤ
signed negative m = if negative then sub_ℕ 0 m else pos m

abbrev pub map_value : Bool → Option ℕ → Option ℤ
map_value negative none = none
map_value negative (some m) = some (signed negative m)

-- The integer that a text denotes: an optional sign and one digit or more, with no bound.
abbrev pub exact_value : Bytes → Option ℤ
exact_value [] = none
exact_value (c ∷ cs) =
    if c == b'+'
    then map_value false (exact_magnitude cs)
    else if c == b'-'
    then map_value true (exact_magnitude cs)
    else map_value false (exact_digits 0 (c ∷ cs))

-- The values that a destination may take: the declared subrange, or those of its type.
abbrev pub range_of : ℕ → Bool → Option Bounds → Bounds
range_of bits is_unsigned (some b) = b
range_of bits true none = record { lo = pos 0; hi = pos (2 ^ bits - 1) }
range_of bits false none = record {
  lo = negsuc (2 ^ (bits - 1) - 1);
  hi = pos (2 ^ (bits - 1) - 1);
}

-- The `int64_t` with the bits of a value: a WORD64 above INT64_MAX is stored as a negative number.
abbrev pub as_int64 : ℤ → ℤ
as_int64 (pos m) = if leb m int64_max then pos m else sub_ℕ m (2 ^ 64)
as_int64 (negsuc m) = negsuc m

-- A value in range is stored; any other, or none, is a failure.
abbrev pub judge : Bounds → Option ℤ → Decoded ℤ
judge b none = failed
judge b (some v) = if ltb_ℤ v b.lo || ltb_ℤ b.hi v then failed else stored (as_int64 v)

-- A declared subrange lies within INTEGER64.
abbrev pub FitsInt64 : Option Bounds → Type 0
FitsInt64 none = Unit
FitsInt64 (some b) =
    (negsuc int64_max ≤ℤ b.lo)
    × (b.lo ≤ℤ pos int64_max)
    × (negsuc int64_max ≤ℤ b.hi)
    × (b.hi ≤ℤ pos int64_max)

abbrev capped : ℕ → Bool → Option Bounds → Bool → Option ℕ → Decoded ℤ
capped bits is_unsigned bounds negative o =
    store_decimal bits is_unsigned bounds (with_sign negative (up_to uint64_max o))

store_value :
    (w : Width) (u : Bool) (bounds : Option Bounds) (negative : Bool) (o : Option ℕ)
    → FitsInt64 bounds
    → capped (bits_of w) u bounds negative o
      ≡ judge (range_of (bits_of w) u bounds) (map_value negative o)
unfolding store_integer store_decimal with_sign
store_value w u bounds negative none f = ground arith
store_value w u (some b) negative (some m) f = ground arith
store_value w8 u none negative (some m) f = ground arith
store_value w16 u none negative (some m) f = ground arith
store_value w32 u none negative (some m) f = ground arith
store_value w64 u none negative (some m) f = ground arith

magnitude_of-exact : (s : Bytes) → magnitude_of s ≡ up_to uint64_max (exact_magnitude s)
unfolding magnitude_of
magnitude_of-exact [] = refl
magnitude_of-exact (c ∷ cs) = decode_digits-exact (c ∷ cs) 0 (omega arith)

module _ (w : Width) (u : Bool) (bounds : Option Bounds) (f : FitsInt64 bounds) where
  store_decimal-exact :
      (negative : Bool) (s : Bytes)
      → store_decimal (bits_of w) u bounds (with_sign negative (magnitude_of s))
        ≡ judge (range_of (bits_of w) u bounds) (map_value negative (exact_magnitude s))
  store_decimal-exact negative s =
      rw (magnitude_of-exact s) (store_value w u bounds negative (exact_magnitude s) f)

  decode_decimal-exact :
      (t : Bytes)
      → store_decimal (bits_of w) u bounds (decode_decimal t)
        ≡ judge (range_of (bits_of w) u bounds) (exact_value t)
  unfolding decode_decimal
  decode_decimal-exact [] = unfold store_decimal in refl
  decode_decimal-exact (c ∷ cs) = ground (
    arith,
    store_decimal-exact false cs,
    store_decimal-exact true cs,
    store_decimal-exact false (c ∷ cs),
  )

  -- For every type of the integer family and every declared subrange within INTEGER64, DECODE
  -- fails if the trimmed text is no sign and digits, or if the exact integer that it denotes is
  -- outside the type or the subrange; otherwise it stores the 64-bit pattern of that integer.
  pub decode_integer_text-exact :
      (text : Bytes)
      → decode_integer_text (bits_of w) u bounds text
        ≡ judge (range_of (bits_of w) u bounds) (exact_value (decode_trim text))
  unfolding decode_integer_text
  decode_integer_text-exact text = decode_decimal-exact (decode_trim text)
