-- ===== src/Runtime/Encode/RoundTrip.antt =====
-- DECODE of the text that ENCODE has put into an LSTRING.
use native_pascal.Prelude.{
  ℕ, take-append, zero, suc, ◌≤◌, ◌<◌, ◌≡◌, Bool, true, [], ◌∷◌, ◌++◌, Option, some, arith, leb,
  length, length-append, drop, replicate,
}
use native_pascal.Prelude.Int.{ℤ, pos, ◌≤ℤ◌}
use native_pascal.Prelude.Memory.{Bytes}
use native_pascal.Runtime.Decode.{stored, Bounds, span, decode_integer}
use native_pascal.Runtime.Decode.Printed.{Prints, decode_trim-Prints}
use native_pascal.Runtime.Decode.Integer.{
  Width, bits_of, exact_value, range_of, as_int64, judge, FitsInt64, decode_integer_text-exact,
}
use native_pascal.Runtime.Encode.{Lstring, most, encode_fmt}
use native_pascal.Runtime.Encode.Written.{encode_fmt-Fits}

-- A numeral is never empty.
padded_length :
    (k : ℕ) (body : Bytes) {v : ℤ}
    → exact_value body ≡ some v
    → 0 < length (replicate k b' ' ++ body)
padded_length zero [] h = absurd (cc)
padded_length zero (c ∷ s) h = omega arith
padded_length (suc k) body h = omega arith

Prints-length : {text : Bytes} {v : ℤ} → Prints text v → 0 < length text
Prints-length p = rw p.splits (padded_length p.blanks p.body p.denotes)

judge_in : (b : Bounds) (v : ℤ) → b.lo ≤ℤ v → v ≤ℤ b.hi → judge b (some v) ≡ stored (as_int64 v)
judge_in b v l h = ground arith

module _ (w : Width) (u : Bool) (bounds : Option Bounds) (f : FitsInt64 bounds) where
  decode_back :
      (text rest : Bytes) (v : ℤ)
      → Prints text v
      → (range_of (bits_of w) u bounds).lo ≤ℤ v
      → v ≤ℤ (range_of (bits_of w) u bounds).hi
      → decode_integer (some (text ++ rest)) (pos (length text)) (bits_of w) u bounds true
        ≡ some (stored (as_int64 v))
  unfolding decode_integer span
  decode_back text rest v p l h =
      let fits : leb (length text) (length (text ++ rest)) ≡ true =
        ground (arith, length-append text rest) in
      rw (
        fits,
        take-append text rest,
        decode_integer_text-exact w u bounds f text,
        decode_trim-Prints p,
        p.denotes,
        judge_in (range_of (bits_of w) u bounds) v l h,
      )

  -- For a type of the integer family and a value in its range or its declared subrange, ENCODE of
  -- a text printed for it, blanks in front of a numeral, into an LSTRING with
  -- room enough succeeds, and DECODE of the LSTRING stores the 64-bit pattern of that value again.
  pub decode_integer-encode_fmt :
      (text : Bytes) (v cap : ℤ) (dest : Lstring)
      → Prints text v
      → (range_of (bits_of w) u bounds).lo ≤ℤ v
      → v ≤ℤ (range_of (bits_of w) u bounds).hi
      → length text ≤ most cap
      → most cap ≤ length dest.chars
      → (d : Lstring) × (encode_fmt true (some text) cap dest ≡ some (true, d))
        × (decode_integer (some d.chars) (pos d.size) (bits_of w) u bounds true
            ≡ some (stored (as_int64 v)))
  decode_integer-encode_fmt text v cap dest p l h fits room =
      let some_text = Prints-length p in
      let rest = drop (length text) dest.chars in
      (
        record { size = length text; chars = text ++ rest },
        encode_fmt-Fits text cap dest (ground arith, ground arith, ground arith) room,
        decode_back text rest v p l h,
      )
