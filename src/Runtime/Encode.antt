-- ===== src/Runtime/Encode.antt =====
-- runtime/encode_decode.c: ENCODE. What vsnprintf prints is a parameter, `none` where it returns a
-- negative number.
pub mod RoundTrip
pub mod Written
use native_pascal.Prelude.{
  ℕ, Bool, true, false, not, ◌||◌, List, [], ◌∷◌, Option, none, some, ltb, leb, if◌then◌else◌,
  length,
}
use native_pascal.Prelude.Int.{ℤ, pos, pos_part, ltb_ℤ}
use native_pascal.Prelude.Memory.{Bytes, ◌>>=◌}

-- The bytes at `dest_raw`: the length, and from `dest_chars` on the characters.
pub record Lstring : Type 0 where
  pub size : ℕ
  pub chars : Bytes

-- `memcpy(dest_chars, tmp, n)`; `none` is a write outside the destination.
pub overwrite : Bytes → Bytes → Option Bytes
overwrite dest [] = some dest
overwrite [] (c ∷ cs) = none
overwrite (d ∷ ds) (c ∷ cs) = overwrite ds cs >>= λ rest. some (c ∷ rest)

abbrev pub most : ℤ → ℕ
most dest_cap = if ltb_ℤ (pos 255) dest_cap then 255 else pos_part dest_cap

-- Behind the tests of the arguments, with `cap` at most 255.
pub store_printed : Option Bytes → ℕ → Lstring → Option (Bool × Lstring)
store_printed none cap dest = some (false, dest)
store_printed (some text) cap dest =
    let written = overwrite dest.chars text in
    if leb 512 (length text) || ltb cap (length text)
    then some (false, dest)
    else written >>= λ chars. some (true, record { size = length text; chars = chars })

-- `has_args` is `dest_chars && dest_raw && fmt`. A result of 1 is `true`.
unfoldable pub encode_fmt : Bool → Option Bytes → ℤ → Lstring → Option (Bool × Lstring)
unfolding overwrite store_printed
encode_fmt has_args printed dest_cap dest =
    if not has_args || not (ltb_ℤ (pos 0) dest_cap)
    then some (false, dest)
    else store_printed printed (most dest_cap) dest
