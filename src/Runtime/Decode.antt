-- ===== src/Runtime/Decode.antt =====
-- runtime/encode_decode.c: DECODE for the integer family, enumerations and CHAR. A result of 0 with
-- nothing stored is `failed`; `none` is a fault.
pub mod Trim
pub mod Digits
pub mod Integer
pub mod Member
pub mod Printed
pub mod Real
use native_pascal.Prelude.{
  ℕ, zero, suc, ◌+◌, ◌-◌, ◌*◌, ◌/◌, ◌^◌, Bool, true, false, not, ◌&&◌, ◌||◌, List, [], ◌∷◌, ◌++◌,
  Option, none, some, ltb, leb, ◌==◌, if◌then◌else◌, length, get_elem?, take, drop,
}
use native_pascal.Prelude.Int.{ℤ, pos, negsuc, pos_part, sub_ℕ, ltb_ℤ}
use native_pascal.Prelude.Memory.{Bytes, ◌>>=◌}

pub data Decoded (A : Type 0) : Type 0 where
  failed : Decoded A
  stored : A → Decoded A

abbrev pub is_blank : ℕ → Bool
is_blank c = c == b' ' || c == 0x09

-- `while (n > 0 && blank(s[0])) { s++; n--; }`
pub trim_front : Bytes → Bytes
trim_front [] = []
trim_front (c ∷ cs) = elim (is_blank c) [ true ↦ trim_front cs | false ↦ c ∷ cs ]

pub blank_at : Bytes → ℕ → Bool
blank_at s i = elim (get_elem? s i) [ none ↦ false | some c ↦ is_blank c ]

-- `while (n > 0 && blank(s[n - 1])) n--;`
pub trimmed_length : Bytes → ℕ → ℕ
unfolding blank_at
trimmed_length s zero = 0
trimmed_length s (suc n) = elim (blank_at s n) [ true ↦ trimmed_length s n | false ↦ suc n ]

-- `decode_trim`, on the bytes that `src` and `len` name.
unfoldable pub decode_trim : Bytes → Bytes
unfolding trim_front trimmed_length
decode_trim text = let s = trim_front text in take (trimmed_length s (length s)) s

-- The bytes that `src` and `len` name; a negative length is 0.
unfoldable pub span : Bytes → ℤ → Option Bytes
span src len = if leb (pos_part len) (length src) then some (take (pos_part len) src) else none

pub record Decimal : Type 0 where
  pub negative : Bool
  pub magnitude : ℕ

abbrev pub is_digit : ℕ → Bool
is_digit c = leb b'0' c && leb c b'9'

abbrev pub uint64_max : ℕ
uint64_max = 2 ^ 64 - 1

-- The digit loop, with `v` accumulated so far.
pub decode_digits : ℕ → Bytes → Option ℕ
decode_digits v [] = some v
decode_digits v (c ∷ cs) =
    let rest = decode_digits (v * 10 + (c - b'0')) cs in
    if not (is_digit c) then none else if ltb ((uint64_max - (c - b'0')) / 10) v then none else rest

-- Behind the sign.
magnitude_of : Bytes → Option ℕ
magnitude_of [] = none
magnitude_of (c ∷ cs) = decode_digits 0 (c ∷ cs)

abbrev is_sign : ℕ → Bool
is_sign c = c == b'+' || c == b'-'

with_sign : Bool → Option ℕ → Option Decimal
with_sign negative none = none
with_sign negative (some v) = some (record { negative = negative; magnitude = v })

-- `none` is a result of 0.
unfoldable pub decode_decimal : Bytes → Option Decimal
unfolding decode_digits magnitude_of with_sign
decode_decimal [] = none
decode_decimal (c ∷ cs) =
    if is_sign c
    then with_sign (c == b'-') (magnitude_of cs)
    else with_sign false (magnitude_of (c ∷ cs))

abbrev pub int64_max : ℕ
int64_max = 2 ^ 63 - 1

-- `(int64_t) m` of a `uint64_t`.
pub to_i64 : ℕ → ℤ
to_i64 m = if leb m int64_max then pos m else negsuc (2 ^ 64 - 1 - m)

-- The signed 64-bit value of a sign and a magnitude, where there is one.
pub signed_value : Bool → ℕ → Option ℤ
signed_value negative mag =
    if negative
    then (if ltb (int64_max + 1) mag then none else some (sub_ℕ 0 mag))
    else if ltb int64_max mag
    then none
    else some (pos mag)

pub record Bounds : Type 0 where
  pub lo : ℤ
  pub hi : ℤ

-- The bounds of the destination: the declared subrange, or those of the type.
pub bounds_of : ℕ → Bool → Option Bounds → Bounds
bounds_of bits is_unsigned (some b) = b
bounds_of bits is_unsigned none =
    if is_unsigned
    then record { lo = pos 0; hi = if leb 64 bits then pos int64_max else pos (2 ^ bits - 1) }
    else if leb 64 bits
    then record { lo = negsuc int64_max; hi = pos int64_max }
    else record { lo = negsuc (2 ^ (bits - 1) - 1); hi = pos (2 ^ (bits - 1) - 1) }

abbrev has_none : Option Bounds → Bool
has_none none = true
has_none (some b) = false

pub check_bounds : Bounds → Option ℤ → Decoded ℤ
check_bounds b none = failed
check_bounds b (some v) = if ltb_ℤ v b.lo || ltb_ℤ b.hi v then failed else stored v

-- The rest of `pas_decode_integer`, behind `decode_decimal`.
pub store_integer : ℕ → Bool → Option Bounds → Decimal → Decoded ℤ
unfolding to_i64 signed_value bounds_of check_bounds
store_integer bits is_unsigned bounds d =
    let negative = d.negative && not (d.magnitude == 0) in
    if is_unsigned && bits == 64 && has_none bounds
    then (if negative then failed else stored (to_i64 d.magnitude))
    else check_bounds (bounds_of bits is_unsigned bounds) (signed_value negative d.magnitude)

store_decimal : ℕ → Bool → Option Bounds → Option Decimal → Decoded ℤ
store_decimal bits is_unsigned bounds none = failed
store_decimal bits is_unsigned bounds (some d) = store_integer bits is_unsigned bounds d

-- On the text that `src` and `len` name; `has_bounds`, `lo` and `hi` are an optional range.
unfoldable pub decode_integer_text : ℕ → Bool → Option Bounds → Bytes → Decoded ℤ
unfolding store_integer store_decimal decode_decimal decode_trim
decode_integer_text bits is_unsigned bounds text =
    store_decimal bits is_unsigned bounds (decode_decimal (decode_trim text))

-- A null `src` is `none`; `has_out` is `out != NULL`.
unfoldable pub decode_integer :
    Option Bytes → ℤ → ℕ → Bool → Option Bounds → Bool → Option (Decoded ℤ)
unfolding span decode_integer_text
decode_integer (some src) len bits is_unsigned bounds true =
    span src len >>= λ text. some (decode_integer_text bits is_unsigned bounds text)
decode_integer _ len bits is_unsigned bounds _ = some failed

-- `tolower` in the C locale.
abbrev pub to_lower : ℕ → ℕ
to_lower c = if leb b'A' c && leb c b'Z' then c + 32 else c

-- `strlen(name) == len && strncasecmp(name, src, n) == 0`
pub same_caseless : Bytes → Bytes → Bool
same_caseless [] [] = true
same_caseless (a ∷ as') (b ∷ bs) = to_lower a == to_lower b && same_caseless as' bs
same_caseless _ _ = false

-- `for (i = lo; i <= hi; i++)` over `names`, with `left = hi - i + 1`; an entry that is a null
-- pointer is `none`.
pub find_member : List (Option Bytes) → Bytes → ℕ → ℕ → Option (Decoded ℕ)
find_member names text zero i = some failed
find_member names text (suc left) i = get_elem? names i >>= elim [
  | none ↦ find_member names text left (i + 1)
  | some name ↦ elim (same_caseless name text) [
    | true ↦ some (stored i)
    | false ↦ find_member names text left (i + 1)
  ]
]

to_ordinal : Decoded ℤ → Decoded ℕ
to_ordinal failed = failed
to_ordinal (stored v) = stored (pos_part v)

find_named : Option (List (Option Bytes)) → Bytes → ℕ → ℕ → Option (Decoded ℕ)
find_named none text lo hi = some failed
find_named (some names) text lo hi = find_member names text (hi + 1 - lo) lo

-- On the trimmed text.
pub decode_enum_text : Bytes → Option (List (Option Bytes)) → ℕ → ℕ → Option (Decoded ℕ)
decode_enum_text [] names lo hi = some failed
decode_enum_text (c ∷ cs) names lo hi =
    if is_digit c || c == b'+' || c == b'-'
    then some (
        to_ordinal
          (decode_integer_text 32 false (some (record { lo = pos lo; hi = pos hi })) (c ∷ cs)))
    else find_named names (c ∷ cs) lo hi

unfoldable pub decode_enum :
    Option Bytes → ℤ → Option (List (Option Bytes)) → ℕ → ℕ → Bool → Option (Decoded ℕ)
unfolding span decode_trim decode_enum_text find_named find_member to_ordinal decode_integer_text
    same_caseless
decode_enum (some src) len names lo hi true =
    span src len >>= λ text. decode_enum_text (decode_trim text) names lo hi
decode_enum _ len names lo hi _ = some failed

one_char : Bytes → ℤ → ℤ → Decoded ℕ
one_char (c ∷ []) lo hi = if ltb_ℤ (pos c) lo || ltb_ℤ hi (pos c) then failed else stored c
one_char _ lo hi = failed

unfoldable pub decode_char : Option Bytes → ℤ → ℤ → ℤ → Bool → Option (Decoded ℕ)
unfolding span decode_trim one_char
decode_char (some src) len lo hi true =
    span src len >>= λ text. some (one_char (decode_trim text) lo hi)
decode_char _ len lo hi _ = some failed
