-- ===== src/Runtime/OverflowOk.antt =====
-- runtime/overflow_ok.c: the 16-bit library functions SADDOK, SMULOK, UADDOK and UMULOK.
use native_pascal.Prelude.{ℕ, ◌+◌, ◌-◌, ◌*◌, ◌%◌, ◌^◌, Bool, ltb, leb, if◌then◌else◌}
use native_pascal.Prelude.Int.{ℤ, pos, negsuc, ◌+ℤ◌, ◌*ℤ◌, ◌≤ℤ◌}
pub mod Exact

-- `(uint16_t) v` of an `int32_t`.
pub to_u16 : ℤ → ℕ
to_u16 (pos n) = n % 2 ^ 16
to_u16 (negsuc n) = 2 ^ 16 - 1 - n % 2 ^ 16

-- `(int16_t) w` of a `uint16_t`.
pub to_i16 : ℕ → ℤ
to_i16 w = if ltb w (2 ^ 15) then pos w else negsuc (2 ^ 16 - w - 1)

-- `(int32_t) (int16_t) (uint16_t) v`, on the bit pattern of an argument.
unfoldable pub low_signed : ℕ → ℤ
unfolding to_i16
low_signed v = to_i16 (v % 2 ^ 16)

-- What a routine stores through `c`, and what it returns.
pub record Stored (A : Type 0) : Type 0 where
  pub c : A
  pub fits : Bool

-- `r >= INT16_MIN && r <= INT16_MAX`
pub fits_int16 : ℤ → Bool
fits_int16 (pos n) = leb n 32767
fits_int16 (negsuc n) = leb n 32767

abbrev pub InInt16 : ℤ → Type 0
InInt16 r = (negsuc 32767 ≤ℤ r) × (r ≤ℤ pos 32767)

-- `*c = (int16_t) (uint16_t) r`, then the range test.
pub store_signed : ℤ → Stored ℤ
unfolding to_i16 to_u16 fits_int16
store_signed r = record { c = to_i16 (to_u16 r); fits = fits_int16 r }

unfoldable pub saddok : ℕ → ℕ → Stored ℤ
unfolding low_signed store_signed ◌+ℤ◌
saddok a b = store_signed (low_signed a +ℤ low_signed b)

unfoldable pub smulok : ℕ → ℕ → Stored ℤ
unfolding low_signed store_signed ◌*ℤ◌
smulok a b = store_signed (low_signed a *ℤ low_signed b)

-- `*c = (uint16_t) r`, then the range test.
pub store_unsigned : ℕ → Stored ℕ
store_unsigned r = record { c = r % 2 ^ 16; fits = leb r 65535 }

unfoldable pub uaddok : ℕ → ℕ → Stored ℕ
unfolding store_unsigned
uaddok a b = store_unsigned ((a % 2 ^ 16 + b % 2 ^ 16) % 2 ^ 32)

unfoldable pub umulok : ℕ → ℕ → Stored ℕ
unfolding store_unsigned
umulok a b = store_unsigned (a % 2 ^ 16 * (b % 2 ^ 16) % 2 ^ 32)
