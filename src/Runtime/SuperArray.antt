-- ===== src/Runtime/SuperArray.antt =====
-- runtime/super_descriptor.c: the size of a SUPER ARRAY that NEW allocates, and the checks on a
-- descriptor that UNSAFESUPER imports. Sums are in __int128 and products in __uint128_t, whose
-- wrap-around is written out.
pub mod Allowed
pub mod Imported
use native_pascal.Prelude.{
  ℕ, ◌+◌, ◌-◌, ◌*◌, ◌%◌, ◌^◌, Bool, true, false, not, ◌||◌, ltb, ◌==◌, if◌then◌else◌, Option, none,
  some, bit_and,
}
use native_pascal.Prelude.Int.{ℤ, pos, negsuc, ltb_ℤ, ◌+ℤ◌, ◌-ℤ◌}

-- The messages of `new_error` and `import_error`, which do not return.
pub data Fault : Type 0 where
  not_representable below_lower outside_domain unsupported_element count_overflows : Fault
  bytes_overflow allocation_failed : Fault
  lower_mismatch import_outside_domain requires_data misaligned span_overflows : Fault

pub data Checked (A : Type 0) : Type 0 where
  ok : A → Checked A
  fault : Fault → Checked A

infixl 5 ◌>>=◌
abbrev pub ◌>>=◌ : {A B : Type 0} → Checked A → (A → Checked B) → Checked B
ok a >>= f = f a
fault e >>= f = fault e

-- `if (bad) error(...);`, and what follows.
abbrev pub refuse : {A : Type 0} → Bool → Fault → Checked A → Checked A
refuse true f rest = fault f
refuse false f rest = rest

abbrev pub int64_max : ℕ
int64_max = 2 ^ 63 - 1

-- SIZE_MAX and UINTPTR_MAX; PTRDIFF_MAX is `int64_max`.
abbrev pub size_max : ℕ
size_max = 2 ^ 64 - 1

-- `(uint64_t)` and `(__uint128_t)`.
abbrev pub to_word : ℕ → ℤ → ℕ
to_word w (pos n) = n % 2 ^ w
to_word w (negsuc n) = 2 ^ w - 1 - n % 2 ^ w

-- A bound that is passed in 64 bits, signed or not, as an __int128.
pub widened : ℤ → Bool → ℤ
widened bits is_unsigned = if is_unsigned then pos (to_word 64 bits) else bits

-- `(alignment & (alignment - 1)) != 0`.
abbrev pub many_bits : ℕ → Bool
many_bits alignment = not (bit_and alignment (alignment - 1) == 0)

-- The bytes that `pas_super_new` asks malloc for.
unfoldable pub super_bytes :
    (upper lower domain_low domain_high : ℤ) (stride alignment : ℕ) → Checked ℕ
super_bytes upper lower domain_low domain_high stride alignment =
    let count = to_word 128 (upper -ℤ lower +ℤ pos 1) in
    let bytes = (count * stride) % 2 ^ 128 in
    refuse (ltb_ℤ (pos int64_max) upper) not_representable (
      refuse (ltb_ℤ upper lower) below_lower (
        refuse
          (ltb_ℤ lower domain_low
            || ltb_ℤ domain_high lower
            || ltb_ℤ upper domain_low
            || ltb_ℤ domain_high upper)
          outside_domain
          (refuse (stride == 0 || alignment == 0 || many_bits alignment || ltb 16 alignment)
            unsupported_element
            (refuse (ltb size_max count) count_overflows
              (refuse (ltb size_max bytes || ltb int64_max bytes) bytes_overflow (ok bytes))))))

-- `malloc` gives an address or none.
pub allocated : (ℕ → Option ℕ) → ℕ → Checked ℕ
allocated malloc bytes = elim (malloc bytes) [
  | none ↦ fault allocation_failed
  | some data_at ↦ ok data_at
]

unfoldable pub super_new :
    (malloc : ℕ → Option ℕ) (upper_bits : ℤ) (upper_unsigned : Bool)
    (lower domain_low domain_high : ℤ) (stride alignment : ℕ)
    → Checked ℕ
unfolding super_bytes widened allocated
super_new malloc upper_bits upper_unsigned lower domain_low domain_high stride alignment =
    super_bytes (widened upper_bits upper_unsigned) lower domain_low domain_high stride alignment
    >>= allocated malloc

-- The checks on the widened bounds. The address `raw` is 0 for NIL.
unfoldable pub check_import :
    (raw : ℕ) (lower upper declared_lower domain_low domain_high : ℤ) (stride alignment : ℕ)
    → Checked Unit
check_import raw lower upper declared_lower domain_low domain_high stride alignment =
    let bytes = (to_word 128 (upper -ℤ lower +ℤ pos 1) * stride) % 2 ^ 128 in
    refuse (ltb_ℤ lower declared_lower || ltb_ℤ declared_lower lower) lower_mismatch (
      refuse
        (ltb_ℤ upper domain_low
          || ltb_ℤ domain_high upper
          || ltb_ℤ (pos int64_max) upper
          || ltb_ℤ upper lower)
        import_outside_domain
        (refuse (raw == 0) requires_data (
          refuse (alignment == 0 || many_bits alignment || not (raw % alignment == 0)) misaligned (
            refuse
              (stride == 0
                || ltb size_max bytes
                || ltb int64_max bytes
                || ltb size_max ((raw + bytes) % 2 ^ 128))
              span_overflows (ok tt)))))

unfoldable pub super_import_check :
    (raw : ℕ) (lower_bits : ℤ) (lower_unsigned : Bool) (upper_bits : ℤ) (upper_unsigned : Bool)
    (declared_lower domain_low domain_high : ℤ) (stride alignment : ℕ)
    → Checked Unit
unfolding widened check_import
super_import_check raw lower_bits lower_unsigned upper_bits upper_unsigned =
    check_import raw (widened lower_bits lower_unsigned) (widened upper_bits upper_unsigned)
