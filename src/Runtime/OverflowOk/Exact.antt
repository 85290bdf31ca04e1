-- ===== src/Runtime/OverflowOk/Exact.antt =====
-- The library functions of runtime/overflow_ok.c against exact integer arithmetic.
use native_pascal.Prelude.{ℕ, ◌+◌, ◌-◌, ◌*◌, ◌%◌, ◌^◌, ◌≤◌, ◌<◌, ◌≡◌, ◌↔◌, true, arith}
use native_pascal.Prelude.Int.{ℤ, pos, negsuc, ◌+ℤ◌, ◌*ℤ◌, ◌≤ℤ◌}
use native_pascal.Runtime.OverflowOk.{
  to_u16, low_signed, Stored, InInt16, store_signed, saddok, smulok, store_unsigned, uaddok, umulok,
}

abbrev pub InInt32 : ℤ → Type 0
InInt32 r = (negsuc (2 ^ 31 - 1) ≤ℤ r) × (r ≤ℤ pos (2 ^ 31 - 1))

-- `s` is what a routine leaves for the exact result `r`: the `int` intermediate does not overflow,
-- the stored word is congruent to `r` and in range, and the flag says whether it is `r` itself.
pub record IsWrapped (r : ℤ) (s : Stored ℤ) : Type 0 where
  pub no_overflow : InInt32 r
  pub in_range : InInt16 s.c
  pub fits_iff : (s.fits ≡ true) ↔ InInt16 r
  pub exact : s.fits ≡ true → s.c ≡ r
  pub congruent : to_u16 s.c ≡ to_u16 r

store_signed-IsWrapped : (r : ℤ) → InInt32 r → IsWrapped r (store_signed r)
unfolding store_signed to_u16
store_signed-IsWrapped (pos n) h = record {
  no_overflow = h;
  in_range = ground arith;
  fits_iff = ground arith;
  exact = ground arith;
  congruent = ground arith;
}
store_signed-IsWrapped (negsuc n) h = record {
  no_overflow = h;
  in_range = ground arith;
  fits_iff = ground arith;
  exact = ground arith;
  congruent = ground arith;
}

-- An argument's upper half is not read, whatever the caller's extension left there.
low_signed-to_u16 : (x : ℤ) (k : ℕ) → InInt16 x → low_signed (to_u16 x + k * 2 ^ 16) ≡ x
unfolding low_signed to_u16
low_signed-to_u16 (pos n) k h = ground arith
low_signed-to_u16 (negsuc n) k h = ground arith

sum-InInt32 : (x y : ℤ) → InInt16 x → InInt16 y → InInt32 (x +ℤ y)
unfolding ◌+ℤ◌
sum-InInt32 x y hx hy = ground arith

product_bound : (m n : ℕ) → m ≤ 32768 → n ≤ 32768 → m * n ≤ 1073741824
product_bound m n hm hn = grind arith

product-InInt32 : (x y : ℤ) → InInt16 x → InInt16 y → InInt32 (x *ℤ y)
unfolding ◌*ℤ◌
product-InInt32 (pos m) (pos n) hx hy = ground (arith, product_bound m n)
product-InInt32 (pos m) (negsuc n) hx hy = ground (arith, product_bound m (n + 1))
product-InInt32 (negsuc m) (pos n) hx hy = ground (arith, product_bound (m + 1) n)
product-InInt32 (negsuc m) (negsuc n) hx hy = ground (arith, product_bound (m + 1) (n + 1))

module _ (x y : ℤ) (j k : ℕ) (hx : InInt16 x) (hy : InInt16 y) where
  saddok-IsWrapped : IsWrapped (x +ℤ y) (saddok (to_u16 x + j * 2 ^ 16) (to_u16 y + k * 2 ^ 16))
  unfolding saddok
  saddok-IsWrapped =
      rw (low_signed-to_u16 x j hx, low_signed-to_u16 y k hy)
        (store_signed-IsWrapped (x +ℤ y) (sum-InInt32 x y hx hy))

  smulok-IsWrapped : IsWrapped (x *ℤ y) (smulok (to_u16 x + j * 2 ^ 16) (to_u16 y + k * 2 ^ 16))
  unfolding smulok
  smulok-IsWrapped =
      rw (low_signed-to_u16 x j hx, low_signed-to_u16 y k hy)
        (store_signed-IsWrapped (x *ℤ y) (product-InInt32 x y hx hy))

  -- For all INTEGER arguments, sign-extended or not, SADDOK and SMULOK compute the exact sum and
  -- product without overflowing an `int32_t`, store its low 16 bits as an INTEGER, and return true
  -- exactly when the exact result is an INTEGER; the stored value is then that result.
  pub signed_exact :
      IsWrapped (x +ℤ y) (saddok (to_u16 x + j * 2 ^ 16) (to_u16 y + k * 2 ^ 16))
      × IsWrapped (x *ℤ y) (smulok (to_u16 x + j * 2 ^ 16) (to_u16 y + k * 2 ^ 16))
  signed_exact = (saddok-IsWrapped, smulok-IsWrapped)

-- The same for a WORD result.
pub record IsWrappedWord (r : ℕ) (s : Stored ℕ) : Type 0 where
  pub fits_iff : (s.fits ≡ true) ↔ (r < 2 ^ 16)
  pub congruent : s.c ≡ r % 2 ^ 16

store_unsigned-IsWrappedWord : (r : ℕ) → r < 2 ^ 32 → IsWrappedWord r (store_unsigned (r % 2 ^ 32))
unfolding store_unsigned
store_unsigned-IsWrappedWord r h = record { fits_iff = ground arith; congruent = ground arith }

word_product_bound : (m n : ℕ) → m ≤ 65535 → n ≤ 65535 → m * n ≤ 4294836225
word_product_bound m n hm hn = grind arith

low_word : (x k : ℕ) → x < 2 ^ 16 → (x + k * 2 ^ 16) % 2 ^ 16 ≡ x
low_word x k h = omega arith

-- For all WORD arguments, whatever their upper halves hold, UADDOK and UMULOK store the exact sum
-- and product modulo 2^16, and return true exactly when that is the exact result.
pub unsigned_exact :
    (x y j k : ℕ)
    → x < 2 ^ 16
    → y < 2 ^ 16
    → IsWrappedWord (x + y) (uaddok (x + j * 2 ^ 16) (y + k * 2 ^ 16))
      × IsWrappedWord (x * y) (umulok (x + j * 2 ^ 16) (y + k * 2 ^ 16))
unfolding uaddok umulok
unsigned_exact x y j k hx hy =
    rw (low_word x j hx, low_word y k hy)
      (
        store_unsigned-IsWrappedWord (x + y) (omega arith),
        store_unsigned-IsWrappedWord (x * y)
            (omega (arith, word_product_bound x y (omega arith) (omega arith))),
      )
