-- ===== src/Runtime/SuperArray/Allowed.antt =====
-- Which allocations and imports runtime/super_descriptor.c lets through, in exact arithmetic.
use native_pascal.Prelude.{
  ℕ, suc, ◌+◌, ◌-◌, ◌*◌, ◌%◌, ◌^◌, ◌≤◌, ◌<◌, ◌≡◌, ◌↔◌, refl, sym, ap, ◌∙◌, Bool, true, false, ◌||◌,
  ltb, ◌==◌, Option, none, some, bit_and, arith,
}
use native.Mathlib.Nat.{mod-eq_of_lt, mul-le-mul, le-mul_of_pos_right}
use native_pascal.Prelude.Int.{
  ℤ, pos, negsuc, ltb_ℤ, ◌≤ℤ◌, ◌+ℤ◌, ◌-ℤ◌, pos_part, neg_part, int_laws,
}
use native_pascal.Runtime.SuperArray.{
  Fault, Checked, ok, fault, refuse, int64_max, size_max, to_word, widened, many_bits, super_bytes,
  ◌>>=◌, allocated, super_new, not_representable, below_lower, outside_domain, unsupported_element,
  count_overflows, bytes_overflow,
}

-- A request that is granted: the array has `count` elements, all indices in the domain.
pub record Allowed (upper lower domain_low domain_high : ℤ) (stride alignment bytes : ℕ)
    : Type 0 where
  pub count : ℕ
  pub some_elements : 1 ≤ count
  pub count_is : upper +ℤ pos 1 ≡ lower +ℤ pos count
  pub representable : upper ≤ℤ pos (2 ^ 63 - 1)
  pub from_low : domain_low ≤ℤ lower
  pub to_high : upper ≤ℤ domain_high
  pub some_stride : 1 ≤ stride
  pub some_alignment : 1 ≤ alignment
  pub small_alignment : alignment ≤ 16
  pub single_bit : bit_and alignment (alignment - 1) ≡ 0
  pub bytes_is : bytes ≡ count * stride
  pub bytes_fit : bytes ≤ 2 ^ 63 - 1

pub refuse-ok :
    {A P : Type 0} (b : Bool) (f : Fault) {r : Checked A} {x : A}
    → (b ≡ false → r ≡ ok x → P)
    → refuse b f r ≡ ok x
    → P
refuse-ok true f k e = absurd (cc)
refuse-ok false f k e = k refl e

ok_injective : {A : Type 0} {x y : A} → ◌≡◌ {A = Checked A} (ok x) (ok y) → x ≡ y
ok_injective e = cc

abbrev pub In64 : ℤ → Type 0
In64 v = (negsuc (2 ^ 63 - 1) ≤ℤ v) × (v ≤ℤ pos (2 ^ 64 - 1))

-- A difference of bounds, as a number.
distance :
    (upper lower : ℤ)
    → lower ≤ℤ upper
    → (n : ℕ) × (upper +ℤ pos 1 ≡ lower +ℤ pos (suc n)) × (upper -ℤ lower +ℤ pos 1 ≡ pos (suc n))
unfolding ◌+ℤ◌ ◌-ℤ◌
distance upper lower h =
    let n = pos_part upper + neg_part lower - (pos_part lower + neg_part upper) in
    (n, ground arith, ground arith)

pub product_small : (c s : ℕ) → c ≤ 2 ^ 64 → s < 2 ^ 64 → (c * s) % 2 ^ 128 ≡ c * s
product_small c s h k =
    let below : c * s ≤ 2 ^ 64 * (2 ^ 64 - 1) = mul-le-mul {m₂ = 2 ^ 64 - 1} h (omega arith) in
    mod-eq_of_lt (omega arith)

-- The count that the code computes.
pub record Counted (upper lower : ℤ) (count : ℕ) : Type 0 where
  pub exact : upper +ℤ pos 1 ≡ lower +ℤ pos count
  pub word : to_word 128 (upper -ℤ lower +ℤ pos 1) ≡ count
  pub some_elements : 1 ≤ count
  pub in_word : count ≤ 2 ^ 64 + 2 ^ 63

pub counted :
    (upper lower : ℤ)
    → In64 upper
    → In64 lower
    → lower ≤ℤ upper
    → (count : ℕ) × Counted upper lower count
unfolding ◌+ℤ◌ ◌-ℤ◌
counted upper lower u l h =
    let (n, exact, difference) = distance upper lower h in
    let small : suc n ≤ 2 ^ 64 + 2 ^ 63 = ground arith in
    (
      suc n,
      record {
        exact = exact;
        word = ap (to_word 128) difference ∙ mod-eq_of_lt (omega arith);
        some_elements = omega arith;
        in_word = small;
      },
    )

pub same_count : (lower : ℤ) (c d : ℕ) → lower +ℤ pos c ≡ lower +ℤ pos d → c ≡ d
same_count lower c d e = omega (int_laws, ap pos_part e, ap neg_part e)

pub not_below : (upper lower : ℤ) (c : ℕ) → 1 ≤ c → upper +ℤ pos 1 ≡ lower +ℤ pos c → lower ≤ℤ upper
not_below upper lower c h e = omega (int_laws, ap pos_part e, ap neg_part e)

module _ (upper lower domain_low domain_high : ℤ) (stride alignment bytes : ℕ) where
  super_bytes-Allowed :
      In64 upper
      → In64 lower
      → stride < 2 ^ 64
      → super_bytes upper lower domain_low domain_high stride alignment ≡ ok bytes
      → Allowed upper lower domain_low domain_high stride alignment bytes
  unfolding super_bytes
  super_bytes-Allowed u l s = refuse-ok (ltb_ℤ (pos int64_max) upper) not_representable (λ a.
      refuse-ok (ltb_ℤ upper lower) below_lower (λ b.
        refuse-ok
          (ltb_ℤ lower domain_low
            || ltb_ℤ domain_high lower
            || ltb_ℤ upper domain_low
            || ltb_ℤ domain_high upper)
          outside_domain
          (λ c.
            refuse-ok (stride == 0 || alignment == 0 || many_bits alignment || ltb 16 alignment)
              unsupported_element
              (λ d.
                refuse-ok (ltb size_max (to_word 128 (upper -ℤ lower +ℤ pos 1))) count_overflows
                  (λ e.
                    refuse-ok
                      (ltb size_max ((to_word 128 (upper -ℤ lower +ℤ pos 1) * stride) % 2 ^ 128)
                        || ltb int64_max
                            ((to_word 128 (upper -ℤ lower +ℤ pos 1) * stride) % 2 ^ 128))
                      bytes_overflow
                      (λ f g.
                        let (count, k) = counted upper lower u l (ground arith) in
                        let few : count ≤ size_max = ground (arith, rw k.word at e) in
                        let product = product_small count stride (omega arith) s in
                        let f' = rw (k.word, product) at f in
                        let g' : count * stride ≡ bytes =
                          rw (k.word, product) at (ok_injective g) in
                        record {
                          count = count;
                          some_elements = k.some_elements;
                          count_is = k.exact;
                          representable = ground arith;
                          from_low = ground arith;
                          to_high = ground arith;
                          some_stride = ground arith;
                          some_alignment = ground arith;
                          small_alignment = ground arith;
                          single_bit = ground arith;
                          bytes_is = sym g';
                          bytes_fit = ground arith;
                        }))))))

  Allowed-super_bytes :
      In64 upper
      → In64 lower
      → stride < 2 ^ 64
      → Allowed upper lower domain_low domain_high stride alignment bytes
      → super_bytes upper lower domain_low domain_high stride alignment ≡ ok bytes
  unfolding super_bytes
  Allowed-super_bytes u l s a =
      let above : lower ≤ℤ upper = not_below upper lower a.count a.some_elements a.count_is in
      let (count, k) = counted upper lower u l above in
      let same : count ≡ a.count = same_count lower count a.count (sym k.exact ∙ a.count_is) in
      let total : count * stride ≡ bytes = rw same (sym a.bytes_is) in
      let few : count ≤ count * stride = le-mul_of_pos_right count (omega (arith, a.some_stride)) in
      let fits = a.bytes_fit in
      let product = product_small count stride (omega arith) s in
      let t1 : ltb_ℤ (pos int64_max) upper ≡ false = ground (arith, a.representable) in
      let t2 : ltb_ℤ upper lower ≡ false = ground (arith, above) in
      let t3 : (ltb_ℤ lower domain_low
            || ltb_ℤ domain_high lower
            || ltb_ℤ upper domain_low
            || ltb_ℤ domain_high upper)
          ≡ false =
        ground (arith, a.from_low, a.to_high, above) in
      let t4 : (stride == 0 || alignment == 0 || many_bits alignment || ltb 16 alignment) ≡ false =
        ground (arith, a.some_stride, a.some_alignment, a.small_alignment, a.single_bit) in
      let t5 : ltb size_max count ≡ false = ground arith in
      let t6 : (ltb size_max bytes || ltb int64_max bytes) ≡ false = ground (arith, fits) in
      rw (k.word, product, total, t1, t2, t3, t4, t5, t6) refl

bind-ok :
    {A B : Type 0} (m : Checked A) (f : A → Checked B) {b : B}
    → (m >>= f) ≡ ok b
    → (a : A) × (m ≡ ok a) × (f a ≡ ok b)
bind-ok (ok a) f e = (a, refl, e)
bind-ok (fault _) f e = absurd (cc)

allocated_iff :
    (malloc : ℕ → Option ℕ) (bytes p : ℕ)
    → (allocated malloc bytes ≡ ok p) ↔ (malloc bytes ≡ some p)
unfolding allocated
allocated_iff malloc bytes p = go (malloc bytes) refl
  where
    go :
        (r : Option ℕ)
        → malloc bytes ≡ r
        → (allocated malloc bytes ≡ ok p) ↔ (malloc bytes ≡ some p)
    go none e = rw (e, allocated) ((λ x. absurd (cc)), (λ x. absurd (cc)))
    go (some q) e = rw (e, allocated) ((λ x. ap some (ok_injective x)), (λ x. cc))

-- A bound that arrives in 64 bits.
abbrev pub Int64 : ℤ → Type 0
Int64 v = (negsuc (2 ^ 63 - 1) ≤ℤ v) × (v ≤ℤ pos (2 ^ 63 - 1))

-- The number that 64 bits stand for, given as an INTEGER64: read without a sign, a negative one is
-- 2 ^ 64 more.
abbrev pub as_read : ℤ → Bool → ℤ
as_read bits false = bits
as_read (pos n) true = pos n
as_read (negsuc n) true = negsuc n +ℤ pos (2 ^ 64)

pub widened-as_read :
    (bits : ℤ) (is_unsigned : Bool)
    → Int64 bits
    → widened bits is_unsigned ≡ as_read bits is_unsigned
unfolding widened ◌+ℤ◌
widened-as_read bits false h = refl
widened-as_read (pos n) true h = ground arith
widened-as_read (negsuc n) true h = ground arith

pub widened-In64 : (bits : ℤ) (is_unsigned : Bool) → Int64 bits → In64 (widened bits is_unsigned)
unfolding widened
widened-In64 bits false h = (omega arith, omega arith)
widened-In64 (pos n) true h = (omega arith, omega arith)
widened-In64 (negsuc n) true h = (omega arith, omega arith)

module _ (malloc : ℕ → Option ℕ) (upper_bits : ℤ) (upper_unsigned : Bool)
    (lower domain_low domain_high : ℤ) (stride alignment p : ℕ) where
  -- NEW of a SUPER ARRAY gives an address exactly when the upper bound, read with its signedness, is
  -- an INTEGER64 and gives at least one element, the bounds are in the index domain, the element
  -- size is not 0, the alignment is a power of two up to 16, the exact product of count and element
  -- size is at most PTRDIFF_MAX, and malloc gives the address for exactly that many bytes. The
  -- bounds are INTEGER64s and the element size is a 64-bit word.
  pub super_new_iff :
      Int64 upper_bits
      → Int64 lower
      → stride < 2 ^ 64
      → (super_new malloc upper_bits upper_unsigned lower domain_low domain_high stride alignment
          ≡ ok p)
        ↔ ((bytes : ℕ) × Allowed
              (as_read upper_bits upper_unsigned)
              lower
              domain_low
              domain_high
              stride
              alignment
              bytes
            × (malloc bytes ≡ some p))
  unfolding super_new
  super_new_iff u l s = rw (← widened-as_read upper_bits upper_unsigned u) (
      let upper = widened upper_bits upper_unsigned in
      let wide = widened-In64 upper_bits upper_unsigned u in
      let low : In64 lower = (l.0, omega arith) in
      (
        λ e.
            let (bytes, made, got) =
              bind-ok (super_bytes upper lower domain_low domain_high stride alignment)
                (allocated malloc) e in
            (
              bytes,
              super_bytes-Allowed upper lower domain_low domain_high stride alignment bytes wide low
                  s made,
              (allocated_iff malloc bytes p).0 got,
            ),
        λ r.
            let made =
              Allowed-super_bytes upper lower domain_low domain_high stride alignment r.0 wide low s
                r.1 in
            rw made ((allocated_iff malloc r.0 p).1 r.2),
      ))
