-- ===== src/Runtime/SuperArray/Imported.antt =====
-- Which descriptors runtime/super_descriptor.c lets UNSAFESUPER import, in exact arithmetic.
use native_pascal.Prelude.{
  ℕ, ◌+◌, ◌-◌, ◌*◌, ◌%◌, ◌^◌, ◌≤◌, ◌<◌, ◌≡◌, ◌↔◌, refl, sym, ap, ◌∙◌, Bool, false, not, ◌||◌, ltb,
  ◌==◌, bit_and, arith,
}
use native_pascal.Prelude.Int.{
  ℤ, pos, ltb_ℤ, ◌≤ℤ◌, ◌+ℤ◌, ◌-ℤ◌, eq_of_parts, int_laws, pos_part, neg_part,
}
use native_pascal.Runtime.SuperArray.{
  ok, int64_max, size_max, to_word, widened, many_bits, check_import, super_import_check,
  lower_mismatch, import_outside_domain, requires_data, misaligned, span_overflows,
}
use native_pascal.Runtime.SuperArray.Allowed.{
  refuse-ok, product_small, counted, same_count, not_below, In64, Int64, as_read, widened-as_read,
  widened-In64,
}

-- A descriptor that is let through.
pub record Imported (raw : ℕ) (lower upper declared_lower domain_low domain_high : ℤ)
    (stride alignment : ℕ) : Type 0 where
  pub count : ℕ
  pub some_elements : 1 ≤ count
  pub count_is : upper +ℤ pos 1 ≡ lower +ℤ pos count
  pub lower_is : lower ≡ declared_lower
  pub from_low : domain_low ≤ℤ upper
  pub to_high : upper ≤ℤ domain_high
  pub representable : upper ≤ℤ pos (2 ^ 63 - 1)
  pub some_data : 1 ≤ raw
  pub some_alignment : 1 ≤ alignment
  pub single_bit : bit_and alignment (alignment - 1) ≡ 0
  pub aligned : raw % alignment ≡ 0
  pub some_stride : 1 ≤ stride
  pub bytes_fit : count * stride ≤ 2 ^ 63 - 1
  pub in_memory : raw + count * stride ≤ 2 ^ 64 - 1

few_elements :
    (lower upper : ℤ) (count : ℕ)
    → In64 lower
    → upper ≤ℤ pos (2 ^ 63 - 1)
    → upper +ℤ pos 1 ≡ lower +ℤ pos count
    → count ≤ 2 ^ 64
few_elements lower upper count l u e = omega (int_laws, ap pos_part e, ap neg_part e)

same_bounds : (a b : ℤ) → (ltb_ℤ a b || ltb_ℤ b a) ≡ false → a ≡ b
same_bounds a b h = eq_of_parts a b (ground arith)

module _ (raw : ℕ) (lower upper declared_lower domain_low domain_high : ℤ) (stride alignment : ℕ)
    (l : In64 lower) (u : In64 upper) (r : raw < 2 ^ 64) (s : stride < 2 ^ 64) where
  check_import-Imported :
      check_import raw lower upper declared_lower domain_low domain_high stride alignment ≡ ok tt
      → Imported raw lower upper declared_lower domain_low domain_high stride alignment
  unfolding check_import
  check_import-Imported =
      let bytes = (to_word 128 (upper -ℤ lower +ℤ pos 1) * stride) % 2 ^ 128 in
      refuse-ok (ltb_ℤ lower declared_lower || ltb_ℤ declared_lower lower) lower_mismatch (λ a.
        refuse-ok
          (ltb_ℤ upper domain_low
            || ltb_ℤ domain_high upper
            || ltb_ℤ (pos int64_max) upper
            || ltb_ℤ upper lower)
          import_outside_domain
          (λ b. refuse-ok (raw == 0) requires_data (λ c.
            refuse-ok (alignment == 0 || many_bits alignment || not (raw % alignment == 0))
              misaligned
              (λ d.
                refuse-ok
                  (stride == 0
                    || ltb size_max bytes
                    || ltb int64_max bytes
                    || ltb size_max ((raw + bytes) % 2 ^ 128))
                  span_overflows
                  (λ e _.
                    let (count, k) = counted upper lower u l (ground arith) in
                    let top : upper ≤ℤ pos (2 ^ 63 - 1) = ground arith in
                    let few : count ≤ 2 ^ 64 = few_elements lower upper count l top k.exact in
                    let product = product_small count stride few s in
                    let e' = rw (k.word, product) at e in
                    let span : count * stride ≤ 2 ^ 63 - 1 = ground arith in
                    record {
                      count = count;
                      some_elements = k.some_elements;
                      count_is = k.exact;
                      lower_is = same_bounds lower declared_lower a;
                      from_low = ground arith;
                      to_high = ground arith;
                      representable = top;
                      some_data = ground arith;
                      some_alignment = ground arith;
                      single_bit = ground arith;
                      aligned = ground arith;
                      some_stride = ground arith;
                      bytes_fit = span;
                      in_memory = ground arith;
                    })))))

  Imported-check_import :
      Imported raw lower upper declared_lower domain_low domain_high stride alignment
      → check_import raw lower upper declared_lower domain_low domain_high stride alignment ≡ ok tt
  unfolding check_import
  Imported-check_import a =
      let above : lower ≤ℤ upper = not_below upper lower a.count a.some_elements a.count_is in
      let (count, k) = counted upper lower u l above in
      let same : count ≡ a.count = same_count lower count a.count (sym k.exact ∙ a.count_is) in
      let few = few_elements lower upper count l a.representable k.exact in
      let product = product_small count stride few s in
      let span : count * stride ≤ 2 ^ 63 - 1 = rw same a.bytes_fit in
      let inside : raw + count * stride ≤ 2 ^ 64 - 1 = rw same a.in_memory in
      let t1 : (ltb_ℤ lower declared_lower || ltb_ℤ declared_lower lower) ≡ false =
        rw (← a.lower_is) (ground arith) in
      let t2 : (ltb_ℤ upper domain_low
            || ltb_ℤ domain_high upper
            || ltb_ℤ (pos int64_max) upper
            || ltb_ℤ upper lower)
          ≡ false =
        ground (arith, a.from_low, a.to_high, a.representable, above) in
      let t3 : (raw == 0) ≡ false = ground (arith, a.some_data) in
      let t4 : (alignment == 0 || many_bits alignment || not (raw % alignment == 0)) ≡ false =
        ground (arith, a.some_alignment, a.single_bit, a.aligned) in
      let t5 : (stride == 0
            || ltb size_max (count * stride)
            || ltb int64_max (count * stride)
            || ltb size_max ((raw + count * stride) % 2 ^ 128))
          ≡ false =
        ground (arith, a.some_stride, span, inside) in
      rw (k.word, product, t1, t2, t3, t4, t5) refl

-- UNSAFESUPER lets a descriptor through exactly when its lower bound, read with its signedness, is
-- the declared one, its upper bound is an INTEGER64 of the index domain and not below the lower, the
-- address is neither NIL nor badly aligned for the single-bit alignment, the element size is not
-- 0, and the exact span of the elements is at most PTRDIFF_MAX and ends inside of the address
-- space. The bits of the bounds, the address and the element size are those of 64-bit words.
pub super_import_check_iff :
    (raw : ℕ) (lower_bits : ℤ) (lower_unsigned : Bool) (upper_bits : ℤ) (upper_unsigned : Bool)
    (declared_lower domain_low domain_high : ℤ) (stride alignment : ℕ)
    → Int64 lower_bits
    → Int64 upper_bits
    → raw < 2 ^ 64
    → stride < 2 ^ 64
    → (super_import_check raw lower_bits lower_unsigned upper_bits upper_unsigned declared_lower
          domain_low domain_high stride alignment
        ≡ ok tt)
      ↔ Imported raw
          (as_read lower_bits lower_unsigned)
          (as_read upper_bits upper_unsigned)
          declared_lower
          domain_low
          domain_high
          stride
          alignment
unfolding super_import_check
super_import_check_iff raw lower_bits lower_unsigned upper_bits upper_unsigned declared_lower
      domain_low domain_high stride alignment l u r s =
    let lower = widened lower_bits lower_unsigned in
    let upper = widened upper_bits upper_unsigned in
    let low = widened-In64 lower_bits lower_unsigned l in
    let up = widened-In64 upper_bits upper_unsigned u in
    rw
      (← widened-as_read lower_bits lower_unsigned l, ← widened-as_read upper_bits upper_unsigned u)
      (
        check_import-Imported raw lower upper declared_lower domain_low domain_high stride alignment
            low up r s,
        Imported-check_import raw lower upper declared_lower domain_low domain_high stride alignment
            low up r s,
      )
