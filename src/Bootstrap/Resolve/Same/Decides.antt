-- ===== src/Bootstrap/Resolve/Same/Decides.antt =====
-- `same_type` against equality of forms.
use native_pascal.Prelude.{
  ℕ, zero, suc, ◌≤◌, ◌≡◌, refl, sym, ap, ◌∙◌, Bool, true, false, ◌&&◌, ◌==◌, Option, some,
  if◌then◌else◌, arith, Bool-cases, inl, inr,
}
use native_pascal.Prelude.Int.{ℤ, pos, negsuc}
use native_pascal.Bootstrap.Types.{Ty, IntName, width}
use native_pascal.Bootstrap.Resolve.{same_int, same_ref, int_rank}
use native_pascal.Bootstrap.Resolve.Interning.{same_ref_refl}
use native_pascal.Bootstrap.Resolve.Same.{same_targets, same_parts, same_type}
use native_pascal.Bootstrap.Resolve.Same.Forms.{
  Form, bits, text, row, pointer, members, fields, Bits, integer, integer32, cint, integer64, clong,
  csize_t, Row, HasForm, depth, int, lstring, array, ptr, no_target, enum, record_of, real, bool,
  char, adrmem, nil, strlit, void,
}

-- An answer that is right.
pub data Decided (f g : Form) : Option Bool → Type 0 where
  same : f ≡ g → Decided f g (some true)
  different : ¬ (f ≡ g) → Decided f g (some false)

Decided-Bool :
    {f g : Form} (b : Bool) → (b ≡ true → f ≡ g) → (b ≡ false → ¬ (f ≡ g)) → Decided f g (some b)
Decided-Bool true k l = same (k refl)
Decided-Bool false k l = different (l refl)

width-Bits : {n : IntName} {w : ℕ} → Bits n w → width n ≡ w
width-Bits integer = refl
width-Bits integer32 = refl
width-Bits cint = refl
width-Bits integer64 = refl
width-Bits clong = refl
width-Bits csize_t = refl

int_rank-width : (n m : IntName) → (int_rank n == int_rank m) ≡ true → width n ≡ width m
int_rank-width n m h = ground arith

same_int_self : (a : ℤ) → same_int a a ≡ true
same_int_self (pos n) = ground arith
same_int_self (negsuc n) = ground arith

same_int_eq : (a b : ℤ) → same_int a b ≡ true → a ≡ b
same_int_eq (pos n) (pos m) h = ap pos (ground arith)
same_int_eq (negsuc n) (negsuc m) h = ap negsuc (ground arith)
same_int_eq a b h = absurd (cc)

same_int_ne : (a b : ℤ) → same_int a b ≡ false → ¬ (a ≡ b)
same_int_ne a b h e =
    let self = same_int_self a in let other : same_int a a ≡ false = rw (← e) at h in cc

same_ref_of : (a b : Ty) → a ≡ b → same_ref a b ≡ true
same_ref_of a b e = rw (← e) (same_ref_refl a)

Decided-pointer : {f g : Form} {o : Option Bool} → Decided f g o → Decided (pointer f) (pointer g) o
Decided-pointer (same e) = same (ap pointer e)
Decided-pointer (different k) = different (λ e. k (cc))

Decided-row_parts :
    {f g : Form} {o : Option Bool} (lo hi l h : ℤ)
    → lo ≡ l
    → hi ≡ h
    → Decided f g o
    → Decided (row lo hi f) (row l h g) o
Decided-row_parts lo hi l h x y (same e) = same (cc)
Decided-row_parts lo hi l h x y (different k) = different (λ e. k (cc))

Decided-row :
    {f g : Form} {o : Option Bool} (lo hi l h : ℤ)
    → Decided f g o
    → Decided (row lo hi f) (row l h g) (if same_int lo l && same_int hi h then o else some false)
Decided-row lo hi l h d = elim (Bool-cases (same_int lo l)) [
  | inr n ↦ rw n (different (λ e. same_int_ne lo l n (cc)))
  | inl y ↦ elim (Bool-cases (same_int hi h)) [
    | inr n ↦ rw (y, n) (different (λ e. same_int_ne hi h n (cc)))
    | inl z ↦ rw (y, z) (Decided-row_parts lo hi l h (same_int_eq lo l y) (same_int_eq hi h z) d)
  ]
]

depth_pos : (f : Form) → 1 ≤ depth f
depth_pos (row lo hi f) = omega arith
depth_pos (pointer f) = omega arith
depth_pos f = omega arith

module _ (rows : ℕ → Option Row) (targets : ℕ → Option Ty) where
  same_ref-HasForm :
      {a b : Ty} {f g : Form}
      → HasForm rows targets a f
      → HasForm rows targets b g
      → same_ref a b ≡ true
      → f ≡ g
  unfolding same_ref
  same_ref-HasForm (int {n} p) (int {n = m} q) r =
      ap bits (sym (width-Bits p) ∙ int_rank-width n m r ∙ width-Bits q)
  same_ref-HasForm (lstring {cap}) (lstring {cap = c}) r = ap text (same_int_eq cap c r)
  same_ref-HasForm (array {i} {lo} {hi} {e} u p) (array {i = j} {lo = l} {hi = h} {e = d} v q) r =
      let place : i ≡ j = ground arith in
      let one : ◌≡◌ {A = Row} (record { lo = lo; hi = hi; elem = e })
          (record { lo = l; hi = h; elem = d }) =
        let there = rw place at u in cc in
      let part = same_ref-HasForm p q (same_ref_of e d (ap (λ r. r.elem) one)) in
      rw (ap (λ r. r.lo) one, ap (λ r. r.hi) one, part)
  same_ref-HasForm (ptr {i} {t} u p) (ptr {i = j} {t = s} v q) r =
      let place : i ≡ j = ground arith in
      let one : t ≡ s = let there = rw place at u in cc in
      ap pointer (same_ref-HasForm p q (same_ref_of t s one))
  same_ref-HasForm (ptr {i} u p) (no_target {i = j} v) r =
      let place : i ≡ j = ground arith in let there = rw place at u in absurd (cc)
  same_ref-HasForm (no_target {i} u) (ptr {i = j} v q) r =
      let place : i ≡ j = ground arith in let there = rw place at u in absurd (cc)
  same_ref-HasForm (no_target {i} u) (no_target {i = j} v) r = ap Form.dangling (ground arith)
  same_ref-HasForm (enum {i}) (enum {i = j}) r = ap members (ground arith)
  same_ref-HasForm (record_of {i}) (record_of {i = j}) r = ap fields (ground arith)
  same_ref-HasForm real real r = refl
  same_ref-HasForm bool bool r = refl
  same_ref-HasForm char char r = refl
  same_ref-HasForm adrmem adrmem r = refl
  same_ref-HasForm nil nil r = refl
  same_ref-HasForm strlit strlit r = refl
  same_ref-HasForm void void r = refl
  same_ref-HasForm p q r = absurd (cc)

  module _ (fuel : ℕ)
      (rest : (a b : Ty) (f g : Form)
        → HasForm rows targets a f
        → HasForm rows targets b g
        → depth f ≤ fuel
        → Decided f g (same_type fuel targets a b)) where
    parts-Decided :
        {a b : Ty} {f g : Form}
        → HasForm rows targets a f
        → HasForm rows targets b g
        → same_ref a b ≡ false
        → depth f ≤ suc fuel
        → Decided f g (same_parts (same_type fuel targets) targets a b)
    unfolding same_ref
    parts-Decided (int {n} p) (int {n = m} q) r d =
        Decided-Bool (width n == width m)
          (λ y. ap bits (sym (width-Bits p) ∙ (ground arith) ∙ width-Bits q))
          (λ k e.
            let widths : width n ≡ width m = width-Bits p ∙ (cc) ∙ sym (width-Bits q) in
            ground arith)
    parts-Decided (lstring {cap}) (lstring {cap = c}) r d =
        Decided-Bool (same_int cap c) (λ y. ap text (same_int_eq cap c y))
          (λ k e. same_int_ne cap c k (cc))
    parts-Decided (array {lo} {hi} {e} {f} u p) (array {lo = l} {hi = h} {e = e2} {f = g} v q) r d =
        Decided-row lo hi l h (rest e e2 f g p q (omega arith))
    parts-Decided (ptr {t} {f} u p) (ptr {t = s} {f = g} v q) r d =
        rw (u, v, same_targets) (Decided-pointer (rest t s f g p q (omega arith)))
    parts-Decided (no_target {i} u) (no_target {i = j} v) r d =
        rw (u, same_targets) (different (λ e. let at_one : i ≡ j = cc in ground arith))
    parts-Decided (ptr u p) (no_target v) r d = rw (u, v, same_targets) (different (λ e. cc))
    parts-Decided (no_target u) (ptr v q) r d = rw (u, same_targets) (different (λ e. cc))
    parts-Decided real real r d = same refl
    parts-Decided bool bool r d = same refl
    parts-Decided char char r d = same refl
    parts-Decided adrmem adrmem r d = same refl
    parts-Decided nil nil r d = same refl
    parts-Decided strlit strlit r d = absurd (cc)
    parts-Decided void void r d = absurd (cc)
    parts-Decided (enum {i}) (enum {i = j}) r d =
        different (λ e. let at_one : i ≡ j = cc in ground arith)
    parts-Decided (record_of {i}) (record_of {i = j}) r d =
        different (λ e. let at_one : i ≡ j = cc in ground arith)
    parts-Decided p q r d = different (λ e. cc)

  -- Of two types that have a form, so that no pointers make a cycle and array types at one address
  -- are one row, `same_type` returns within as many calls as the first form is deep, and says yes
  -- if the forms are equal and no if they are not: integers by width, LSTRINGs by capacity, arrays
  -- by bounds and elements, pointers by targets, enumerations and records by declaration.
  pub same_type-Decided :
      (fuel : ℕ) (a b : Ty) (f g : Form)
      → HasForm rows targets a f
      → HasForm rows targets b g
      → depth f ≤ fuel
      → Decided f g (same_type fuel targets a b)
  unfolding same_type
  same_type-Decided zero a b f g p q d = absurd (omega (arith, depth_pos f))
  same_type-Decided (suc fuel) a b f g p q d = elim (Bool-cases (same_ref a b)) [
    | inl y ↦ rw y (same (same_ref-HasForm p q y))
    | inr n ↦ rw n (parts-Decided fuel (same_type-Decided fuel) p q n d)
  ]
