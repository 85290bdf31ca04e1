-- ===== src/Bootstrap/Constants/Exact.antt =====
-- Constant evaluation in bootstrap/sem.c is exact arithmetic on the integers.
use native_pascal.Prelude.{
  zero, suc, ◌/◌, ◌<◌, ◌≡◌, refl, sym, ◌∙◌, true, false, not, ◌&&◌, Option, none, some, arith,
  Bool-cases, inl, inr,
}
use native.Mathlib.Nat.{div-le_self, div-lt_self}
use native_pascal.Prelude.Int.{ℤ, pos, negsuc, neg_ℤ, ◌+ℤ◌, ◌-ℤ◌, ◌*ℤ◌, ◌/ℤ◌}
use native_pascal.Prelude.Memory.{Bytes, ◌>>=◌ as ◌>>=o◌}
use native_pascal.Bootstrap.Token.{Loc}
use native_pascal.Bootstrap.Ast.{Op, add, sub, mul, idiv, neg, Expr, int, name, bin, un}
use native_pascal.Bootstrap.Scopes.{Sym, Scopes, lookup}
use native_pascal.Bootstrap.Types.{
  Ty, not_constant, is_int, Const, SymInfo, const, Sem, ok, fatal, ◌>>=◌,
}
use native_pascal.Bootstrap.Constants.{
  in_signed, int_type_for, is_int64_min, is_zero, is_minus_one, const_int, const_un, const_arith,
  const_bin, const_found, const_real, negated, checked, const_eval,
}
use native_pascal.Bootstrap.Constants.Value.{
  within64, int_const, named, value_un, value_bin, value, LiteralsFit, NamesFit, value-fits,
}

neg_within : (v : ℤ) → in_signed 64 v ≡ true → in_signed 64 (neg_ℤ v) ≡ not (is_int64_min v)
neg_within (pos n) h = ground arith
neg_within (negsuc n) h = ground arith

quotient_within :
    (a b : ℤ)
    → in_signed 64 a ≡ true
    → is_zero b ≡ false
    → in_signed 64 (a /ℤ b) ≡ not (is_int64_min a && is_minus_one b)
quotient_within (pos a) (pos b) h z = ground (arith, div-le_self a b)
quotient_within (pos a) (negsuc b) h z = ground (arith, div-le_self a (suc b))
quotient_within (negsuc a) (pos b) h z = ground (arith, div-le_self (suc a) b)
quotient_within (negsuc a) (negsuc zero) h z = ground arith
quotient_within (negsuc a) (negsuc (suc b)) h z =
    let less : suc a / suc (suc b) < suc a = div-lt_self (omega arith) (omega arith) in ground arith

int_type_for-is_int : (v : ℤ) → is_int (int_type_for v) ≡ true
unfolding int_type_for
int_type_for-is_int (pos n) = ground arith
int_type_for-is_int (negsuc n) = ground arith

bind_none : {A B : Type 0} (m : Option A) → ◌≡◌ {A = Option B} (m >>=o λ _. none) none
bind_none none = refl
bind_none (some a) = refl

module _ {R : Type 0} (zero_real : R) (neg_real : R → R) where
  abbrev pub int_of : Sem (Const R) → Option ℤ
  int_of (ok c) = int_const c
  int_of (fatal _ _) = none

  const_int-int_of : (v : ℤ) → int_of (ok (const_int zero_real neg_real v)) ≡ some v
  unfolding const_int
  const_int-int_of v = rw (int_type_for-is_int v) refl

  negated-int_of :
      (loc : Loc) (ty : Ty) (r : R) → int_of (negated zero_real neg_real loc ty r) ≡ none
  unfolding negated const_real
  negated-int_of loc Ty.real r = refl
  negated-int_of loc _ r = refl

  const_un-exact :
      (loc : Loc) (op : Op) (c : Const R)
      → ((v : ℤ) → int_const c ≡ some v → in_signed 64 v ≡ true)
      → int_of (const_un zero_real neg_real loc op c) ≡ (int_const c >>=o value_un op)
  unfolding const_un const_int
  const_un-exact loc neg c fits = elim (Bool-cases (is_int c.ty)) [
    | inl i ↦
        let within = neg_within c.ival (fits c.ival (rw i refl)) in
        elim (Bool-cases (is_int64_min c.ival)) [
          | inl m ↦ rw (i, within, m) refl
          | inr m ↦ rw (i, within, m, int_type_for-is_int (neg_ℤ c.ival)) refl
        ]
    | inr n ↦ rw n (negated-int_of loc c.ty c.rval)
  ]
  const_un-exact loc _ c fits = sym (bind_none (int_const c))

  checked-exact : (loc : Loc) (v : ℤ) → int_of (checked zero_real neg_real loc v) ≡ within64 v
  unfolding checked
  checked-exact loc v = elim (Bool-cases (in_signed 64 v)) [
    | inl y ↦ rw y (const_int-int_of v)
    | inr n ↦ rw n refl
  ]

  const_arith-exact :
      (loc : Loc) (op : Op) (a b : ℤ)
      → in_signed 64 a ≡ true
      → int_of (const_arith zero_real neg_real loc op a b) ≡ value_bin op a b
  unfolding const_arith
  const_arith-exact loc add a b h = checked-exact loc (a +ℤ b)
  const_arith-exact loc sub a b h = checked-exact loc (a -ℤ b)
  const_arith-exact loc mul a b h = checked-exact loc (a *ℤ b)
  const_arith-exact loc idiv a b h = elim (Bool-cases (is_zero b)) [
    | inl z ↦ rw z refl
    | inr z ↦
        let within = quotient_within a b h z in
        elim (Bool-cases (is_int64_min a && is_minus_one b)) [
          | inl m ↦ rw (z, within, m) refl
          | inr m ↦ rw (z, within, m, const_int-int_of (a /ℤ b)) refl
        ]
  ]
  const_arith-exact loc _ a b h = refl

  const_bin-exact :
      (loc : Loc) (op : Op) (a b : Const R)
      → ((v : ℤ) → int_const a ≡ some v → in_signed 64 v ≡ true)
      → int_of (const_bin zero_real neg_real loc op a b)
        ≡ (int_const a >>=o λ u. int_const b >>=o value_bin op u)
  unfolding const_bin
  const_bin-exact loc op a b fits = elim (Bool-cases (is_int a.ty)) [
    | inr n ↦ rw n refl
    | inl i ↦ elim (Bool-cases (is_int b.ty)) [
      | inr n ↦ rw (i, n) refl
      | inl j ↦ rw (i, j) (const_arith-exact loc op a.ival b.ival (fits a.ival (rw i refl)))
    ]
  ]

  const_found-exact :
      (loc : Loc) (n : Bytes) (s : Option (Sym (SymInfo R)))
      → int_of (const_found zero_real neg_real loc n s) ≡ named s
  unfolding const_found
  const_found-exact loc n none = refl
  const_found-exact loc n (some s) = by_info s.info
    where
      by_info :
          (i : SymInfo R)
          → int_of (elim i [ const c ↦ ok c | _ ↦ fatal loc (not_constant n) ])
            ≡ elim i [ const c ↦ int_const c | _ ↦ none ]
      by_info (const c) = refl
      by_info _ = refl

  -- An operator on an operand whose integer, if it is one, is `o`.
  un-exact :
      (loc : Loc) (op : Op) (m : Sem (Const R)) (o : Option ℤ)
      → int_of m ≡ o
      → ((v : ℤ) → o ≡ some v → in_signed 64 v ≡ true)
      → int_of (m >>= const_un zero_real neg_real loc op) ≡ (o >>=o value_un op)
  un-exact loc op (ok c) o e fits = rw (← e) (const_un-exact loc op c (λ v h. fits v (sym e ∙ h)))
  un-exact loc op (fatal _ _) o e fits = rw (← e) refl

  bin-exact :
      (loc : Loc) (op : Op) (m n : Sem (Const R)) (o p : Option ℤ)
      → int_of m ≡ o
      → int_of n ≡ p
      → ((v : ℤ) → o ≡ some v → in_signed 64 v ≡ true)
      → int_of (m >>= λ a. n >>= λ b. const_bin zero_real neg_real loc op a b)
        ≡ (o >>=o λ u. p >>=o value_bin op u)
  bin-exact loc op (ok a) (ok b) o p e f fits =
      rw (← e, ← f) (const_bin-exact loc op a b (λ v h. fits v (sym e ∙ h)))
  bin-exact loc op (ok a) (fatal _ _) o p e f fits = rw (← f) (sym (bind_none o))
  bin-exact loc op (fatal _ _) n o p e f fits = rw (← e) refl

  module _ (scopes : Scopes (SymInfo R)) (names : NamesFit scopes) where
    -- The outcome of a constant expression, of integers or of others: where const_eval gives an
    -- integer constant, that is the expression's value in the integers, with no operation's
    -- result outside of INTEGER64; where it gives an error, a real, a character or a string,
    -- there is no such value. The literals and the constants in scope are INTEGER64s.
    pub const_eval-exact :
        (e : Expr R)
        → LiteralsFit e
        → int_of (const_eval zero_real neg_real scopes e) ≡ value scopes e
    unfolding const_eval const_real
    const_eval-exact (un loc op x) l =
        un-exact loc op (const_eval zero_real neg_real scopes x) (value scopes x)
          (const_eval-exact x l) (value-fits scopes names x l)
    const_eval-exact (bin loc op x y) l =
        bin-exact loc op (const_eval zero_real neg_real scopes x)
          (const_eval zero_real neg_real scopes y) (value scopes x) (value scopes y)
          (const_eval-exact x l.0) (const_eval-exact y l.1) (value-fits scopes names x l.0)
    const_eval-exact (name loc n) l = const_found-exact loc n (lookup scopes n)
    const_eval-exact (int loc v) l = const_int-int_of v
    const_eval-exact _ l = refl
