-- ===== src/Bootstrap/Constants.antt =====
-- bootstrap/sem.c: constants.
pub mod Value
pub mod Exact
use native_pascal.Prelude.{
  ℕ, zero, suc, ◌^◌, ◌-◌, Bool, true, false, not, ◌&&◌, ◌||◌, ltb, leb, Option, none, some, ◌==◌,
  if◌then◌else◌, [],
}
use native_pascal.Prelude.Int.{ℤ, pos, negsuc, neg_ℤ, ◌+ℤ◌, ◌-ℤ◌, ◌*ℤ◌, ◌/ℤ◌}
use native_pascal.Prelude.Memory.{Bytes}
use native_pascal.Bootstrap.Token.{Loc}
use native_pascal.Bootstrap.Ast.{
  Op, add, sub, mul, rdiv, idiv, modulo, and, or, and_then, neg, Expr, int, real, str, char, name,
  adr, call, index, field, deref, bin, un, loc_of,
}
use native_pascal.Bootstrap.Scopes.{Sym, Scopes, lookup}
use native_pascal.Bootstrap.Types.{
  Ty, integer, integer32, integer64, strlit, is_int, Const, SymInfo, const, type, Sem, ok, fatal,
  undeclared, not_constant, overflows_integer64, division_by_zero, unsupported_form,
  unsupported_operator, non_integer_arithmetic, char_bound, integer_expected, ◌>>=◌,
}

-- INT64_MIN ≤ v ≤ INT64_MAX, and other such ranges.
abbrev pub in_signed : ℕ → ℤ → Bool
in_signed w (pos n) = ltb n (2 ^ (w - 1))
in_signed w (negsuc n) = ltb n (2 ^ (w - 1))

-- -32768 is no INTEGER.
pub int_type_for : ℤ → Ty
int_type_for (pos n) =
    if leb n 32767
    then Ty.int integer
    else if in_signed 32 (pos n)
    then Ty.int integer32
    else Ty.int integer64
int_type_for (negsuc n) =
    if leb (suc n) 32767
    then Ty.int integer
    else if in_signed 32 (negsuc n)
    then Ty.int integer32
    else Ty.int integer64

abbrev int64_min : ℤ
int64_min = negsuc (2 ^ 63 - 1)

abbrev pub is_int64_min : ℤ → Bool
is_int64_min (pos n) = false
is_int64_min (negsuc n) = n == 2 ^ 63 - 1

abbrev pub is_zero : ℤ → Bool
is_zero (pos n) = n == 0
is_zero (negsuc n) = false

abbrev pub is_minus_one : ℤ → Bool
is_minus_one (pos n) = false
is_minus_one (negsuc n) = n == 0

-- A real is what `double` holds, with the zero that a fresh symbol has and C's negation.
module _ {R : Type 0} (zero_real : R) (neg_real : R → R) where
  pub const_int : ℤ → Const R
  unfolding int_type_for
  const_int v = record { ty = int_type_for v; ival = v; rval = zero_real; sval = [] }

  pub const_real : R → Const R
  const_real r = record { ty = Ty.real; ival = pos 0; rval = r; sval = [] }

  -- `__builtin_add_overflow` and its like: the exact result, unless it is outside of INTEGER64.
  pub checked : Loc → ℤ → Sem (Const R)
  unfolding const_int
  checked loc v = if in_signed 64 v then ok (const_int v) else fatal loc overflows_integer64

  -- The real case of OP_NEG, or none.
  pub negated : Loc → Ty → R → Sem (Const R)
  unfolding const_real
  negated loc Ty.real r = ok (const_real (neg_real r))
  negated loc _ r = fatal loc unsupported_form

  pub const_un : Loc → Op → Const R → Sem (Const R)
  unfolding const_int negated
  const_un loc neg a =
      if is_int a.ty
      then (if is_int64_min a.ival
          then fatal loc overflows_integer64
          else ok (const_int (neg_ℤ a.ival)))
      else negated loc a.ty a.rval
  const_un loc _ a = fatal loc unsupported_form

  pub const_arith : Loc → Op → ℤ → ℤ → Sem (Const R)
  unfolding checked
  const_arith loc add a b = checked loc (a +ℤ b)
  const_arith loc sub a b = checked loc (a -ℤ b)
  const_arith loc mul a b = checked loc (a *ℤ b)
  const_arith loc idiv a b =
      if is_zero b
      then fatal loc division_by_zero
      else if is_int64_min a && is_minus_one b
      then fatal loc overflows_integer64
      else ok (const_int (a /ℤ b))
  const_arith loc _ a b = fatal loc unsupported_operator

  pub const_bin : Loc → Op → Const R → Const R → Sem (Const R)
  unfolding const_arith
  const_bin loc op a b =
      if not (is_int a.ty) || not (is_int b.ty)
      then fatal loc non_integer_arithmetic
      else const_arith loc op a.ival b.ival

  -- What a name has been found to be.
  pub const_found : Loc → Bytes → Option (Sym (SymInfo R)) → Sem (Const R)
  const_found loc n none = fatal loc (undeclared n)
  const_found loc n (some s) = elim s.info [ const c ↦ ok c | _ ↦ fatal loc (not_constant n) ]

  module _ (scopes : Scopes (SymInfo R)) where
    unfoldable pub const_eval : Expr R → Sem (Const R)
    unfolding const_int const_real lookup const_found const_un const_bin
    const_eval (int loc v) = ok (const_int v)
    const_eval (real loc r) = ok (const_real r)
    const_eval (char loc c) =
        ok (record { ty = Ty.char; ival = pos c; rval = zero_real; sval = [] })
    const_eval (str loc s) = ok (record { ty = strlit; ival = pos 0; rval = zero_real; sval = s })
    const_eval (name loc n) = const_found loc n (lookup scopes n)
    const_eval (un loc op e) = const_eval e >>= const_un loc op
    const_eval (bin loc op e f) = const_eval e >>= λ a. const_eval f >>= λ b. const_bin loc op a b
    const_eval (adr loc _) = fatal loc unsupported_form
    const_eval (call loc _ _) = fatal loc unsupported_form
    const_eval (index loc _ _) = fatal loc unsupported_form
    const_eval (field loc _ _) = fatal loc unsupported_form
    const_eval (deref loc _) = fatal loc unsupported_form

    unfoldable pub const_int_value : Expr R → Sem ℤ
    unfolding const_eval
    const_int_value e = const_eval e >>= λ s. elim s.ty [
      | Ty.int _ ↦ ok s.ival
      | Ty.enum _ _ ↦ ok s.ival
      | Ty.char ↦ fatal (loc_of e) char_bound
      | _ ↦ fatal (loc_of e) integer_expected
    ]
