-- ===== src/Bootstrap/Constants/Value.antt =====
-- What an integer constant of bootstrap/sem.c denotes: arithmetic on the integers, each result of
-- which has to be an INTEGER64.
use native_pascal.Prelude.{◌≡◌, Option, none, some, if◌then◌else◌, true, Bool-cases, inl, inr}
use native_pascal.Prelude.Int.{ℤ, neg_ℤ, ◌+ℤ◌, ◌-ℤ◌, ◌*ℤ◌, ◌/ℤ◌}
use native_pascal.Prelude.Memory.{Bytes, ◌>>=◌}
use native_pascal.Bootstrap.Ast.{Op, add, sub, mul, idiv, neg, Expr, int, name, bin, un}
use native_pascal.Bootstrap.Scopes.{Sym, Scopes, lookup}
use native_pascal.Bootstrap.Types.{is_int, Const, SymInfo, const}
use native_pascal.Bootstrap.Constants.{in_signed, is_zero}

abbrev pub within64 : ℤ → Option ℤ
within64 v = if in_signed 64 v then some v else none

-- The exact value of an operator on two integers, where it has one.
abbrev pub exact : Op → ℤ → ℤ → Option ℤ
exact add a b = some (a +ℤ b)
exact sub a b = some (a -ℤ b)
exact mul a b = some (a *ℤ b)
exact idiv a b = if is_zero b then none else some (a /ℤ b)
exact _ a b = none

abbrev pub value_un : Op → ℤ → Option ℤ
value_un neg v = within64 (neg_ℤ v)
value_un _ v = none

abbrev pub value_bin : Op → ℤ → ℤ → Option ℤ
value_bin op a b = exact op a b >>= within64

abbrev pub int_const : {R : Type 0} → Const R → Option ℤ
int_const c = if is_int c.ty then some c.ival else none

-- The integer that a name stands for.
abbrev pub named : {R : Type 0} → Option (Sym (SymInfo R)) → Option ℤ
named none = none
named (some s) = elim s.info [ const c ↦ int_const c | _ ↦ none ]

abbrev pub value : {R : Type 0} → Scopes (SymInfo R) → Expr R → Option ℤ
value scopes (int _ v) = some v
value scopes (name _ n) = named (lookup scopes n)
value scopes (un _ op e) = value scopes e >>= value_un op
value scopes (bin _ op e f) = value scopes e >>= λ a. value scopes f >>= value_bin op a
value scopes _ = none

-- The integers of an expression's literals and of the constants in scope are INTEGER64s, as the
-- fields that hold them are.
abbrev pub LiteralsFit : {R : Type 0} → Expr R → Type 0
LiteralsFit (int _ v) = in_signed 64 v ≡ true
LiteralsFit (un _ op e) = LiteralsFit e
LiteralsFit (bin _ op e f) = LiteralsFit e × LiteralsFit f
LiteralsFit _ = Unit

abbrev pub NamesFit : {R : Type 0} → Scopes (SymInfo R) → Type 0
NamesFit scopes = (n : Bytes) (v : ℤ) → named (lookup scopes n) ≡ some v → in_signed 64 v ≡ true

within64-fits : (u v : ℤ) → within64 u ≡ some v → in_signed 64 v ≡ true
within64-fits u v e = elim (Bool-cases (in_signed 64 u)) [
  | inl y ↦ let same : u ≡ v = cc (rw y at e) in rw (← same) y
  | inr n ↦ absurd (cc (rw n at e))
]

bind-fits :
    {A : Type 0} (m : Option A) (f : A → Option ℤ) (v : ℤ)
    → ((a : A) → f a ≡ some v → in_signed 64 v ≡ true)
    → (m >>= f) ≡ some v
    → in_signed 64 v ≡ true
bind-fits none f v h e = absurd (cc)
bind-fits (some a) f v h e = h a e

value_un-fits : (op : Op) (u v : ℤ) → value_un op u ≡ some v → in_signed 64 v ≡ true
value_un-fits neg u v e = within64-fits (neg_ℤ u) v e
value_un-fits _ u v e = absurd (cc)

value_bin-fits : (op : Op) (a b v : ℤ) → value_bin op a b ≡ some v → in_signed 64 v ≡ true
value_bin-fits op a b v = bind-fits (exact op a b) within64 v (λ u. within64-fits u v)

pub value-fits :
    {R : Type 0} (scopes : Scopes (SymInfo R))
    → NamesFit scopes
    → (e : Expr R) → LiteralsFit e
    → (v : ℤ) → value scopes e ≡ some v
    → in_signed 64 v ≡ true
value-fits scopes names (int _ u) l v e = let same : u ≡ v = cc in rw (← same) l
value-fits scopes names (name _ n) l v e = names n v e
value-fits scopes names (un _ op x) l v e =
    bind-fits (value scopes x) (value_un op) v (λ u. value_un-fits op u v) e
value-fits scopes names (bin _ op x y) l v e =
    bind-fits (value scopes x) (λ a. value scopes y >>= value_bin op a) v
      (λ a. bind-fits (value scopes y) (value_bin op a) v (λ b. value_bin-fits op a b v)) e
value-fits scopes names _ l v e = absurd (cc)
