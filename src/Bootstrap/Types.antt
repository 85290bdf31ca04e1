-- ===== src/Bootstrap/Types.antt =====
-- bootstrap/pasboot.h and bootstrap/sem.c: types, symbols and the errors of sem.c. A type is the
-- value of its fields that never change. A type that the code tells apart by its address carries
-- its `id`, and a pointer's target, which is filled in late, is looked up by that of the pointer.
use native_pascal.Prelude.{ℕ, Bool, true, false}
use native_pascal.Prelude.Int.{ℤ}
use native_pascal.Prelude.Memory.{Bytes}
use native_pascal.Bootstrap.Token.{Loc}

-- The predefined integer types of `sem_init`.
pub data IntName : Type 0 where
  integer integer32 cint integer64 clong csize_t : IntName

pub data Ty : Type 0 where
  int : IntName → Ty
  real bool char adrmem nil strlit void : Ty
  enum : (id : ℕ) (hi : ℤ) → Ty
  lstring : (cap : ℤ) → Ty
  array : (id : ℕ) (lo hi : ℤ) (elem : Ty) → Ty
  record_of : (id : ℕ) → Ty
  ptr : (id : ℕ) → Ty

abbrev pub width : IntName → ℕ
width integer = 16
width integer32 = 32
width cint = 32
width integer64 = 64
width clong = 64
width csize_t = 64

abbrev pub is_int : Ty → Bool
is_int (int _) = true
is_int _ = false

-- A symbol of a constant: the fields of `struct Sym` that constants use.
pub record Const (R : Type 0) : Type 0 where
  pub ty : Ty
  pub ival : ℤ
  pub rval : R
  pub sval : Bytes

-- The rest of `struct Sym`, for each kind. Variables and routines belong to emit.c.
pub data SymInfo (R : Type 0) : Type 0 where
  const : Const R → SymInfo R
  type : Ty → SymInfo R
  var routine : SymInfo R

-- The messages of `fatal` and `unsupported` in sem.c.
pub data Message : Type 0 where
  undeclared not_constant undeclared_type not_type duplicate_identifier : Bytes → Message
  overflows_integer64 division_by_zero unsupported_form unsupported_operator : Message
  non_integer_arithmetic char_bound integer_expected : Message
  bad_capacity : ℤ → Message
  empty_bounds : ℤ → ℤ → Message
  duplicate_field undeclared_target pointer_cycle : Bytes → Message

pub data Sem (A : Type 0) : Type 0 where
  ok : A → Sem A
  fatal : Loc → Message → Sem A

infixl 5 ◌>>=◌
abbrev pub ◌>>=◌ : {A B : Type 0} → Sem A → (A → Sem B) → Sem B
ok a >>= f = f a
fatal loc m >>= f = fatal loc m
