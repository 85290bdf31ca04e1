-- ===== src/Bootstrap/Resolve/Same/Forms.antt =====
-- The structure of a type, with the addresses of arrays and pointers forgotten.
use native_pascal.Prelude.{ℕ, suc, ◌≡◌, Option, none, some}
use native_pascal.Prelude.Int.{ℤ}
use native_pascal.Bootstrap.Types.{Ty, IntName}

-- Integers of a width, texts of a capacity, rows with their bounds, and pointers. Enumerations and
-- records have their declaration for a structure, and pointers without a target their address.
pub data Form : Type 0 where
  bits : ℕ → Form
  text : ℤ → Form
  row : ℤ → ℤ → Form → Form
  pointer : Form → Form
  dangling : ℕ → Form
  members : ℕ → Form
  fields : ℕ → Form
  real bool char adrmem nil strlit void : Form

-- The widths of the integer types, by docs/dialect_notes.md and docs/bootstrap_subset.md.
pub data Bits : IntName → ℕ → Type 0 where
  integer : Bits IntName.integer 16
  integer32 : Bits IntName.integer32 32
  cint : Bits IntName.cint 32
  integer64 : Bits IntName.integer64 64
  clong : Bits IntName.clong 64
  csize_t : Bits IntName.csize_t 64

-- What stands at the address of an array type.
pub record Row : Type 0 where
  pub lo : ℤ
  pub hi : ℤ
  pub elem : Ty

-- The form of a type; `rows` has the array types by address, `targets` those of pointers. A type
-- that leads to itself through pointers has no form.
pub data HasForm (rows : ℕ → Option Row) (targets : ℕ → Option Ty) : Ty → Form → Type 0 where
  int : {n : IntName} {w : ℕ} → Bits n w → HasForm rows targets (Ty.int n) (bits w)
  lstring : {cap : ℤ} → HasForm rows targets (Ty.lstring cap) (text cap)
  array :
      {i : ℕ} {lo hi : ℤ} {e : Ty} {f : Form}
      → rows i ≡ some (record { lo = lo; hi = hi; elem = e })
      → HasForm rows targets e f
      → HasForm rows targets (Ty.array i lo hi e) (row lo hi f)
  ptr :
      {i : ℕ} {t : Ty} {f : Form}
      → targets i ≡ some t
      → HasForm rows targets t f
      → HasForm rows targets (Ty.ptr i) (pointer f)
  no_target : {i : ℕ} → targets i ≡ none → HasForm rows targets (Ty.ptr i) (Form.dangling i)
  enum : {i : ℕ} {hi : ℤ} → HasForm rows targets (Ty.enum i hi) (members i)
  record_of : {i : ℕ} → HasForm rows targets (Ty.record_of i) (fields i)
  real : HasForm rows targets Ty.real Form.real
  bool : HasForm rows targets Ty.bool Form.bool
  char : HasForm rows targets Ty.char Form.char
  adrmem : HasForm rows targets Ty.adrmem Form.adrmem
  nil : HasForm rows targets Ty.nil Form.nil
  strlit : HasForm rows targets Ty.strlit Form.strlit
  void : HasForm rows targets Ty.void Form.void

-- How deep a form is.
abbrev pub depth : Form → ℕ
depth (row lo hi f) = suc (depth f)
depth (pointer f) = suc (depth f)
depth _ = 1
