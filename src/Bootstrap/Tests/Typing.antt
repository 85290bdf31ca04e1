-- ===== src/Bootstrap/Tests/Typing.antt =====
-- Runs of the type expressions of bootstrap/sem.c, and instances of the theorems about them.
use native_pascal.Prelude.{
  ℕ, suc, true, ◌==◌, if◌then◌else◌, arith, ◌≡◌, ◌↔◌, refl, List, [], ◌∷◌, none, some, Option,
  get_elem?,
}
use native_pascal.Prelude.Int.{pos}
use native_pascal.Prelude.Memory.{Bytes}
use native_pascal.Bootstrap.Token.{Loc}
use native_pascal.Bootstrap.Tree.{TypeExpr, no_fields}
use native_pascal.Bootstrap.Scopes.{find_in, define_in, lookup}
use native_pascal.Bootstrap.Types.{Ty, integer, integer64, clong, SymInfo, Sem, ok, fatal, ◌>>=◌}
use native_pascal.Bootstrap.Resolve.{
  TypeState, Pending, same_ref, array_of, resolve_type, resolve_pending_pointers, set_target,
  point_to, declared_in,
}
use native_pascal.Bootstrap.Resolve.Cycles.{chase, Returns, resolve_pending_pointers_iff}
use native_pascal.Bootstrap.Resolve.Same.{same_type}
use native_pascal.Bootstrap.Resolve.Same.Forms.{Form, Bits, Row, HasForm}
use native_pascal.Bootstrap.Resolve.Same.Decides.{Decided, same_type-Decided}
use native_pascal.Bootstrap.Resolve.Interning.{start, resolves, array_of-interned}

abbrev here : Loc
here = record { file = []; line = 1 }

abbrev empty : TypeState ℕ
empty = record {
  innermost = λ _. [];
  outer = [];
  next_type_id = 1;
  lstr_types = [];
  array_types = [];
  fields = [];
  targets = λ _. none;
  pending_ptrs = [];
  later = [];
}

abbrev one_to_three : TypeState ℕ
one_to_three = record empty {
  next_type_id = 2;
  array_types = record { id = 1; lo = pos 1; hi = pos 3; elem = Ty.int integer } ∷ [];
}

-- ARRAY [1..3] OF INTEGER, then a RECORD, then the array again.
array_of-interned_example :
    array_of
      (pos 1)
      (pos 3)
      (Ty.int integer)
      here
      (record one_to_three { next_type_id = 3; fields = (2, []) ∷ [] })
    ≡ ok (
      Ty.array 1 (pos 1) (pos 3) (Ty.int integer),
      record one_to_three { next_type_id = 3; fields = (2, []) ∷ [] },
    )
unfolding array_of resolve_type
array_of-interned_example =
    array_of-interned 0 (λ r. r) empty (pos 1) (pos 3) (Ty.int integer) here here refl
      (resolves start (TypeExpr.record_of here no_fields) refl)

-- TYPE A = ^B; C = ^A; B = ^C. The three declarations in turn.
abbrev declare : Bytes → TypeExpr ℕ → List Bytes → TypeState ℕ → Sem (TypeState ℕ)
declare n te later st = resolve_type 0 (λ r. r) te (record st { later = later }) >>= λ (t, st2).
    ok (record st2 {
      innermost = define_in (record { name = n; info = SymInfo.type t }) st2.innermost;
      later = [];
    })

abbrev a : Bytes
a = b'a' ∷ []

abbrev b : Bytes
b = b'b' ∷ []

abbrev c : Bytes
c = b'c' ∷ []

abbrev section : Sem (TypeState ℕ)
section =
    declare a (TypeExpr.pointer here b) (a ∷ c ∷ b ∷ []) empty
    >>= declare c (TypeExpr.pointer here a) (c ∷ b ∷ [])
    >>= declare b (TypeExpr.pointer here c) (b ∷ [])

-- What a pointer's target leads to, by `k` steps, after a section.
abbrev leads : ℕ → ℕ → Sem (TypeState ℕ) → Option Ty
leads k id (ok st) = chase k st.targets (st.targets id)
leads k id (fatal _ _) = none

-- A cycle of three pointers with one of them pending is not refused.
long_cycle : leads 2 1 (section >>= resolve_pending_pointers) ≡ some (Ty.ptr 1)
unfolding resolve_pending_pointers resolve_type point_to declared_in define_in find_in lookup
long_cycle = refl

-- TYPE P = ^Q; Q = ^P, where both wait.
abbrev pair : TypeState ℕ
pair = record empty {
  innermost = λ _.
      record { name = a; info = SymInfo.type (Ty.ptr 1) }
      ∷ record { name = b; info = SymInfo.type (Ty.ptr 2) }
      ∷ [];
  pending_ptrs =
      record { id = 1; name = b; loc = here } ∷ record { id = 2; name = a; loc = here } ∷ [];
}

-- The targets that the two pointers get.
abbrev turned : ℕ → Option Ty
turned = set_target 2 (Ty.ptr 1) (set_target 1 (Ty.ptr 2) (λ _. none))

resolve_pending_pointers_iff_example :
    (resolve_pending_pointers pair ≡ ok (record pair { targets = turned; pending_ptrs = [] }))
    ↔ ((i : ℕ) (p : Pending) → get_elem? pair.pending_ptrs i ≡ some p → ¬ (Returns 2 turned p.id))
unfolding resolve_pending_pointers lookup find_in
resolve_pending_pointers_iff_example = resolve_pending_pointers_iff pair turned refl

-- ARRAY [0..9] OF ^INTEGER64 and ARRAY [0..9] OF ^CLONG, with the pointers at 2 and 4.
abbrev of_pointers : ℕ → Ty
of_pointers i = Ty.array i (pos 0) (pos 9) (Ty.ptr (suc i))

abbrev to_integers : ℕ → Option Ty
to_integers i = if i == 2 then some (Ty.int integer64) else some (Ty.int clong)

abbrev ten_pointers : ℕ → Option Row
ten_pointers i = some (record { lo = pos 0; hi = pos 9; elem = Ty.ptr (suc i) })

abbrev ten_words : Form
ten_words = Form.row (pos 0) (pos 9) (Form.pointer (Form.bits 64))

same_type-Decided_example :
    Decided ten_words ten_words (same_type 3 to_integers (of_pointers 1) (of_pointers 3))
same_type-Decided_example =
    same_type-Decided ten_pointers to_integers 3 (of_pointers 1) (of_pointers 3) ten_words ten_words
      (HasForm.array refl (HasForm.ptr refl (HasForm.int Bits.integer64)))
      (HasForm.array refl (HasForm.ptr refl (HasForm.int Bits.clong))) (omega arith)

same_pointers : same_type 3 to_integers (of_pointers 1) (of_pointers 3) ≡ some true
unfolding same_type same_ref
same_pointers = refl
