-- ===== src/Bootstrap/Resolve.antt =====
-- bootstrap/sem.c: type expressions. LSTRING and ARRAY types are interned, the target of a pointer
-- to a later type is filled in at the end of the TYPE section.
pub mod Cycles
pub mod Interning
pub mod Same
use native_pascal.Prelude.{
  ℕ, zero, suc, ◌+◌, ◌-◌, ◌%◌, ◌^◌, Bool, true, false, not, ◌&&◌, ◌||◌, ltb, ◌==◌, if◌then◌else◌,
  List, [], ◌∷◌, ◌++◌, Option, none, some, length,
}
use native_pascal.Prelude.Int.{ℤ, pos, negsuc, ltb_ℤ, ◌-ℤ◌}
use native_pascal.Prelude.Memory.{Bytes}
use native_pascal.Bootstrap.Chars.{same_text}
use native_pascal.Bootstrap.Token.{Loc}
use native_pascal.Bootstrap.Ast.{Expr}
use native_pascal.Bootstrap.Tree.{
  TypeExpr, Fields, named, pointer, lstring, array, record_of, enum, no_fields, group,
}
use native_pascal.Bootstrap.Scopes.{Sym, Scope, Scopes, find_in, define_in, lookup}
use native_pascal.Bootstrap.Types.{
  Ty, IntName, integer, integer32, cint, integer64, clong, csize_t, Const, SymInfo, const, type,
  Sem, ok, fatal, undeclared_type, not_type, duplicate_identifier, bad_capacity, empty_bounds,
  duplicate_field, undeclared_target, pointer_cycle, ◌>>=◌,
}
use native_pascal.Bootstrap.Constants.{const_int_value}

abbrev pub int_rank : IntName → ℕ
int_rank integer = 0
int_rank integer32 = 1
int_rank cint = 2
int_rank integer64 = 3
int_rank clong = 4
int_rank csize_t = 5

abbrev pub same_int : ℤ → ℤ → Bool
same_int (pos a) (pos b) = a == b
same_int (negsuc a) (negsuc b) = a == b
same_int _ _ = false

-- `a == b` on types: they stand at one address.
unfoldable pub same_ref : Ty → Ty → Bool
same_ref (Ty.int a) (Ty.int b) = int_rank a == int_rank b
same_ref (Ty.enum i _) (Ty.enum j _) = i == j
same_ref (Ty.lstring a) (Ty.lstring b) = same_int a b
same_ref (Ty.array i _ _ _) (Ty.array j _ _ _) = i == j
same_ref (Ty.record_of i) (Ty.record_of j) = i == j
same_ref (Ty.ptr i) (Ty.ptr j) = i == j
same_ref Ty.real Ty.real = true
same_ref Ty.bool Ty.bool = true
same_ref Ty.char Ty.char = true
same_ref Ty.adrmem Ty.adrmem = true
same_ref Ty.nil Ty.nil = true
same_ref Ty.strlit Ty.strlit = true
same_ref Ty.void Ty.void = true
same_ref _ _ = false

-- An entry of `array_types`.
pub record ArrayType : Type 0 where
  pub id : ℕ
  pub lo : ℤ
  pub hi : ℤ
  pub elem : Ty

abbrev pub array_ty : ArrayType → Ty
array_ty a = Ty.array a.id a.lo a.hi a.elem

pub record Field : Type 0 where
  pub name : Bytes
  pub ty : Ty

-- An entry of `pending_ptrs`.
pub record Pending : Type 0 where
  pub id : ℕ
  pub name : Bytes
  pub loc : Loc

-- The state that type expressions change. `later` has the names of the TYPE section from
-- `section_pos` on; outside of a section it is empty. `sem_init` pushes the first scope.
pub record TypeState (R : Type 0) : Type 0 where
  pub innermost : Scope (SymInfo R)
  pub outer : Scopes (SymInfo R)
  pub next_type_id : ℕ
  pub lstr_types : List ℤ
  pub array_types : List ArrayType
  pub fields : List (ℕ × List Field)
  pub targets : ℕ → Option Ty
  pub pending_ptrs : List Pending
  pub later : List Bytes

-- `(int) v` of an int64_t.
unfoldable pub to_int : ℤ → ℤ
to_int v =
    let w : ℕ = elim v [ pos n ↦ n % 2 ^ 32 | negsuc n ↦ 2 ^ 32 - 1 - n % 2 ^ 32 ] in
    if ltb w (2 ^ 31) then pos w else negsuc (2 ^ 32 - 1 - w)

-- The loops of `lstring_of` and `array_of`.
pub has_cap : ℤ → List ℤ → Bool
has_cap cap [] = false
has_cap cap (c ∷ cs) = if same_int c cap then true else has_cap cap cs

pub find_array : ℤ → ℤ → Ty → List ArrayType → Option ArrayType
find_array lo hi elem [] = none
find_array lo hi elem (a ∷ rest) =
    if same_int a.lo lo && same_int a.hi hi && same_ref a.elem elem
    then some a
    else find_array lo hi elem rest

-- The loop of `declared_later_in_section`.
unfoldable pub declared_in : List Bytes → Bytes → Bool
declared_in [] name = false
declared_in (n ∷ ns) name = if same_text n name then true else declared_in ns name

unfoldable pub set_target : ℕ → Ty → (ℕ → Option Ty) → ℕ → Option Ty
set_target id t targets j = if j == id then some t else targets j

-- The inner loops of TE_RECORD, over the names of one group.
pub has_field : List Field → Bytes → Bool
has_field [] name = false
has_field (f ∷ fs) name = if same_text f.name name then true else has_field fs name

unfoldable pub add_fields : Loc → Ty → List Bytes → List Field → Sem (List Field)
unfolding has_field
add_fields loc t [] fs = ok fs
add_fields loc t (n ∷ ns) fs =
    let rest = add_fields loc t ns (fs ++ record { name = n; ty = t } ∷ []) in
    if has_field fs n then fatal loc (duplicate_field n) else rest

module _ {R : Type 0} where
  unfoldable pub lstring_of : ℤ → Loc → TypeState R → Sem (Ty × TypeState R)
  unfolding has_cap
  lstring_of cap loc st =
      if ltb_ℤ cap (pos 1) || ltb_ℤ (pos 255) cap
      then fatal loc (bad_capacity cap)
      else if has_cap cap st.lstr_types
      then ok (Ty.lstring cap, st)
      else ok (
        Ty.lstring cap,
        record st { lstr_types = st.lstr_types ++ cap ∷ []; next_type_id = suc st.next_type_id },
      )

  -- What `array_of` makes where it finds none.
  pub new_array : ℤ → ℤ → Ty → TypeState R → Ty × TypeState R
  new_array lo hi elem st =
      let a : ArrayType = record { id = st.next_type_id; lo = lo; hi = hi; elem = elem } in
      (
        array_ty a,
        record st { array_types = st.array_types ++ a ∷ []; next_type_id = suc st.next_type_id },
      )

  unfoldable pub array_of : ℤ → ℤ → Ty → Loc → TypeState R → Sem (Ty × TypeState R)
  unfolding find_array new_array
  array_of lo hi elem loc st =
      if ltb_ℤ hi lo
      then fatal loc (empty_bounds lo hi)
      else elim (find_array lo hi elem st.array_types) [
        | some a ↦ ok (array_ty a, st)
        | none ↦ ok (new_array lo hi elem st)
      ]

  abbrev pub all_scopes : TypeState R → Scopes (SymInfo R)
  all_scopes st = st.innermost ∷ st.outer

  -- TE_NAME, for what its name has been found to be.
  unfoldable pub named_ty : Loc → Bytes → Option (Sym (SymInfo R)) → Sem Ty
  named_ty loc n none = fatal loc (undeclared_type n)
  named_ty loc n (some s) = elim s.info [ type t ↦ ok t | _ ↦ fatal loc (not_type n) ]

  -- `s && s->kind == SY_TYPE`, and its type.
  unfoldable pub found_type : Option (Sym (SymInfo R)) → Option Ty
  found_type none = none
  found_type (some s) = elim s.info [ type t ↦ some t | _ ↦ none ]

  -- TE_POINTER, for what its name has been found to be.
  unfoldable pub point_to : Loc → Bytes → Option (Sym (SymInfo R)) → TypeState R → Ty × TypeState R
  unfolding set_target found_type
  point_to loc n found st =
      let id = st.next_type_id in
      (
        Ty.ptr id,
        elim (found_type found) [
          | some t ↦ record st { next_type_id = suc id; targets = set_target id t st.targets }
          | none ↦ record st {
            next_type_id = suc id;
            pending_ptrs = st.pending_ptrs ++ record { id = id; name = n; loc = loc } ∷ [];
          }
        ],
      )

  module _ (zero_real : R) (neg_real : R → R) where
    -- The loop of TE_ENUM, from the member `i` on.
    pub define_members : Ty → Loc → ℕ → List Bytes → Scope (SymInfo R) → Sem (Scope (SymInfo R))
    define_members t loc i [] sc = ok sc
    define_members t loc i (n ∷ ns) sc =
        let c : Const R = record { ty = t; ival = pos i; rval = zero_real; sval = [] } in
        let rest =
          define_members t loc (suc i) ns
            (define_in (record { name = n; info = SymInfo.const c }) sc) in
        elim (find_in sc n) [ some _ ↦ fatal loc (duplicate_identifier n) | none ↦ rest ]

    unfoldable pub enum_type : Loc → List Bytes → TypeState R → Sem (Ty × TypeState R)
    unfolding define_members
    enum_type loc names st =
        let t = Ty.enum st.next_type_id (pos (length names) -ℤ pos 1) in
        define_members t loc 0 names st.innermost >>= λ sc.
        ok (t, record st { innermost = sc; next_type_id = suc st.next_type_id })

    unfoldable mutual
      pub resolve_type : TypeExpr R → TypeState R → Sem (Ty × TypeState R)
      resolve_type (named loc n) st = named_ty loc n (lookup (all_scopes st) n) >>= λ t. ok (t, st)
      resolve_type (lstring loc lo) st =
          const_int_value zero_real neg_real (all_scopes st) lo >>= λ cap.
          lstring_of (to_int cap) loc st
      resolve_type (array loc lo hi elem) st =
          const_int_value zero_real neg_real (all_scopes st) lo >>= λ a.
          const_int_value zero_real neg_real (all_scopes st) hi >>= λ b.
          resolve_type elem st >>= λ (t, st2). array_of a b t loc st2
      resolve_type (record_of loc groups) st =
          resolve_fields groups [] (record st { next_type_id = suc st.next_type_id })
          >>= λ (fs, st2). ok (
            Ty.record_of st.next_type_id,
            record st2 { fields = (st.next_type_id, fs) ∷ st2.fields },
          )
      resolve_type (pointer loc n) st =
          let found = if declared_in st.later n then none else lookup (all_scopes st) n in
          ok (point_to loc n found st)
      resolve_type (enum loc names) st = enum_type loc names st

      -- The loop of TE_RECORD, with the fields so far.
      pub resolve_fields : Fields R → List Field → TypeState R → Sem (List Field × TypeState R)
      resolve_fields no_fields fs st = ok (fs, st)
      resolve_fields (group loc names te more) fs st = resolve_type te st >>= λ (t, st2).
          add_fields loc t names fs >>= λ fs2. resolve_fields more fs2 st2

  -- The first loop of `resolve_pending_pointers`.
  pub settle : Scopes (SymInfo R) → List Pending → (ℕ → Option Ty) → Sem (ℕ → Option Ty)
  unfolding set_target found_type
  settle scopes [] targets = ok targets
  settle scopes (p ∷ ps) targets = elim (found_type (lookup scopes p.name)) [
    | none ↦ fatal p.loc (undeclared_target p.name)
    | some t ↦ settle scopes ps (set_target p.id t targets)
  ]

-- The inner loop of the test for cycles, with the steps that are left: `u` leads to the pointer `t`.
pub leads_to : ℕ → (ℕ → Option Ty) → ℕ → Option Ty → Bool
leads_to zero targets t u = false
leads_to (suc steps) targets t (some (Ty.ptr j)) =
    if j == t then true else leads_to steps targets t (targets j)
leads_to (suc steps) targets t _ = false

-- The test for cycles: the first pending pointer that is on one.
pub find_cycle : ℕ → (ℕ → Option Ty) → List Pending → Option Pending
unfolding leads_to
find_cycle n targets [] = none
find_cycle n targets (p ∷ ps) =
    if leads_to (suc n) targets p.id (targets p.id) then some p else find_cycle n targets ps

module _ {R : Type 0} where
  unfoldable pub resolve_pending_pointers : TypeState R → Sem (TypeState R)
  unfolding settle find_cycle
  resolve_pending_pointers st = settle (all_scopes st) st.pending_ptrs st.targets >>= λ targets.
      elim (find_cycle (length st.pending_ptrs) targets st.pending_ptrs) [
        | some p ↦ fatal p.loc (pointer_cycle p.name)
        | none ↦ ok (record st { targets = targets; pending_ptrs = [] })
      ]
