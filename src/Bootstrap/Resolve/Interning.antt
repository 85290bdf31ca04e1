-- ===== src/Bootstrap/Resolve/Interning.antt =====
-- bootstrap/sem.c: array types are interned.
use native_pascal.Prelude.{
  ℕ, suc, true, false, ◌&&◌, ◌||◌, ◌≡◌, refl, subst, arith, Bool-cases, Option-cases, inl, inr,
  Option, none, some, List, [], ◌∷◌, ◌++◌, length,
}
use native_pascal.Prelude.Int.{ℤ, pos, negsuc, ltb_ℤ}
use native_pascal.Prelude.Memory.{Bytes}
use native_pascal.Bootstrap.Token.{Loc}
use native_pascal.Bootstrap.Scopes.{Sym, Scope, Scopes}
use native_pascal.Bootstrap.Tree.{
  TypeExpr, Fields, named, pointer, lstring, array, record_of, enum, no_fields, group,
}
use native_pascal.Bootstrap.Types.{Ty, SymInfo, Message, pointer_cycle, Sem, ok, fatal, ◌>>=◌}
use native_pascal.Bootstrap.Constants.{const_int_value}
use native_pascal.Bootstrap.Resolve.{
  ArrayType, array_ty, Field, TypeState, same_int, same_ref, find_array, has_cap, lstring_of,
  new_array, array_of, to_int, point_to, found_type, resolve_pending_pointers, find_cycle, settle,
  enum_type, resolve_type, resolve_fields, all_scopes,
}

same_int_refl : (a : ℤ) → same_int a a ≡ true
same_int_refl (pos n) = ground arith
same_int_refl (negsuc n) = ground arith

pub same_ref_refl : (t : Ty) → same_ref t t ≡ true
unfolding same_ref
same_ref_refl (Ty.int n) = ground arith
same_ref_refl (Ty.enum i _) = ground arith
same_ref_refl (Ty.lstring a) = same_int_refl a
same_ref_refl (Ty.array i _ _ _) = ground arith
same_ref_refl (Ty.record_of i) = ground arith
same_ref_refl (Ty.ptr i) = ground arith
same_ref_refl t = refl

find_array-append :
    (lo hi : ℤ) (elem : Ty) (xs ys : List ArrayType) {a : ArrayType}
    → find_array lo hi elem xs ≡ some a
    → find_array lo hi elem (xs ++ ys) ≡ some a
unfolding find_array
find_array-append lo hi elem [] ys h = absurd (cc)
find_array-append lo hi elem (x ∷ xs) ys h =
    elim (Bool-cases (same_int x.lo lo && same_int x.hi hi && same_ref x.elem elem)) [
      | inl y ↦ rw y (rw y at h)
      | inr n ↦ rw n (find_array-append lo hi elem xs ys (rw n at h))
    ]

find_array-last :
    (a : ArrayType) (xs : List ArrayType)
    → find_array a.lo a.hi a.elem xs ≡ none
    → find_array a.lo a.hi a.elem (xs ++ a ∷ []) ≡ some a
unfolding find_array
find_array-last a [] h = rw (same_int_refl a.lo, same_int_refl a.hi, same_ref_refl a.elem) refl
find_array-last a (x ∷ xs) h =
    elim (Bool-cases (same_int x.lo a.lo && same_int x.hi a.hi && same_ref x.elem a.elem)) [
      | inl y ↦ absurd (cc (rw y at h))
      | inr n ↦ rw n (find_array-last a xs (rw n at h))
    ]

module _ {R : Type 0} where
  -- What is found before is found after.
  abbrev pub Kept : TypeState R → TypeState R → Type 0
  Kept st st2 =
      (lo hi : ℤ) (elem : Ty) (a : ArrayType)
      → find_array lo hi elem st.array_types ≡ some a
      → find_array lo hi elem st2.array_types ≡ some a

  data Keeps {A : Type 0} (st : TypeState R) : Sem (A × TypeState R) → Type 0 where
    success : {a : A} {st2 : TypeState R} → Kept st st2 → Keeps st (ok (a, st2))
    failure : {loc : Loc} {m : Message} → Keeps st (fatal loc m)

  module _ {A B : Type 0} (st : TypeState R) where
    plain-Keeps :
        (m : Sem B) (f : B → Sem (A × TypeState R))
        → ((b : B) → Keeps st (f b))
        → Keeps st (m >>= f)
    plain-Keeps (ok b) f k = k b
    plain-Keeps (fatal loc msg) f k = failure

    bind-Keeps :
        (m : Sem (B × TypeState R)) (f : B × TypeState R → Sem (A × TypeState R))
        → Keeps st m
        → ((b : B) (st2 : TypeState R) → Kept st st2 → Keeps st (f (b, st2)))
        → Keeps st (m >>= f)
    bind-Keeps (ok _) f (success {a} {st2} h) k = k a st2 h
    bind-Keeps (fatal loc msg) f h k = failure

  again-Keeps :
      {A : Type 0} {st st2 : TypeState R} {m : Sem (A × TypeState R)}
      → Kept st st2
      → Keeps st2 m
      → Keeps st m
  again-Keeps h (success k) = success λ lo hi elem a e. k lo hi elem a (h lo hi elem a e)
  again-Keeps h failure = failure

  same : (st : TypeState R) → Kept st st
  same st lo hi elem a e = e

  array_of-Keeps :
      (lo hi : ℤ) (elem : Ty) (loc : Loc) (st : TypeState R) → Keeps st (array_of lo hi elem loc st)
  unfolding array_of new_array
  array_of-Keeps lo hi elem loc st = elim (Bool-cases (ltb_ℤ hi lo)) [
    | inl y ↦ rw y failure
    | inr n ↦ rw n (elim (Option-cases (find_array lo hi elem st.array_types)) [
      | inl absent ↦
          rw absent
            (success λ lo2 hi2 elem2 a e. find_array-append lo2 hi2 elem2 st.array_types _ e)
      | inr (a, found) ↦ rw found (success (same st))
    ])
  ]

  ok-pair :
      {A : Type 0} {a b : A} {st st2 : TypeState R}
      → ◌≡◌ {A = Sem (A × TypeState R)} (ok (a, st)) (ok (b, st2))
      → (a ≡ b) × (st ≡ st2)
  ok-pair e = (cc, cc)

  -- What a success has found or made.
  array_of-made :
      (st st2 : TypeState R) (lo hi : ℤ) (elem t : Ty) (loc : Loc)
      → array_of lo hi elem loc st ≡ ok (t, st2)
      → (a : ArrayType) × (find_array lo hi elem st2.array_types ≡ some a)
        × (ltb_ℤ hi lo ≡ false)
        × (array_ty a ≡ t)
  unfolding array_of new_array
  array_of-made st st2 lo hi elem t loc h = elim (Bool-cases (ltb_ℤ hi lo)) [
    | inl y ↦ absurd (cc (rw y at h))
    | inr n ↦ elim (Option-cases (find_array lo hi elem st.array_types)) [
      | inl absent ↦
          let a : ArrayType = record { id = st.next_type_id; lo = lo; hi = hi; elem = elem } in
          let made : ok (new_array lo hi elem st) ≡ ok (t, st2) = rw (n, absent) at h in
          let (ty, state) = ok-pair made in
          (
            a,
            subst (λ x. find_array lo hi elem x.array_types ≡ some a) state
                (find_array-last a st.array_types absent),
            n,
            ty,
          )
      | inr (a, found) ↦
          let made : ok (array_ty a, st) ≡ ok (t, st2) = rw (n, found) at h in
          let (ty, state) = ok-pair made in
          (a, subst (λ x. find_array lo hi elem x.array_types ≡ some a) state found, n, ty)
    ]
  ]

  lstring_of-Keeps : (cap : ℤ) (loc : Loc) (st : TypeState R) → Keeps st (lstring_of cap loc st)
  unfolding lstring_of
  lstring_of-Keeps cap loc st = elim (Bool-cases (ltb_ℤ cap (pos 1) || ltb_ℤ (pos 255) cap)) [
    | inl y ↦ rw y failure
    | inr n ↦ rw n (elim (Bool-cases (has_cap cap st.lstr_types)) [
      | inl y ↦ rw y (success (same st))
      | inr n ↦ rw n (success (same st))
    ])
  ]

  point_to-Kept :
      (loc : Loc) (n : Bytes) (found : Option (Sym (SymInfo R))) (st : TypeState R)
      → Kept st (point_to loc n found st).1
  unfolding point_to
  point_to-Kept loc n found st = elim (Option-cases (found_type found)) [
    | inl none_found ↦ rw (none_found, point_to) (same st)
    | inr (t, is) ↦ rw (is, point_to) (same st)
  ]

  module _ (zero_real : R) (neg_real : R → R) where
    enum_type-Keeps :
        (loc : Loc) (names : List Bytes) (st : TypeState R)
        → Keeps st (enum_type zero_real neg_real loc names st)
    unfolding enum_type
    enum_type-Keeps loc names st = plain-Keeps st _ _ λ sc. success (same st)

    mutual
      unfolding resolve_type resolve_fields

      resolve_type-Keeps :
          (te : TypeExpr R) (st : TypeState R) → Keeps st (resolve_type zero_real neg_real te st)
      resolve_type-Keeps (named loc n) st = plain-Keeps st _ _ λ t. success (same st)
      resolve_type-Keeps (lstring loc lo) st =
          plain-Keeps st _ _ λ cap. lstring_of-Keeps (to_int cap) loc st
      resolve_type-Keeps (array loc lo hi elem) st =
          plain-Keeps st (const_int_value zero_real neg_real (all_scopes st) lo) _ λ a.
            plain-Keeps st (const_int_value zero_real neg_real (all_scopes st) hi) _ λ b.
              bind-Keeps st _ (λ x. array_of a b x.0 loc x.1) (resolve_type-Keeps elem st)
                λ t st2 k. again-Keeps k (array_of-Keeps a b t loc st2)
      resolve_type-Keeps (record_of loc groups) st =
          bind-Keeps st _ _
            (again-Keeps (same st)
              (resolve_fields-Keeps groups [] (record st { next_type_id = suc st.next_type_id })))
            λ fs st2 k. success k
      resolve_type-Keeps (pointer loc n) st = success (point_to-Kept loc n _ st)
      resolve_type-Keeps (enum loc names) st = enum_type-Keeps loc names st

      resolve_fields-Keeps :
          (groups : Fields R) (fs : List Field) (st : TypeState R)
          → Keeps st (resolve_fields zero_real neg_real groups fs st)
      resolve_fields-Keeps no_fields fs st = success (same st)
      resolve_fields-Keeps (group loc names te more) fs st =
          bind-Keeps st _ _ (resolve_type-Keeps te st)
            λ t st2 k. plain-Keeps st _ _ λ fs2. again-Keeps k (resolve_fields-Keeps more fs2 st2)

    -- What sem.c does to types in a run, in any order: it resolves a type, settles the pointers of a
    -- section, and changes scopes and the section that it is in.
    pub data Run : TypeState R → TypeState R → Type 0 where
      start : {st : TypeState R} → Run st st
      resolves :
          {st st2 st3 : TypeState R} {t : Ty}
          → Run st st2
          → (te : TypeExpr R) → resolve_type zero_real neg_real te st2 ≡ ok (t, st3)
          → Run st st3
      settles :
          {st st2 st3 : TypeState R}
          → Run st st2
          → resolve_pending_pointers st2 ≡ ok st3
          → Run st st3
      rescopes :
          {st st2 : TypeState R}
          → Run st st2
          → (innermost : Scope (SymInfo R)) (outer : Scopes (SymInfo R)) (later : List Bytes)
          → Run st (record st2 { innermost = innermost; outer = outer; later = later })

    Keeps-Kept :
        {A : Type 0} {st st2 : TypeState R} {m : Sem (A × TypeState R)} {a : A}
        → Keeps st m
        → m ≡ ok (a, st2)
        → Kept st st2
    Keeps-Kept {st = st} {st2 = st2} (success {st2 = found} h) e =
        let one : found ≡ st2 = cc in subst (λ x. Kept st x) one h
    Keeps-Kept failure e = absurd (cc)

    settled-Kept :
        (st st2 : TypeState R) (m : Sem (ℕ → Option Ty))
        → m >>= (λ targets. elim (find_cycle (length st.pending_ptrs) targets st.pending_ptrs) [
          | some p ↦ fatal p.loc (pointer_cycle p.name)
          | none ↦ ok (record st { targets = targets; pending_ptrs = [] })
        ])
          ≡ ok st2
        → Kept st st2
    settled-Kept st st2 (fatal loc msg) h = absurd (cc)
    settled-Kept st st2 (ok targets) h =
        elim (Option-cases (find_cycle (length st.pending_ptrs) targets st.pending_ptrs)) [
          | inr (p, found) ↦ absurd (cc (rw (◌>>=◌, found) at h))
          | inl none_found ↦
              let settled : TypeState R = record st { targets = targets; pending_ptrs = [] } in
              let finishes : ok settled ≡ ok st2 = rw (◌>>=◌, none_found) at h in
              let one : settled ≡ st2 = cc in subst (λ x. Kept st x) one (same st)
        ]

    Run-Kept : {st st2 : TypeState R} → Run st st2 → Kept st st2
    unfolding resolve_pending_pointers
    Run-Kept (start {st = st}) = same st
    Run-Kept (resolves {st2 = mid} r te h) = λ lo hi elem a e.
        Keeps-Kept (resolve_type-Keeps te mid) h lo hi elem a (Run-Kept r lo hi elem a e)
    Run-Kept (settles {st2 = mid} {st3 = last} r h) = λ lo hi elem a e.
        settled-Kept mid last (settle (all_scopes mid) mid.pending_ptrs mid.targets) h lo hi elem a
          (Run-Kept r lo hi elem a e)
    Run-Kept (rescopes r innermost outer later) = Run-Kept r

    -- Array types are interned: what `array_of` gives for bounds and an element type, it gives again
    -- for them, whatever types are resolved, pointers settled and scopes changed in between, and
    -- it changes nothing then.
    pub array_of-interned :
        (st : TypeState R) (lo hi : ℤ) (elem : Ty) {st2 st3 : TypeState R} {t : Ty} (loc loc2 : Loc)
        → array_of lo hi elem loc st ≡ ok (t, st2)
        → Run st2 st3
        → array_of lo hi elem loc2 st3 ≡ ok (t, st3)
    unfolding array_of
    array_of-interned st lo hi elem {st2 = st2} {st3 = st3} {t = t} loc loc2 h r =
        let (a, e, bounds, same_type) = array_of-made st st2 lo hi elem t loc h in
        rw (bounds, Run-Kept r lo hi elem a e, same_type) refl
