-- ===== src/Bootstrap/Resolve/Cycles.antt =====
-- bootstrap/sem.c: the cycles of pointers that resolve_pending_pointers refuses.
use native_pascal.Prelude.{
  ℕ, zero, suc, ◌<◌, ◌≤◌, true, ◌≡◌, ◌↔◌, refl, subst, ap, arith, Bool-cases, inl, inr,
  Option-cases, Option, none, some, List, [], ◌∷◌, length, get_elem?, ◌==◌,
}
use native_pascal.Bootstrap.Types.{Ty, ok, ◌>>=◌}
use native_pascal.Bootstrap.Resolve.{
  Pending, TypeState, all_scopes, settle, leads_to, find_cycle, resolve_pending_pointers,
}

-- The type that `k` steps lead to from `u`, each to the target of a pointer.
abbrev pub chase : ℕ → (ℕ → Option Ty) → Option Ty → Option Ty
chase zero targets u = u
chase (suc k) targets (some (Ty.ptr j)) = chase k targets (targets j)
chase (suc k) targets _ = none

-- The pointer leads back to itself by `n` steps at most, behind its target.
abbrev pub Returns : ℕ → (ℕ → Option Ty) → ℕ → Type 0
Returns n targets t = (k : ℕ) × (k ≤ n) × (chase k targets (targets t) ≡ some (Ty.ptr t))

leads_to-chase :
    (n : ℕ) (targets : ℕ → Option Ty) (t : ℕ) (u : Option Ty)
    → leads_to n targets t u ≡ true
    → (k : ℕ) × (k < n) × (chase k targets u ≡ some (Ty.ptr t))
unfolding leads_to
leads_to-chase zero targets t u h = absurd (cc)
leads_to-chase (suc n) targets t (some (Ty.ptr j)) h = elim (Bool-cases (j == t)) [
  | inl y ↦ let e : j ≡ t = ground arith in (0, omega arith, ap (λ i. some (Ty.ptr i)) e)
  | inr d ↦
      let (k, l, e) = leads_to-chase n targets t (targets j) (rw d at h) in (suc k, omega arith, e)
]
leads_to-chase (suc n) targets t u h = absurd (cc)

chase-leads_to :
    (n : ℕ) (targets : ℕ → Option Ty) (t : ℕ) (u : Option Ty) (k : ℕ)
    → k < n
    → chase k targets u ≡ some (Ty.ptr t)
    → leads_to n targets t u ≡ true
unfolding leads_to
chase-leads_to zero targets t u k l e = absurd (omega arith)
chase-leads_to (suc n) targets t (some (Ty.ptr j)) zero l e = ground arith
chase-leads_to (suc n) targets t (some (Ty.ptr j)) (suc k) l e = elim (Bool-cases (j == t)) [
  | inl y ↦ rw y
  | inr d ↦ rw d (chase-leads_to n targets t (targets j) k (omega arith) e)
]
chase-leads_to (suc n) targets t u zero l e = absurd (cc)
chase-leads_to (suc n) targets t u (suc k) l e = absurd (cc)

module _ (n : ℕ) (targets : ℕ → Option Ty) where
  found-Returns :
      (ps : List Pending) (p : Pending)
      → find_cycle n targets ps ≡ some p
      → (i : ℕ) × (get_elem? ps i ≡ some p) × Returns n targets p.id
  unfolding find_cycle
  found-Returns [] p h = absurd (cc)
  found-Returns (q ∷ ps) p h = elim (Bool-cases (leads_to (suc n) targets q.id (targets q.id))) [
    | inl y ↦
        let (k, l, e) = leads_to-chase (suc n) targets q.id (targets q.id) y in
        let same : some q ≡ some p = rw y at h in
        let one : q ≡ p = cc in
        (0, same, subst (λ x. Returns n targets x.id) one (k, omega arith, e))
    | inr d ↦ let (i, e, r) = found-Returns ps p (rw d at h) in (suc i, e, r)
  ]

  none-Returns :
      (ps : List Pending)
      → find_cycle n targets ps ≡ none
      → (i : ℕ) (p : Pending) → get_elem? ps i ≡ some p
      → ¬ (Returns n targets p.id)
  unfolding find_cycle
  none-Returns [] h i p e r = absurd (cc)
  none-Returns (q ∷ ps) h zero p e r =
      elim (Bool-cases (leads_to (suc n) targets q.id (targets q.id))) [
        | inl y ↦ absurd (cc (rw y at h))
        | inr d ↦
            let same : p ≡ q = cc in
            let (k, l, c) = subst (λ x. Returns n targets x.id) same r in
            cc (chase-leads_to (suc n) targets q.id (targets q.id) k (omega arith) c, d)
      ]
  none-Returns (q ∷ ps) h (suc i) p e r =
      elim (Bool-cases (leads_to (suc n) targets q.id (targets q.id))) [
        | inl y ↦ absurd (cc (rw y at h))
        | inr d ↦ none-Returns ps (rw d at h) i p e r
      ]

-- Where `settle` gives the pending pointers the targets that their names stand for,
-- `resolve_pending_pointers` succeeds, with these targets and no pointer pending, if and only if no
-- pending pointer leads back to itself by `n` steps at most behind its target, `n` being the number of
-- pending pointers.
pub resolve_pending_pointers_iff :
    {R : Type 0} (st : TypeState R) (targets : ℕ → Option Ty)
    → settle (all_scopes st) st.pending_ptrs st.targets ≡ ok targets
    → (resolve_pending_pointers st ≡ ok (record st { targets = targets; pending_ptrs = [] })) ↔ (
        (i : ℕ) (p : Pending)
        → get_elem? st.pending_ptrs i ≡ some p
        → ¬ (Returns (length st.pending_ptrs) targets p.id))
unfolding resolve_pending_pointers
resolve_pending_pointers_iff st targets s =
    let n = length st.pending_ptrs in
    let checked = Option-cases (find_cycle n targets st.pending_ptrs) in
    (
      λ h. elim checked [
        | inl none_found ↦ none-Returns n targets st.pending_ptrs none_found
        | inr (p, found) ↦ absurd (cc (rw (s, ◌>>=◌, found) at h))
      ],
      λ acyclic. elim checked [
        | inl none_found ↦ rw (s, ◌>>=◌, none_found) refl
        | inr (p, found) ↦
            let (i, e, r) = found-Returns n targets st.pending_ptrs p found in
            absurd (acyclic i p e r)
      ],
    )
