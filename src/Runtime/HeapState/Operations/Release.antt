-- ===== src/Runtime/HeapState/Operations/Release.antt =====
-- What a release does to the registrations in the table of runtime/initck_heap.c.
use native_pascal.Prelude.{
  ℕ, ◌≡◌, ◌≢◌, ◌↔◌, ◌⊎◌, refl, sym, ap, ◌∙◌, Bool, true, false, ◌==◌, arith, Bool-cases, inl, inr,
}
use native_pascal.Prelude.Int.{ℤ, pos, ltb_ℤ}
use native_pascal.Runtime.HeapState.{Entry, Heap, Stop, at, absent, exhausted, is_live, find, set}
use native_pascal.Runtime.HeapState.Room.{Counted}
use native_pascal.Runtime.HeapState.WellFormed.{
  WellFormed, find_iff, with_entry, same_slots-WellFormed,
}
use native_pascal.Runtime.HeapState.Operations.{done, memset, release}
use native_pascal.Runtime.HeapState.Operations.Forget.{Registered}
use native_pascal.Runtime.HeapState.Operations.New.{
  replaced-WellFormed, replaced_count, replaced-Adds,
}

abbrev pub marked : Entry → Entry
marked e = record { key = e.key; shadow = e.shadow; n = e.n; released = true }

-- The address's entry, if it has one, is marked, and each other address has what it had.
abbrev pub Releases : Heap → ℕ → Heap → Type 0
Releases h key h' =
    (k : ℕ)
    → is_live k ≡ true
    → (e : Entry)
    → Registered h' k e ↔ (
        ((k ≡ key) × ((e' : Entry) × Registered h key e' × (marked e' ≡ e)))
        ⊎ ((k ≢ key) × Registered h k e))

same_or_not : (k key : ℕ) → (k ≡ key) ⊎ (k ≢ key)
same_or_not k key = elim (Bool-cases (k == key)) [
  | inl y ↦ inl (ground arith)
  | inr o ↦ inr (λ x. absurd (ground arith))
]

module _ (h : Heap) (w : WellFormed h) (key : ℕ) (live : is_live key ≡ true) where
  one_entry : (e e' : Entry) → Registered h key e → Registered h key e' → e ≡ e'
  one_entry e e' (i, f, t) (j, g, u) =
      let same : at i ≡ at j = sym f ∙ g in let slots : i ≡ j = cc in sym t ∙ ap h.table slots ∙ u

  -- Nothing to mark.
  same-Releases : ((e : Entry) → Registered h key e → marked e ≡ e) → Releases h key h
  same-Releases done_already k l e = (
    λ r. elim (same_or_not k key) [
      | inl y ↦ let q : Registered h key e = rw y at r in inl (y, (e, q, done_already e q))
      | inr o ↦ inr (o, r)
    ],
    λ r. elim r [
      | inl (y, (e', q, m)) ↦ let s : e' ≡ e = sym (done_already e' q) ∙ m in rw (y, ← s) q
      | inr (o, q) ↦ q
    ],
  )

  marked-Releases :
      (i : ℕ) → find h key ≡ at i → Counted h → Releases h key (with_entry h i (marked (h.table i)))
  marked-Releases i f c k l e =
      let s = (((find_iff h w key live).0 i).0 f).1 in
      let adds = replaced-Adds h w c key live i f (marked (h.table i)) s k l e in
      (
        λ r. elim (adds.0 r) [ inl (y, m) ↦ inl (y, (h.table i, (i, f, refl), m)) | inr q ↦ inr q ],
        λ r. elim r [
          | inl (y, (e', q, m)) ↦
              let t = one_entry (h.table i) e' (i, f, refl) q in adds.1 (inl (y, ap marked t ∙ m))
          | inr q ↦ adds.1 (inr q)
        ],
      )

  -- What is registered does not depend on the leaves.
  leaves_Releases :
      (i : ℕ) (e : Entry) (l : ℕ → ℕ → ℕ)
      → Releases h key (with_entry h i e)
      → Releases h key (record {
        table = set h.table i e;
        capacity = h.capacity;
        occupied = h.occupied;
        leaves = l;
      })
  unfolding find
  leaves_Releases i e l r = r

  -- A release of an address that is neither NULL nor the tombstone, in a well-formed and counted
  -- table, ends in such a table in which the search for the address gives its entry marked as
  -- released, if there is one, and the search for each other address gives what it gave. Each leaf
  -- of an entry that was not released before is set.
  pub release-Releases :
      Counted h
      → (h' : Heap) × (release h key ≡ done h')
        × WellFormed h'
        × Counted h'
        × Releases h key h'
        × ((e : Entry)
            → Registered h key e
            → e.released ≡ false
            → (i : ℕ) → ltb_ℤ (pos i) e.n ≡ true
            → h'.leaves e.shadow i ≡ 1)
  unfolding release
  release-Releases c = let (h', (e, w', c', r, l)) = go (find h key) refl in (h', e, w', c', r, l)
    where
      Result : Heap → Type 0
      Result h' =
          (release h key ≡ done h')
          × WellFormed h'
          × Counted h'
          × Releases h key h'
          × ((e : Entry)
              → Registered h key e
              → e.released ≡ false
              → (i : ℕ) → ltb_ℤ (pos i) e.n ≡ true
              → h'.leaves e.shadow i ≡ 1)

      clash : {i : ℕ} → absent ≡ at i → ⊥
      clash x = cc

      both : {b : Bool} → b ≡ true → b ≡ false → ⊥
      both x y = cc

      set_leaves :
          (l : ℕ → ℕ → ℕ) (b : ℕ) (n : ℤ) (i : ℕ) → ltb_ℤ (pos i) n ≡ true → memset b 1 n l b i ≡ 1
      set_leaves l b n i m = let y : (b == b) ≡ true = ground arith in rw (y, m) refl

      go : (r : Stop) → find h key ≡ r → (h' : Heap) × Result h'
      go exhausted f = absurd ((find_iff h w key live).1 f)
      go absent f = (
        h,
        (
          rw (f, release) refl,
          w,
          c,
          same-Releases (λ e r. absurd (clash (sym f ∙ r.1))),
          λ e r. absurd (clash (sym f ∙ r.1)),
        ),
      )
      go (at i) f = elim (Bool-cases (h.table i).released) [
        | inl y ↦ (
          h,
          (
            rw (f, release, y) refl,
            w,
            c,
            same-Releases (λ e r.
                let t = one_entry (h.table i) e (i, f, refl) r in
                rw (← t) (λ j. record {
                  key = (h.table i).key;
                  shadow = (h.table i).shadow;
                  n = (h.table i).n;
                  released = sym y j;
                })),
            λ e r o.
                absurd (both y (ap (λ x. x.released) (one_entry (h.table i) e (i, f, refl) r) ∙ o)),
          ),
        )
        | inr o ↦
            let s = (((find_iff h w key live).0 i).0 f).1 in
            let e0 = h.table i in
            (
              record {
                table = set h.table i (marked e0);
                capacity = h.capacity;
                occupied = h.occupied;
                leaves = memset e0.shadow 1 e0.n h.leaves;
              },
              (
                rw (f, release, o) refl,
                same_slots-WellFormed (with_entry h i (marked e0)) h.occupied
                    (memset e0.shadow 1 e0.n h.leaves)
                    (replaced-WellFormed h w c key live i f (marked e0) s),
                replaced_count h w c key live i f (marked e0) s,
                leaves_Releases i (marked e0) (memset e0.shadow 1 e0.n h.leaves)
                    (marked-Releases i f c),
                λ e r _ j m.
                    let t = one_entry e0 e (i, f, refl) r in
                    rw (← t) (set_leaves h.leaves e0.shadow e0.n j (rw (← t) at m)),
              ),
            )
      ]
