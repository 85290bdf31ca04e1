-- ===== src/Runtime/HeapState/Operations/Forget.antt =====
-- What DISPOSE and a release do to the registrations in the table of runtime/initck_heap.c.
use native_pascal.Prelude.{
  ℕ, ◌<◌, ◌≡◌, ◌≢◌, ◌↔◌, refl, sym, ap, ◌∙◌, true, false, ◌==◌, arith, Bool-cases, inl, inr,
}
use native_pascal.Prelude.Int.{pos}
use native_pascal.Runtime.HeapState.{
  Entry, Heap, Stop, at, absent, exhausted, is_live, tombstone, find,
}
use native_pascal.Runtime.HeapState.Room.{Counted, count_full-set}
use native_pascal.Runtime.HeapState.WellFormed.{
  live_not_empty, WellFormed, find_iff, with_entry, set_other, is_other, deleted-WellFormed,
}
use native_pascal.Runtime.HeapState.Operations.{done, dispose}

-- The search for an address gives an entry.
abbrev pub Registered : Heap → ℕ → Entry → Type 0
Registered h k e = (i : ℕ) × (find h k ≡ at i) × (h.table i ≡ e)

-- The table holds an entry with the address, in a slot.
Held : Heap → ℕ → Entry → ℕ → Type 0
Held h k e i = (i < h.capacity) × ((h.table i).key ≡ k) × (h.table i ≡ e)

module _ (h : Heap) (w : WellFormed h) (k : ℕ) (live : is_live k ≡ true) (e : Entry) where
  Registered-Held : Registered h k e → (i : ℕ) × Held h k e i
  unfolding Held
  Registered-Held (i, f, t) = let (b, s) = ((find_iff h w k live).0 i).0 f in (i, (b, s, t))

  Held-Registered : (i : ℕ) → Held h k e i → Registered h k e
  unfolding Held
  Held-Registered i (b, s, t) = (i, ((find_iff h w k live).0 i).1 (b, s), t)

-- Only the address is gone.
abbrev pub Forgets : Heap → ℕ → Heap → Type 0
Forgets h key h' =
    (k : ℕ) → is_live k ≡ true → (e : Entry) → Registered h' k e ↔ ((k ≢ key) × Registered h k e)

module _ (h : Heap) (w : WellFormed h) (key : ℕ) (live : is_live key ≡ true) where
  absent-Forgets : find h key ≡ absent → Forgets h key h
  absent-Forgets f k l e =
      (λ r. (λ same. clash (sym f ∙ ap (find h) (sym same) ∙ r.1), r), λ r. r.1)
    where
      clash : {i : ℕ} → absent ≡ at i → ⊥
      clash x = cc

  deleted-Forgets :
      (i : ℕ)
      → find h key ≡ at i
      → (t : Entry) → t.key ≡ tombstone
      → Forgets h key (with_entry h i t)
  unfolding Held
  deleted-Forgets i f t d k l e =
      let (b, s) = ((find_iff h w key live).0 i).0 f in
      let old : is_live (h.table i).key ≡ true = rw s live in
      let w' = deleted-WellFormed h w i old t d in
      (
        λ r.
            let (j, (c, m, u)) = Registered-Held (with_entry h i t) w' k l e r in
            let o = is_other h w i old t d j (rw m l) in
            let p = set_other h i t j o in
            let m' : (h.table j).key ≡ k = ap (λ x. x.key) (sym p) ∙ m in
            (
              λ same. elsewhere i j o (w.unique i j b c old (s ∙ sym same ∙ sym m')),
              Held-Registered h w k l e j (c, m', sym p ∙ u),
            ),
        λ (n, r).
            let (j, (c, m, u)) = Registered-Held h w k l e r in
            let o : (j == i) ≡ false =
              apart i j (λ x. n (sym m ∙ ap (λ y. (h.table y).key) x ∙ s)) in
            let p = set_other h i t j o in
            Held-Registered (with_entry h i t) w' k l e j (c, ap (λ x. x.key) p ∙ m, p ∙ u),
      )
    where
      elsewhere : (i j : ℕ) → (j == i) ≡ false → i ≢ j
      elsewhere i j o x = ground arith

      apart : (i j : ℕ) → j ≢ i → (j == i) ≡ false
      apart i j n = elim (Bool-cases (j == i)) [ inl y ↦ absurd (n (ground arith)) | inr o ↦ o ]

  deleted_count :
      (i : ℕ)
      → find h key ≡ at i
      → (t : Entry) → t.key ≡ tombstone
      → Counted h
      → Counted (with_entry h i t)
  deleted_count i f t d c =
      let (b, s) = ((find_iff h w key live).0 i).0 f in
      let same = count_full-set h.table i t h.capacity b (λ z. absurd (ground arith)) in
      let o : ((h.table i).key == 0) ≡ false = rw s (not_zero key (live_not_empty key live)) in
      same ∙ rw o (omega (arith, c))
    where
      not_zero : (m : ℕ) → m ≢ 0 → (m == 0) ≡ false
      not_zero m g = elim (Bool-cases (m == 0)) [ inl y ↦ absurd (g (ground arith)) | inr o ↦ o ]

  -- DISPOSE of an address that is neither NULL nor the tombstone, in a well-formed and counted
  -- table, ends in such a table in which the search for each other address gives what it gave, and
  -- the search for this one gives nothing.
  pub dispose-Forgets :
      Counted h
      → (h' : Heap) × (dispose h key ≡ done h') × WellFormed h' × Counted h' × Forgets h key h'
  unfolding dispose
  dispose-Forgets c = go (find h key) refl
    where
      gone : Entry
      gone = record { key = tombstone; shadow = 0; n = pos 0; released = false }

      go :
          (r : Stop)
          → find h key ≡ r
          → (h' : Heap) × (dispose h key ≡ done h') × WellFormed h' × Counted h' × Forgets h key h'
      go absent f = (h, rw (f, dispose) refl, w, c, absent-Forgets f)
      go exhausted f = absurd ((find_iff h w key live).1 f)
      go (at i) f =
          let (b, s) = ((find_iff h w key live).0 i).0 f in
          (
            with_entry h i gone,
            rw (f, dispose) refl,
            deleted-WellFormed h w i (rw s live) gone refl,
            deleted_count i f gone refl c,
            deleted-Forgets i f gone refl,
          )
