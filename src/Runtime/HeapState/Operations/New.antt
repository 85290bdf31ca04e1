-- ===== src/Runtime/HeapState/Operations/New.antt =====
-- What pas_initck_heap_new of runtime/initck_heap.c does to the table.
use native_pascal.Prelude.{
  ℕ, ◌<◌, ◌≡◌, ◌≢◌, refl, sym, ap, ◌∙◌, true, false, not, ◌||◌, ◌==◌, arith, Bool-cases, inl, inr,
}
use native_pascal.Prelude.Int.{ℤ, pos, ltb_ℤ}
use native_pascal.Runtime.HeapState.{Entry, Heap, Stop, at, absent, exhausted, is_live, find}
use native_pascal.Runtime.HeapState.Room.{Counted, count_full-set}
use native_pascal.Runtime.HeapState.WellFormed.{
  WellFormed, find_iff, same_slots-WellFormed, with_entry, set_other, set_here, changed-WellFormed,
  live_not_empty,
}
use native_pascal.Runtime.HeapState.Operations.{done, memset, heap_new}
use native_pascal.Runtime.HeapState.Operations.Insertion.{Adds, insert_new-Adds}
use native_pascal.Runtime.HeapState.Operations.Growth.{Keeps, reserve-Keeps}

-- A registered address gets another entry.
module _ (h : Heap) (w : WellFormed h) (counted : Counted h) (key : ℕ) (live : is_live key ≡ true)
    (i : ℕ) (f : find h key ≡ at i) (new : Entry) (k : new.key ≡ key) where
  slot_in : i < h.capacity
  slot_in = (((find_iff h w key live).0 i).0 f).0

  slot_key : (h.table i).key ≡ key
  slot_key = (((find_iff h w key live).0 i).0 f).1

  slot_live : is_live (h.table i).key ≡ true
  slot_live = rw slot_key live

  pub replaced-WellFormed : WellFormed (with_entry h i new)
  replaced-WellFormed = changed-WellFormed h w i slot_live new (k ∙ sym slot_key)

  pub replaced_count : Counted (with_entry h i new)
  replaced_count =
      let same =
        count_full-set h.table i new h.capacity slot_in
          (λ z. live_not_empty key live (sym k ∙ z)) in
      let full = live_not_empty (h.table i).key slot_live in
      let n : ((h.table i).key == 0) ≡ false = not_zero (h.table i).key full in
      same ∙ rw n (omega (arith, counted))
    where
      not_zero : (m : ℕ) → m ≢ 0 → (m == 0) ≡ false
      not_zero m g = elim (Bool-cases (m == 0)) [ inl y ↦ absurd (g (ground arith)) | inr o ↦ o ]

  pub replaced-Adds : Adds h key new (with_entry h i new)
  replaced-Adds m l e = (
    λ r.
        let (j, g, u) = r in
        let (b, s) = ((find_iff (with_entry h i new) replaced-WellFormed m l).0 j).0 g in
        elim (Bool-cases (j == i)) [
          | inl y ↦ inl (sym (rw y at s) ∙ k, rw y at u)
          | inr o ↦
              let t = set_other h i new j o in
              let s' : (h.table j).key ≡ m = ap (λ x. x.key) (sym t) ∙ s in
              inr (
                (λ same. differ j o (w.unique j i b slot_in (rw s' l) (s' ∙ same ∙ sym slot_key))),
                (j, ((find_iff h w m l).0 j).1 (b, s'), sym t ∙ u),
              )
        ],
    λ r. elim r [
      | inl q ↦
          let t = set_here h i new in
          (
            i,
            ((find_iff (with_entry h i new) replaced-WellFormed m l).0 i).1
                (slot_in, ap (λ x. x.key) t ∙ k ∙ sym q.0),
            t ∙ q.1,
          )
      | inr q ↦
          let (j, g, u) = q.1 in
          let (b, s) = ((find_iff h w m l).0 j).0 g in
          let o = apart j (λ x. q.0 (sym s ∙ ap (λ y. (h.table y).key) x ∙ slot_key)) in
          let t = set_other h i new j o in
          (
            j,
            ((find_iff (with_entry h i new) replaced-WellFormed m l).0 j).1
                (b, ap (λ x. x.key) t ∙ s),
            t ∙ u,
          )
    ],
  )
    where
      differ : (j : ℕ) → (j == i) ≡ false → j ≢ i
      differ j o x = ground arith

      apart : (j : ℕ) → j ≢ i → (j == i) ≡ false
      apart j g = elim (Bool-cases (j == i)) [ inl y ↦ absurd (g (ground arith)) | inr o ↦ o ]

-- A step that keeps what is registered, and one that adds an entry.
Keeps-Adds :
    (h h' h'' : Heap) (key : ℕ) (new : Entry)
    → Keeps h h'
    → Adds h' key new h''
    → Adds h key new h''
Keeps-Adds h h' h'' key new a b k l e = (
  λ r. elim ((b k l e).0 r) [ inl q ↦ inl q | inr q ↦ inr (q.0, (a k l e).0 q.1) ],
  λ r. elim r [ inl q ↦ (b k l e).1 (inl q) | inr q ↦ (b k l e).1 (inr (q.0, (a k l e).1 q.1)) ],
)

module _ (h : Heap) (w : WellFormed h) (counted : Counted h) (key : ℕ) (live : is_live key ≡ true)
    (n : ℤ) (some : ltb_ℤ (pos 0) n ≡ true) (shadow : ℕ) (given : shadow ≢ 0) where
  abbrev entry : Entry
  entry = record { key = key; shadow = shadow; n = n; released = false }

  abbrev cleared : Heap
  cleared = record {
    table = h.table;
    capacity = h.capacity;
    occupied = h.occupied;
    leaves = memset shadow 0 n h.leaves;
  }

  cleared-WellFormed : WellFormed cleared
  cleared-WellFormed = same_slots-WellFormed h h.occupied (memset shadow 0 n h.leaves) w

  cleared-find : (k : ℕ) → find cleared k ≡ find h k
  unfolding find
  cleared-find k = refl

  cleared-Keeps : Keeps h cleared
  unfolding find
  cleared-Keeps k l e = ((λ r. r), λ r. r)

  -- What is not registered stays so.
  still_absent :
      (h' : Heap) → WellFormed h' → Keeps cleared h' → find h key ≡ absent → find h' key ≡ absent
  still_absent h' w' keeps f = go (find h' key) refl
    where
      go : (r : Stop) → find h' key ≡ r → find h' key ≡ absent
      go absent g = g
      go exhausted g = absurd ((find_iff h' w' key live).1 g)
      go (at i) g =
          let (j, u, _) = (keeps key live (h'.table i)).0 (i, g, refl) in
          absurd (clash (sym f ∙ sym (cleared-find key) ∙ u))
        where
          clash : {j : ℕ} → absent ≡ at j → ⊥
          clash x = cc

  unset : (i : ℕ) → ltb_ℤ (pos i) n ≡ true → memset shadow 0 n h.leaves shadow i ≡ 0
  unset i b = let y : (shadow == shadow) ≡ true = ground arith in rw (y, b) refl

  guards : (key == 0 || not (ltb_ℤ (pos 0) n)) ≡ false
  guards = ground (arith, live, some)

  shadow_given : (shadow == 0) ≡ false
  shadow_given = elim (Bool-cases (shadow == 0)) [
    | inl y ↦ absurd (given (ground arith))
    | inr o ↦ o
  ]

  -- NEW of a referent with some leaves at an address that is neither NULL nor the tombstone, in a
  -- well-formed and counted table, where calloc gives the leaves and the memory of a larger table,
  -- ends in such a table in which the search for the address gives the new state, with each of its
  -- leaves unset, and the search for each other address gives what it gave, whether the address
  -- was registered already, took a free slot, or made the table grow.
  pub heap_new-Adds :
      (h' : Heap) × (heap_new h key n shadow true ≡ done h')
      × WellFormed h'
      × Counted h'
      × Adds h key (record { key = key; shadow = shadow; n = n; released = false }) h'
      × ((i : ℕ) → ltb_ℤ (pos i) n ≡ true → h'.leaves shadow i ≡ 0)
  unfolding heap_new
  heap_new-Adds = go (find h key) refl
    where
      go :
          (r : Stop)
          → find h key ≡ r
          → (h' : Heap) × (heap_new h key n shadow true ≡ done h')
            × WellFormed h'
            × Counted h'
            × Adds h key (record { key = key; shadow = shadow; n = n; released = false }) h'
            × ((i : ℕ) → ltb_ℤ (pos i) n ≡ true → h'.leaves shadow i ≡ 0)
      go exhausted f = absurd ((find_iff h w key live).1 f)
      go (at i) f =
          let c = cleared-WellFormed in
          let g = cleared-find key ∙ f in
          (
            with_entry cleared i entry,
            rw (heap_new, guards, shadow_given, g) refl,
            replaced-WellFormed cleared c counted key live i g entry refl,
            replaced_count cleared c counted key live i g entry refl,
            Keeps-Adds h cleared (with_entry cleared i entry) key entry cleared-Keeps
                (replaced-Adds cleared c counted key live i g entry refl),
            unset,
          )
      go absent f =
          let g = cleared-find key ∙ f in
          let (roomy, e, wr, cr, loose, keeps, lr) =
            reserve-Keeps cleared cleared-WellFormed counted in
          let (h', e', w', c', adds, l') =
            insert_new-Adds roomy wr cr key live n shadow loose (still_absent roomy wr keeps f) in
          (
            h',
            rw (heap_new, guards, shadow_given, g, e) e',
            w',
            c',
            Keeps-Adds h cleared h' key entry cleared-Keeps
                (Keeps-Adds cleared roomy h' key entry keeps adds),
            λ i b. (λ j. l' j shadow i) ∙ (λ j. lr j shadow i) ∙ unset i b,
          )
