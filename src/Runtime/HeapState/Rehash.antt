-- ===== src/Runtime/HeapState/Rehash.antt =====
-- The move of the live entries to a fresh table, in `reserve` of runtime/initck_heap.c.
use native_pascal.Prelude.{
  ℕ, zero, suc, ◌+◌, ◌≤◌, ◌<◌, ◌≡◌, ◌≢◌, refl, sym, ap, ◌∙◌, true, false, ◌==◌, arith, Bool-cases,
  inl, inr, some,
}
use native_pascal.Runtime.HeapState.{
  Entry, Heap, at, empty_entry, is_live, slot_of, set, empty_loop, next_slot, count_live, rehash,
}
use native_pascal.Runtime.HeapState.Probe.{walk, walk-lt, walk_reaches}
use native_pascal.Runtime.HeapState.Room.{count_full, count_full-lt, count_full-set}
use native_pascal.Runtime.HeapState.WellFormed.{
  WellFormed, set_other, set_here, live_not_empty, slot_of-lt,
}
use native_pascal.Runtime.HeapState.Insert.{inserted-WellFormed}

module _ (table : ℕ → Entry) (cap : ℕ) where
  -- In a table with no deleted slot, the scan stops at the first empty one.
  empty_loop-finds :
      (rounds i d : ℕ)
      → d < rounds
      → (table (walk cap i d)).key ≡ 0
      → (c : ℕ) × (c < rounds)
        × (empty_loop rounds table cap i ≡ at (walk cap i c))
        × ((table (walk cap i c)).key ≡ 0)
        × ((e : ℕ) → e < c → (table (walk cap i e)).key ≢ 0)
  unfolding empty_loop
  empty_loop-finds zero i d b z = absurd (omega arith)
  empty_loop-finds (suc rounds) i zero b z =
      let y : ((table i).key == 0) ≡ true = ground arith in
      (0, omega arith, stops i y, z, λ e l. absurd (omega arith))
    where
      stops : (i : ℕ) → ((table i).key == 0) ≡ true → empty_loop (suc rounds) table cap i ≡ at i
      stops i n = rw n refl
  empty_loop-finds (suc rounds) i (suc d) b z = elim (Bool-cases ((table i).key == 0)) [
    | inl y ↦ (0, omega arith, stops i y, ground arith, λ e l. absurd (omega arith))
    | inr n ↦
        let (c, few, found, e, full) =
          empty_loop-finds rounds (next_slot cap i) d (omega arith) z in
        (suc c, omega arith, goes_on i n ∙ found, e, full_before i n c full)
  ]
    where
      stops : (i : ℕ) → ((table i).key == 0) ≡ true → empty_loop (suc rounds) table cap i ≡ at i
      stops i n = rw n refl

      goes_on :
          (i : ℕ)
          → ((table i).key == 0) ≡ false
          → empty_loop (suc rounds) table cap i ≡ empty_loop rounds table cap (next_slot cap i)
      goes_on i y = rw y refl

      full_before :
          (i : ℕ)
          → ((table i).key == 0) ≡ false
          → (c : ℕ) → ((e : ℕ) → e < c → (table (walk cap (next_slot cap i) e)).key ≢ 0)
          → (e : ℕ) → e < suc c
          → (table (walk cap i e)).key ≢ 0
      full_before i y c full zero b = λ z. absurd (ground arith)
      full_before i y c full (suc e) b = full e (omega arith)

-- A table with a capacity, as a heap.
abbrev pub as_heap : (ℕ → Entry) → ℕ → Heap
as_heap table cap = record { table = table; capacity = cap; occupied = 0; leaves = λ _ _. 0 }

-- The fresh table holds the live entries of the first `i` slots, and nothing else.
pub record Moved (h : Heap) (cap i : ℕ) (fresh : ℕ → Entry) : Type 0 where
  pub well_formed : WellFormed (as_heap fresh cap)
  pub counted : count_full fresh cap ≡ count_live h.table i
  pub from_old :
      (m : ℕ) → m < cap → is_live (fresh m).key ≡ true → (t : ℕ) × (t < i) × (h.table t ≡ fresh m)
  pub to_fresh :
      (t : ℕ) → t < i → is_live (h.table t).key ≡ true → (m : ℕ) × (m < cap) × (fresh m ≡ h.table t)

empty_count : (cap : ℕ) → count_full (λ _. empty_entry) cap ≡ 0
empty_count zero = refl
empty_count (suc i) = omega (arith, empty_count i)

no_live_empty : {P : Type 0} → is_live 0 ≡ true → P
no_live_empty h = absurd (cc)

none-Moved : (h : Heap) (cap : ℕ) → 1 ≤ cap → Moved h cap 0 (λ _. empty_entry)
none-Moved h cap c = record {
  well_formed = record {
    reached = λ j b l. no_live_empty l;
    unique = λ i j b d l s. no_live_empty l;
    room = λ _. (0, c, refl);
  };
  counted = empty_count cap;
  from_old = λ m b l. no_live_empty l;
  to_fresh = λ t b l. absurd (omega arith);
}

module _ (h : Heap) (w : WellFormed h) (cap i : ℕ) (i_in : i < h.capacity) where
  -- A slot that is not live is passed over.
  skip-Moved :
      (fresh : ℕ → Entry)
      → is_live (h.table i).key ≡ false
      → Moved h cap i fresh
      → Moved h cap (suc i) fresh
  skip-Moved fresh dead m = record {
    well_formed = m.well_formed;
    counted = rw dead (omega (arith, m.counted));
    from_old = λ s b l. let (t, c, e) = m.from_old s b l in (t, omega arith, e);
    to_fresh = λ t b l. elim (Bool-cases (t == i)) [
      | inl y ↦
          let same : t ≡ i = ground arith in
          absurd (clash (sym l ∙ ap (λ x. is_live (h.table x).key) same ∙ dead))
      | inr o ↦ m.to_fresh t (ground arith) l
    ];
  }
    where
      clash : true ≡ false → ⊥
      clash x = cc

  module _ (fresh : ℕ → Entry) (live : is_live (h.table i).key ≡ true) (m : Moved h cap i fresh)
      (fits : count_live h.table (suc i) < cap) where
    other_key : (s : ℕ) → s < cap → (fresh s).key ≢ (h.table i).key
    other_key s b k =
        let (t, c, e) = m.from_old s b (rw k live) in
        let old : (h.table t).key ≡ (h.table i).key = ap (λ x. x.key) e ∙ k in
        let same = w.unique t i (omega arith) i_in (rw old live) old in omega arith

    one_more : count_live h.table (suc i) ≡ count_live h.table i + 1
    one_more = rw live refl

    module _ (j : ℕ) (b : j < cap) (z : (fresh j).key ≡ 0) where
      set_count : count_full (set fresh j (h.table i)) cap ≡ count_live h.table (suc i)
      set_count =
          let added =
            count_full-set fresh j (h.table i) cap b (live_not_empty (h.table i).key live) in
          let y : ((fresh j).key == 0) ≡ true = ground arith in
          added ∙ rw y (omega (arith, m.counted, one_more))

      set_from_old :
          (s : ℕ)
          → s < cap
          → is_live (set fresh j (h.table i) s).key ≡ true
          → (t : ℕ) × (t < suc i) × (h.table t ≡ set fresh j (h.table i) s)
      set_from_old s c l = elim (Bool-cases (s == j)) [
        | inl y ↦ (i, omega arith, rw y refl)
        | inr o ↦ let (t, d, e) = m.from_old s c (rw o at l) in (t, omega arith, rw o e)
      ]

      set_to_fresh :
          (t : ℕ)
          → t < suc i
          → is_live (h.table t).key ≡ true
          → (s : ℕ) × (s < cap) × (set fresh j (h.table i) s ≡ h.table t)
      set_to_fresh t c l = elim (Bool-cases (t == i)) [
        | inl y ↦
            let same : t ≡ i = ground arith in
            (j, b, set_here (as_heap fresh cap) j (h.table i) ∙ ap h.table (sym same))
        | inr o ↦
            let (s, d, e) = m.to_fresh t (ground arith) l in
            (s, d, set_other (as_heap fresh cap) j (h.table i) s (not_empty s t l e) ∙ e)
      ]
        where
          not_empty :
              (s t : ℕ) → is_live (h.table t).key ≡ true → fresh s ≡ h.table t → (s == j) ≡ false
          not_empty s t l e = elim (Bool-cases (s == j)) [
            | inr o ↦ o
            | inl y ↦
                let same : s ≡ j = ground arith in
                absurd (
                  live_not_empty (h.table t).key l
                    (ap (λ x. x.key) (sym e) ∙ ap (λ x. (fresh x).key) same ∙ z))
          ]

    -- A live entry goes to the slot that the scan finds.
    live-Moved :
        (j : ℕ) × (empty_loop cap fresh cap (slot_of (h.table i).key cap) ≡ at j)
        × Moved h cap (suc i) (set fresh j (h.table i))
    live-Moved =
        let start : ℕ = slot_of (h.table i).key cap in
        let start_in = slot_of-lt (h.table i).key cap (omega (arith, fits)) in
        let (e, b, z) = count_full-lt fresh cap (omega (arith, fits, m.counted, one_more)) in
        let (d, few, there) = walk_reaches cap start e start_in b in
        let (c, c_few, found, free, full) =
          empty_loop-finds fresh cap cap start d few (ap (λ s. (fresh s).key) there ∙ z) in
        let j = walk cap start c in
        let j_in = walk-lt cap start c start_in in
        let count = set_count j j_in free in
        (
          j,
          found,
          record {
            well_formed =
                inserted-WellFormed (as_heap fresh cap) m.well_formed (h.table i) live c c_few j
                  refl full other_key
                  (count_full-lt (set fresh j (h.table i)) cap (omega (arith, count, fits)));
            counted = count;
            from_old = set_from_old j j_in free;
            to_fresh = set_to_fresh j j_in free;
          },
        )

-- The move of the first slots ends, in a table with room for their live entries.
pub rehash-Moved :
    (h : Heap)
    → WellFormed h
    → (cap : ℕ) → 1 ≤ cap
    → (i : ℕ) → i ≤ h.capacity
    → count_live h.table i < cap
    → (fresh : ℕ → Entry) × (rehash h.table cap i ≡ some fresh) × Moved h cap i fresh
unfolding rehash
rehash-Moved h w cap c zero b f = (_, refl, none-Moved h cap c)
rehash-Moved h w cap c (suc i) b f =
    let (fresh, e, m) = rehash-Moved h w cap c i (omega arith) (omega arith) in
    elim (Bool-cases (is_live (h.table i).key)) [
      | inr n ↦ (fresh, rw (e, rehash, n) refl, skip-Moved h w cap i b fresh n m)
      | inl y ↦
          let (j, found, m') = live-Moved h w cap i b fresh y m f in
          (set fresh j (h.table i), rw (e, rehash, y, found) refl, m')
    ]
