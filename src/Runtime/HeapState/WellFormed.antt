-- ===== src/Runtime/HeapState/WellFormed.antt =====
-- The invariant of the table in runtime/initck_heap.c, under which `find` finds what is in it.
use native_pascal.Prelude.{
  ℕ, ◌≤◌, ◌<◌, ◌≡◌, ◌≢◌, ◌↔◌, refl, sym, ap, ◌∙◌, true, false, ◌==◌, arith, Bool-cases, inl, inr,
}
use native.Mathlib.Nat.{mod-lt}
use native_pascal.Runtime.HeapState.{
  Entry, Heap, Leaves, at, absent, exhausted, slot_of, is_live, tombstone, find_loop, find, set,
}
use native_pascal.Runtime.HeapState.Probe.{
  walk, walk_reaches, find_loop-at, find_loop-finds, find_loop-ends,
}

-- A scan for the key of slot `j` reaches the slot with no empty slot before it.
pub record Reached (h : Heap) (j : ℕ) : Type 0 where
  pub steps : ℕ
  pub few : steps < h.capacity
  pub ends : walk h.capacity (slot_of (h.table j).key h.capacity) steps ≡ j
  pub full :
      (e : ℕ)
      → e < steps
      → (h.table (walk h.capacity (slot_of (h.table j).key h.capacity) e)).key ≢ 0

pub record WellFormed (h : Heap) : Type 0 where
  pub reached : (j : ℕ) → j < h.capacity → is_live (h.table j).key ≡ true → Reached h j
  pub unique :
      (i j : ℕ)
      → i < h.capacity
      → j < h.capacity
      → is_live (h.table i).key ≡ true
      → (h.table i).key ≡ (h.table j).key
      → i ≡ j
  pub room : 1 ≤ h.capacity → (e : ℕ) × (e < h.capacity) × ((h.table e).key ≡ 0)

pub slot_of-lt : (key cap : ℕ) → 1 ≤ cap → slot_of key cap < cap
unfolding slot_of
slot_of-lt key cap h = mod-lt _ h

module _ (h : Heap) (w : WellFormed h) (key : ℕ) (live : is_live key ≡ true) where
  find_is_loop :
      1 ≤ h.capacity
      → find h key ≡ find_loop h.capacity h.table h.capacity key (slot_of key h.capacity)
  unfolding find
  find_is_loop c = ground arith

  find_none : h.capacity ≡ 0 → find h key ≡ absent
  unfolding find
  find_none c = ground arith

  find-at : (i : ℕ) → find h key ≡ at i → (i < h.capacity) × ((h.table i).key ≡ key)
  find-at i e = elim (Bool-cases (h.capacity == 0)) [
    | inl z ↦ absurd (cc (find_none (ground arith), e))
    | inr n ↦
        let c : 1 ≤ h.capacity = ground arith in
        find_loop-at h.table h.capacity key h.capacity (slot_of key h.capacity) i
          (slot_of-lt key h.capacity c) (sym (find_is_loop c) ∙ e)
  ]

  at-find : (i : ℕ) → i < h.capacity → (h.table i).key ≡ key → find h key ≡ at i
  at-find i b k =
      let c : 1 ≤ h.capacity = omega arith in
      let r = w.reached i b (rw k live) in
      let start : slot_of (h.table i).key h.capacity ≡ slot_of key h.capacity =
        ap (λ x. slot_of x h.capacity) k in
      let (j, found) =
        find_loop-finds h.table h.capacity key h.capacity (slot_of key h.capacity) r.steps
          (slot_of-lt key h.capacity c) r.few (rw start at r.full)
          (ap (λ s. (h.table s).key) (rw start at r.ends) ∙ k) in
      let e : find h key ≡ at j = find_is_loop c ∙ found in
      let (b', k') = find-at j e in
      let same : i ≡ j = w.unique i j b b' (rw k live) (k ∙ sym k') in e ∙ ap at (sym same)

  find-ends : find h key ≢ exhausted
  find-ends e = elim (Bool-cases (h.capacity == 0)) [
    | inl z ↦ absurd (cc (find_none (ground arith), e))
    | inr n ↦
        let c : 1 ≤ h.capacity = ground arith in
        let (spare, b, z) = w.room c in
        let (d, few, there) =
          walk_reaches h.capacity (slot_of key h.capacity) spare (slot_of-lt key h.capacity c) b in
        find_loop-ends h.table h.capacity key h.capacity (slot_of key h.capacity) d
          (slot_of-lt key h.capacity c) few (ap (λ s. (h.table s).key) there ∙ z)
          (sym (find_is_loop c) ∙ e)
  ]

-- In a well-formed table, the search for an address that is neither NULL nor the tombstone finds
-- the slot that holds it, if one does and no other, and does not run round for ever.
pub find_iff :
    (h : Heap)
    → WellFormed h
    → (key : ℕ) → is_live key ≡ true
    → ((i : ℕ) → (find h key ≡ at i) ↔ ((i < h.capacity) × ((h.table i).key ≡ key)))
      × (find h key ≢ exhausted)
find_iff h w key live =
    (λ i. (find-at h w key live i, λ r. at-find h w key live i r.0 r.1), find-ends h w key live)

-- The heap with one entry changed.
abbrev pub with_entry : Heap → ℕ → Entry → Heap
with_entry h i e = record {
  table = set h.table i e;
  capacity = h.capacity;
  occupied = h.occupied;
  leaves = h.leaves;
}

-- The key of an entry is no 0 where the changed one's is none and the old one's was none.
pub set_full :
    (h : Heap) (i : ℕ) (e : Entry) (j : ℕ)
    → e.key ≢ 0
    → (h.table j).key ≢ 0
    → (set h.table i e j).key ≢ 0
set_full h i e j n f = elim (Bool-cases (j == i)) [ inl y ↦ rw y n | inr o ↦ rw o f ]

module _ (h : Heap) (i : ℕ) (e : Entry) where
  pub set_other : (j : ℕ) → (j == i) ≡ false → set h.table i e j ≡ h.table j
  set_other j o = rw o refl

  pub set_here : set h.table i e i ≡ e
  set_here = let y : (i == i) ≡ true = ground arith in rw y refl

  -- The way to another slot is as full as it was, if the changed entry is not empty.
  pub other-Reached :
      e.key ≢ 0
      → (j : ℕ) → (set h.table i e j).key ≡ (h.table j).key
      → Reached h j
      → Reached (with_entry h i e) j
  other-Reached n j s r = record {
    steps = r.steps;
    few = r.few;
    ends = ap (λ x. walk h.capacity (slot_of x h.capacity) r.steps) s ∙ r.ends;
    full = λ d b.
        let start : walk h.capacity (slot_of (set h.table i e j).key h.capacity) d
            ≡ walk h.capacity (slot_of (h.table j).key h.capacity) d =
          ap (λ x. walk h.capacity (slot_of x h.capacity) d) s in
        rw start
          (set_full h i e (walk h.capacity (slot_of (h.table j).key h.capacity) d) n (r.full d b));
  }

  -- An empty slot stays one.
  other_room :
      (h.table i).key ≢ 0
      → (a : ℕ) × (a < h.capacity) × ((h.table a).key ≡ 0)
      → (a : ℕ) × (a < h.capacity) × ((set h.table i e a).key ≡ 0)
  other_room n (a, b, z) = elim (Bool-cases (a == i)) [
    | inl y ↦ let same : a ≡ i = ground arith in absurd (n (rw same at z))
    | inr o ↦ (a, b, ap (λ x. x.key) (set_other a o) ∙ z)
  ]

pub live_not_empty : (key : ℕ) → is_live key ≡ true → key ≢ 0
live_not_empty key live z = absurd (ground arith)

module _ (h : Heap) (w : WellFormed h) (i : ℕ) (live : is_live (h.table i).key ≡ true)
    (e : Entry) where
  -- A live entry of the changed table is an old one, if the changed entry is deleted.
  pub is_other :
      e.key ≡ tombstone → (j : ℕ) → is_live (set h.table i e j).key ≡ true → (j == i) ≡ false
  is_other k j l = elim (Bool-cases (j == i)) [
    | inr o ↦ o
    | inl y ↦ let dead : is_live e.key ≡ true = rw y at l in absurd (ground arith)
  ]

  -- Deleting an entry keeps the table well-formed.
  pub deleted-WellFormed : e.key ≡ tombstone → WellFormed (with_entry h i e)
  deleted-WellFormed k = record {
    reached = λ j c l.
        let s = set_other h i e j (is_other k j l) in
        other-Reached h i e (λ z. absurd (ground arith)) j (ap (λ x. x.key) s)
          (w.reached j c (rw s at l));
    unique = λ j m c d l same.
        let s = set_other h i e j (is_other k j l) in
        let t = set_other h i e m (is_other k m (rw same at l)) in
        w.unique j m c d (rw s at l) (rw (s, t) at same);
    room = λ c. other_room h i e (live_not_empty (h.table i).key live) (w.room c);
  }

  -- So does a change of the rest of an entry.
  pub changed-WellFormed : e.key ≡ (h.table i).key → WellFormed (with_entry h i e)
  changed-WellFormed k =
      let same_key : (j : ℕ) → (set h.table i e j).key ≡ (h.table j).key = keeps_keys k in
      record {
        reached = λ j c l.
            other-Reached h i e (λ z. live_not_empty (h.table i).key live (sym k ∙ z)) j
              (same_key j) (w.reached j c (rw (same_key j) at l));
        unique = λ j m c d l same.
            w.unique j m c d (rw (same_key j) at l) (sym (same_key j) ∙ same ∙ same_key m);
        room = λ c. other_room h i e (live_not_empty (h.table i).key live) (w.room c);
      }
    where
      keeps_keys : e.key ≡ (h.table i).key → (j : ℕ) → (set h.table i e j).key ≡ (h.table j).key
      keeps_keys k j = elim (Bool-cases (j == i)) [
        | inl y ↦ let here : j ≡ i = ground arith in rw y (k ∙ ap (λ m. (h.table m).key) (sym here))
        | inr o ↦ rw o refl
      ]

-- The invariant is about the slots only.
pub same_slots-WellFormed :
    (h : Heap) (occupied : ℕ) (leaves : Leaves)
    → WellFormed h
    → WellFormed
        (record { table = h.table; capacity = h.capacity; occupied = occupied; leaves = leaves })
same_slots-WellFormed h occupied leaves w = record {
  reached = λ j b l.
      let r = w.reached j b l in
      record { steps = r.steps; few = r.few; ends = r.ends; full = r.full };
  unique = w.unique;
  room = w.room;
}
