-- ===== src/Runtime/HeapState/Insert.antt =====
-- A new entry in the table of runtime/initck_heap.c.
use native_pascal.Prelude.{ℕ, ◌<◌, ◌≡◌, ◌≢◌, sym, ap, ◌∙◌, true, ◌==◌, arith, Bool-cases, inl, inr}
use native_pascal.Runtime.HeapState.{Entry, Heap, slot_of, is_live, set}
use native_pascal.Runtime.HeapState.Probe.{walk}
use native_pascal.Runtime.HeapState.WellFormed.{
  Reached, WellFormed, with_entry, set_other, set_here, set_full, other-Reached, live_not_empty,
}

-- Slot `j`, reached past no empty slot, takes an entry whose address the table does not have.
module _ (h : Heap) (w : WellFormed h) (e : Entry) (live : is_live e.key ≡ true) (c : ℕ)
    (few : c < h.capacity) (j : ℕ) (there : walk h.capacity (slot_of e.key h.capacity) c ≡ j)
    (passed : (d : ℕ) → d < c → (h.table (walk h.capacity (slot_of e.key h.capacity) d)).key ≢ 0)
    (is_new : (i : ℕ) → i < h.capacity → (h.table i).key ≢ e.key) where
  new-Reached : Reached (with_entry h j e) j
  new-Reached =
      let k : (set h.table j e j).key ≡ e.key = ap (λ x. x.key) (set_here h j e) in
      record {
        steps = c;
        few = few;
        ends = ap (λ x. walk h.capacity (slot_of x h.capacity) c) k ∙ there;
        full = λ d b.
            let start : walk h.capacity (slot_of (set h.table j e j).key h.capacity) d
                ≡ walk h.capacity (slot_of e.key h.capacity) d =
              ap (λ x. walk h.capacity (slot_of x h.capacity) d) k in
            rw start (
              set_full h j e (walk h.capacity (slot_of e.key h.capacity) d)
                (live_not_empty e.key live) (passed d b));
      }

  pub inserted-WellFormed :
      ((a : ℕ) × (a < h.capacity) × ((set h.table j e a).key ≡ 0)) → WellFormed (with_entry h j e)
  inserted-WellFormed spare = record {
    reached = λ m b l. elim (Bool-cases (m == j)) [
      | inl y ↦ let same : m ≡ j = ground arith in rw same new-Reached
      | inr o ↦
          let s = set_other h j e m o in
          other-Reached h j e (live_not_empty e.key live) m (ap (λ x. x.key) s)
            (w.reached m b (rw s at l))
    ];
    unique = λ m n b d l same. apart m n b d l same;
    room = λ _. spare;
  }
    where
      apart :
          (m n : ℕ)
          → m < h.capacity
          → n < h.capacity
          → is_live (set h.table j e m).key ≡ true
          → (set h.table j e m).key ≡ (set h.table j e n).key
          → m ≡ n
      apart m n b d l same = elim (Bool-cases (m == j)) [
        | inl y ↦ elim (Bool-cases (n == j)) [
          | inl z ↦ ground arith
          | inr z ↦ absurd (is_new n d (sym (rw (y, z) at same)))
        ]
        | inr y ↦ elim (Bool-cases (n == j)) [
          | inl z ↦ absurd (is_new m b (rw (y, z) at same))
          | inr z ↦ w.unique m n b d (rw y at l) (rw (y, z) at same)
        ]
      ]
