-- ===== src/Runtime/HeapState/Operations/State.antt =====
-- The state that a lookup in runtime/initck_heap.c returns.
use native_pascal.Prelude.{
  ℕ, ◌≡◌, ◌≢◌, ◌⊎◌, refl, sym, ap, ◌∙◌, Bool, true, false, not, ◌&&◌, ◌==◌, arith, Bool-cases, inl,
  inr,
}
use native_pascal.Prelude.Int.{ℤ, pos, negsuc, ltb_ℤ, ◌≤ℤ◌, ◌+ℤ◌, ◌-ℤ◌, eq_of_parts}
use native_pascal.Runtime.HeapState.{Entry, Heap, Stop, at, absent, exhausted, is_live, find}
use native_pascal.Runtime.HeapState.WellFormed.{WellFormed, find_iff}
use native_pascal.Runtime.HeapState.Operations.{
  done, memset, tracked, state_of, to_index, heap_part_at,
}
use native_pascal.Runtime.HeapState.Operations.Forget.{Registered}

-- A run of `count` leaves of a referent's own state, from an index on.
pub record Own (h : Heap) (key : ℕ) (n : ℤ) (b o : ℕ) (count : ℤ) : Type 0 where
  pub entry : Entry
  pub registered : Registered h key entry
  pub not_released : entry.released ≡ false
  pub same_count : entry.n ≡ n
  pub buffer_is : b ≡ entry.shadow
  pub in_bounds : pos o +ℤ count ≤ℤ n

-- The fallback, with its first `count` bytes set to 1 and no other buffer changed.
pub record Fallback (h h' : Heap) (b buffer : ℕ) (count : ℤ) : Type 0 where
  pub buffer_is : b ≡ buffer
  pub all_set : (i : ℕ) → ltb_ℤ (pos i) count ≡ true → h'.leaves buffer i ≡ 1
  pub others : (c i : ℕ) → c ≢ buffer → h'.leaves c i ≡ h.leaves c i
  pub same_table : h'.table ≡ h.table

-- No entry of the address answers the lookup.
abbrev pub Untracked : Heap → ℕ → ℤ → Bool → Type 0
Untracked h key n within =
    (e : Entry) → Registered h key e → (tracked e n within && not (e.shadow == 0)) ≡ false

-- The test of a lookup for a part.
abbrev pub part_within : ℤ → ℤ → ℤ → Bool
part_within n offset count =
    not (ltb_ℤ offset (pos 0)) && not (ltb_ℤ count (pos 0)) && not (ltb_ℤ (n -ℤ count) offset)

part_bounds :
    (n offset count : ℤ) → part_within n offset count ≡ true → pos (to_index offset) +ℤ count ≤ℤ n
unfolding ◌+ℤ◌ ◌-ℤ◌
part_bounds n (pos k) count h = ground arith
part_bounds n (negsuc k) count h = absurd (ground arith)

same_leaves : (e : Entry) (n : ℤ) (b : Bool) → tracked e n b ≡ true → e.n ≡ n
same_leaves e n b t = eq_of_parts e.n n (ground arith)

not_released : (e : Entry) (n : ℤ) (b : Bool) → tracked e n b ≡ true → e.released ≡ false
not_released e n b t = ground arith

tracked-within : (e : Entry) (n : ℤ) (b : Bool) → tracked e n b ≡ true → b ≡ true
tracked-within e n b t = ground arith

set-Fallback :
    (h : Heap) (buffer : ℕ) (count : ℤ)
    → Fallback h
        (record {
          table = h.table;
          capacity = h.capacity;
          occupied = h.occupied;
          leaves = memset buffer 1 count h.leaves;
        })
        buffer
        buffer
        count
set-Fallback h buffer count = record {
  buffer_is = refl;
  all_set = λ i b. let y : (buffer == buffer) ≡ true = ground arith in rw (y, b) refl;
  others = λ c i n. elim (Bool-cases (c == buffer)) [
    | inl y ↦ absurd (n (ground arith))
    | inr o ↦ rw o refl
  ];
  same_table = refl;
}

module _ (h : Heap) (key : ℕ) (n : ℤ) (within : Bool) (o buffer : ℕ) (count : ℤ)
    (bounds : within ≡ true → pos o +ℤ count ≤ℤ n) where
  -- The outcome of a lookup, given where the search stops.
  state_of-found :
      (s : Stop)
      → find h key ≡ s
      → s ≢ exhausted
      → (h' : Heap) × (b : ℕ) × (o' : ℕ) × (state_of h s n within o buffer count
          ≡ done (h', (b, o')))
        × (Own h key n b o' count ⊎ Fallback h h' b buffer count × Untracked h key n within)
  state_of-found absent f e =
      (_, buffer, 0, refl, inr (set-Fallback h buffer count, λ x r. absurd (clash (sym f ∙ r.1))))
    where
      clash : {i : ℕ} → absent ≡ at i → ⊥
      clash x = cc
  state_of-found exhausted f e = absurd (e refl)
  state_of-found (at i) f e =
      elim (Bool-cases (tracked (h.table i) n within && not ((h.table i).shadow == 0))) [
        | inl y ↦
            let t : tracked (h.table i) n within ≡ true = ground arith in
            (
              h,
              (h.table i).shadow,
              o,
              rw y refl,
              inl (record {
                entry = h.table i;
                registered = (i, f, refl);
                not_released = not_released (h.table i) n within t;
                same_count = same_leaves (h.table i) n within t;
                buffer_is = refl;
                in_bounds = bounds (tracked-within (h.table i) n within t);
              }),
            )
        | inr m ↦ (
          _,
          buffer,
          0,
          rw m refl,
          inr (set-Fallback h buffer count, λ x r. same_entry i x r.0 (sym f ∙ r.1) r.2 m),
        )
      ]
    where
      same_entry :
          (i : ℕ) (x : Entry) (j : ℕ)
          → at i ≡ at j
          → h.table j ≡ x
          → (tracked (h.table i) n within && not ((h.table i).shadow == 0)) ≡ false
          → (tracked x n within && not (x.shadow == 0)) ≡ false
      same_entry i x j a t m =
          let same : i ≡ j = cc in let u : h.table i ≡ x = ap h.table same ∙ t in rw (← u) m

module _ (h : Heap) (w : WellFormed h) (key : ℕ) (live : is_live key ≡ true) (n offset count : ℤ)
    (buffer : ℕ) where
  -- A lookup of the state of a part of a referent, in a well-formed table and at an address that
  -- is neither NULL nor the tombstone, ends either with leaves of the registered, unreleased state
  -- of the referent with the expected number of leaves, all of them inside of it, or, where no
  -- entry of the address passes the tests of the lookup, with the fallback, its leaves all set and
  -- no other state touched.
  pub heap_part_at-found :
      (h' : Heap) × (b : ℕ) × (o : ℕ) × (heap_part_at h key n offset count buffer
        ≡ done (h', (b, o)))
      × (Own h key n b o count
          ⊎ Fallback h h' b buffer count × Untracked h key n (part_within n offset count))
  unfolding heap_part_at
  heap_part_at-found =
      state_of-found h key n (part_within n offset count) (to_index offset) buffer count
        (part_bounds n offset count) (find h key) refl (find_iff h w key live).1
