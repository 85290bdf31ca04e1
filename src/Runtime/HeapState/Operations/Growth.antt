-- ===== src/Runtime/HeapState/Operations/Growth.antt =====
-- `reserve` of runtime/initck_heap.c makes room and keeps what is registered.
use native_pascal.Prelude.{
  ℕ, zero, suc, ◌+◌, ◌*◌, ◌≤◌, ◌≡◌, ◌↔◌, refl, sym, ap, ◌∙◌, true, ◌==◌, if◌then◌else◌, arith,
  Bool-cases, inl, inr, leb,
}
use native_pascal.Runtime.HeapState.{Entry, Heap, is_live, grow, count_live}
use native_pascal.Runtime.HeapState.Rehash.{as_heap, Moved, rehash-Moved}
use native_pascal.Runtime.HeapState.WellFormed.{WellFormed, find_iff, same_slots-WellFormed}
use native_pascal.Runtime.HeapState.Operations.{done, reserve}
use native_pascal.Runtime.HeapState.Operations.Forget.{Registered}
use native_pascal.Runtime.HeapState.Room.{Counted}

-- Enough doublings give room for twice the live entries and two more.
grow_enough :
    (rounds live cap : ℕ)
    → 1 ≤ cap
    → (live + 1) * 2 ≤ rounds + cap
    → (live + 1) * 2 ≤ grow rounds live cap
unfolding grow
grow_enough zero live cap c h = omega (arith, h)
grow_enough (suc rounds) live cap c h =
    let later = grow_enough rounds live (cap * 2) (omega arith) (omega arith) in
    ground (arith, later)

-- The same addresses have the same entries.
abbrev pub Keeps : Heap → Heap → Type 0
Keeps h h' = (k : ℕ) → is_live k ≡ true → (e : Entry) → Registered h' k e ↔ Registered h k e

-- One more address fits.
abbrev pub Loose : Heap → Type 0
Loose h = (h.occupied + 1) * 4 ≤ h.capacity * 3

module _ (h : Heap) (w : WellFormed h) where
  Moved-Keeps :
      (cap : ℕ) (fresh : ℕ → Entry)
      → Moved h cap h.capacity fresh
      → (h' : Heap) → h'.table ≡ fresh
      → h'.capacity ≡ cap
      → WellFormed h'
      → Keeps h h'
  Moved-Keeps cap fresh m h' tables caps w' k l e = (
    λ r.
        let (s, f, u) = r in
        let (b, q) = ((find_iff h' w' k l).0 s).0 f in
        let at_s : h'.table s ≡ fresh s = λ i. tables i s in
        let q' : (fresh s).key ≡ k = ap (λ x. x.key) (sym at_s) ∙ q in
        let (t, c, o) = m.from_old s (rw caps at b) (rw q' l) in
        (t, ((find_iff h w k l).0 t).1 (c, ap (λ x. x.key) o ∙ q'), o ∙ sym at_s ∙ u),
    λ r.
        let (t, f, u) = r in
        let (b, q) = ((find_iff h w k l).0 t).0 f in
        let (s, c, o) = m.to_fresh t b (rw q l) in
        let at_s : h'.table s ≡ h.table t = (λ i. tables i s) ∙ o in
        (s, ((find_iff h' w' k l).0 s).1 (rw caps c, ap (λ x. x.key) at_s ∙ q), at_s ∙ u),
  )

  -- A table with the memory that it asks for has room afterwards: well-formed, counted, and with
  -- every address's entry as it was.
  pub reserve-Keeps :
      Counted h
      → (h' : Heap) × (reserve h true ≡ done h')
        × WellFormed h'
        × Counted h'
        × Loose h'
        × Keeps h h'
        × (h'.leaves ≡ h.leaves)
  unfolding reserve
  reserve-Keeps counted = elim (Bool-cases (leb ((h.occupied + 1) * 4) (h.capacity * 3))) [
    | inl y ↦ (h, rw (reserve, y) refl, w, counted, ground arith, λ k l e. ((λ r. r), λ r. r), refl)
    | inr n ↦
        let live = count_live h.table h.capacity in
        let start : ℕ = if h.capacity == 0 then 64 else h.capacity in
        let some_start : 1 ≤ start = ground arith in
        let cap = grow ((live + 1) * 2) live start in
        let enough : (live + 1) * 2 ≤ cap =
          grow_enough ((live + 1) * 2) live start some_start (omega arith) in
        let (fresh, e, m) =
          rehash-Moved h w cap (omega arith) h.capacity (omega arith) (omega arith) in
        let h' : Heap = record {
          table = fresh;
          capacity = cap;
          occupied = live;
          leaves = h.leaves;
        } in
        let w' = same_slots-WellFormed (as_heap fresh cap) live h.leaves m.well_formed in
        (
          h',
          rw (reserve, n, e) refl,
          w',
          m.counted,
          omega arith,
          Moved-Keeps cap fresh m h' refl refl w',
          refl,
        )
  ]
