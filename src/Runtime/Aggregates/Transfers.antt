-- ===== src/Runtime/Aggregates/Transfers.antt =====
-- What pas_initck_all sees behind each transfer of the state of leaves.
use native_pascal.Prelude.{
  ℕ, zero, suc, ◌≤◌, ◌<◌, ◌≡◌, ◌↔◌, inl, inr, Bool, true, false, [], ◌∷◌, ◌++◌, Option, none, some,
  refl, arith, leb, ◌==◌, length, take, drop, replicate, get_elem?, Bool-cases,
}
use native_pascal.Prelude.Int.{ℤ, pos}
use native_pascal.Prelude.Memory.{Bytes}
use native_pascal.Runtime.Aggregates.{
  all_loop, initck_all, move, set_all, initck_copy, initck_fill, initck_release_unacked,
  initck_receive,
}

pub data Transfer : Type 0 where
  copy : Bytes → Bool → Transfer
  fill : Bool → Transfer
  release_leaves : Bool → Transfer
  receive : Option Bytes → Transfer

abbrev pub transfer : Transfer → Bytes → ℤ → Option Bytes
transfer (copy src ok) dst n = initck_copy dst src n ok
transfer (fill ok) dst n = initck_fill dst n ok
transfer (release_leaves acked) dst n = initck_release_unacked dst n acked
transfer (receive p) dst n = initck_receive dst p n

-- The memory that a transfer reads has `n` leaves.
abbrev pub Reads : Transfer → ℕ → Type 0
Reads (copy src true) n = n ≤ length src
Reads (receive (some p)) n = n ≤ length p
Reads _ n = Unit

-- Whether all leaves are initialized behind a transfer, with an aggregate without leaves apart.
abbrev pub all_behind : Transfer → Bytes → ℕ → Option Bool
all_behind (copy src true) dst n = all_loop src n
all_behind (copy src false) dst n = some (n == 0)
all_behind (fill true) dst n = some true
all_behind (fill false) dst n = some (n == 0)
all_behind (release_leaves true) dst n = all_loop dst n
all_behind (release_leaves false) dst n = some true
all_behind (receive none) dst n = some true
all_behind (receive (some p)) dst n = all_loop p n

all_loop-take :
    (n : ℕ) (s rest : Bytes) → n ≤ length s → all_loop (take n s ++ rest) n ≡ all_loop s n
unfolding all_loop
all_loop-take zero s rest h = refl
all_loop-take (suc n) [] rest h = absurd (omega arith)
all_loop-take (suc n) (c ∷ cs) rest h = rw (all_loop-take n cs rest (omega arith)) refl

all_loop_ones : (n : ℕ) (rest : Bytes) → all_loop (replicate n 1 ++ rest) n ≡ some true
unfolding all_loop
all_loop_ones zero rest = refl
all_loop_ones (suc n) rest = all_loop_ones n rest

all_loop_zeros : (n : ℕ) (rest : Bytes) → all_loop (replicate n 0 ++ rest) n ≡ some (n == 0)
unfolding all_loop
all_loop_zeros zero rest = refl
all_loop_zeros (suc n) rest = ground arith

drop-replicate : (n c : ℕ) (rest : Bytes) → drop n (replicate n c ++ rest) ≡ rest
drop-replicate zero c rest = refl
drop-replicate (suc n) c rest = drop-replicate n c rest

drop-take : (n : ℕ) (s rest : Bytes) → n ≤ length s → drop n (take n s ++ rest) ≡ rest
drop-take zero s rest h = refl
drop-take (suc n) [] rest h = absurd (omega arith)
drop-take (suc n) (c ∷ cs) rest h = drop-take n cs rest (omega arith)

-- A transfer's result: what pas_initck_all says of it, and the leaves behind the aggregate.
pub record Result (o : Option Bytes) (dst : Bytes) (n : ℕ) (all : Option Bool) : Type 0 where
  pub behind : Bytes
  pub gives : o ≡ some behind
  pub whole : initck_all behind (pos n) ≡ all
  pub kept : drop n behind ≡ drop n dst

module _ (dst : Bytes) (n : ℕ) (room : n ≤ length dst) where
  moved : (src : Bytes) → n ≤ length src → Result (move dst src (pos n)) dst n (all_loop src n)
  unfolding initck_all
  moved src h = record {
    behind = take n src ++ drop n dst;
    gives =
        let a : leb n (length dst) ≡ true = ground arith in
        let b : leb n (length src) ≡ true = ground arith in rw (a, b) refl;
    whole = all_loop-take n src (drop n dst) h;
    kept = drop-take n src (drop n dst) h;
  }

  filled :
      (c : ℕ) {o : Option Bool}
      → all_loop (replicate n c ++ drop n dst) n ≡ o
      → Result (set_all dst c (pos n)) dst n o
  unfolding initck_all
  filled c h = record {
    behind = replicate n c ++ drop n dst;
    gives = let a : leb n (length dst) ≡ true = ground arith in rw a refl;
    whole = h;
    kept = drop-replicate n c (drop n dst);
  }

  -- A transfer of `n` leaves, with as many at its destination and its source, changes no leaf
  -- behind them. Then pas_initck_all finds all of them initialized if they were so in the source
  -- of a sound copy or of a receipt, or at the destination of a release that was acknowledged, or
  -- if the transfer sets them; and unless there are none, not behind an unsound copy or a fill
  -- with unset state.
  pub transfer-Result :
      (t : Transfer) → Reads t n → Result (transfer t dst (pos n)) dst n (all_behind t dst n)
  transfer-Result (copy src true) h = moved src h
  transfer-Result (copy src false) h = filled 0 (all_loop_zeros n (drop n dst))
  transfer-Result (fill true) h = filled 1 (all_loop_ones n (drop n dst))
  transfer-Result (fill false) h = filled 0 (all_loop_zeros n (drop n dst))
  transfer-Result (release_leaves true) h = record {
    behind = dst;
    gives = refl;
    whole = unfold initck_all in refl;
    kept = refl;
  }
  transfer-Result (release_leaves false) h = filled 1 (all_loop_ones n (drop n dst))
  transfer-Result (receive none) h = filled 1 (all_loop_ones n (drop n dst))
  transfer-Result (receive (some p)) h = moved p h

-- The leaves before `n` are initialized.
abbrev pub AllInitialized : Bytes → ℕ → Type 0
AllInitialized s n = (i c : ℕ) → i < n → get_elem? s i ≡ some c → (c == 0) ≡ false

AllInitialized-cons :
    (d : ℕ) (ds : Bytes) (n : ℕ)
    → (d == 0) ≡ false
    → AllInitialized ds n
    → AllInitialized (d ∷ ds) (suc n)
AllInitialized-cons d ds n h t zero c l e = let same : d ≡ c = ground arith in rw (← same) h
AllInitialized-cons d ds n h t (suc i) c l e = t i c (omega arith) e

all_loop-AllInitialized : (n : ℕ) (s : Bytes) → all_loop s n ≡ some true → AllInitialized s n
unfolding all_loop
all_loop-AllInitialized zero s h = λ i c l e. absurd (omega arith)
all_loop-AllInitialized (suc n) [] h = absurd (cc)
all_loop-AllInitialized (suc n) (d ∷ ds) h = elim (Bool-cases (d == 0)) [
  | inl y ↦ absurd (cc (rw (y, all_loop) at h))
  | inr k ↦ AllInitialized-cons d ds n k (all_loop-AllInitialized n ds (rw (k, all_loop) at h))
]

AllInitialized-all_loop :
    (n : ℕ) (s : Bytes) → n ≤ length s → AllInitialized s n → all_loop s n ≡ some true
unfolding all_loop
AllInitialized-all_loop zero s h a = refl
AllInitialized-all_loop (suc n) [] h a = absurd (omega arith)
AllInitialized-all_loop (suc n) (d ∷ ds) h a =
    let rest =
      AllInitialized-all_loop n ds (omega arith) (λ i c l e. a (suc i) c (omega arith) e) in
    rw (a 0 d (omega arith) refl, all_loop) rest

-- Of an aggregate of `n` leaves or more, pas_initck_all says that the first `n` are initialized if
-- and only if none of their bytes is 0.
pub initck_all_iff :
    (n : ℕ) (s : Bytes) → n ≤ length s → (initck_all s (pos n) ≡ some true) ↔ AllInitialized s n
unfolding initck_all
initck_all_iff n s h = (all_loop-AllInitialized n s, AllInitialized-all_loop n s h)
