-- ===== src/Runtime/Moves/Overlap.antt =====
-- What the byte moves of runtime/ do where their regions overlap, and where they do not.
use native_pascal.Prelude.{
  ℕ, zero, suc, ◌+◌, ◌-◌, ◌%◌, ◌^◌, ◌≤◌, ◌<◌, ◌≡◌, ◌⊎◌, refl, sym, ap, ◌∙◌, true, false, ◌==◌, ◌&&◌,
  ltb, leb, if◌then◌else◌, arith, Bool-cases, inl, inr,
}
use native.Mathlib.Nat.{add-mod_right, mod-eq_of_lt}
use native_pascal.Runtime.Moves.{
  Ram, write, move_up, move_down, fill_up, movel, mover, movesl, movesr, fillc, fillsc,
}

-- A region filled from a function of the index, and the rest of the memory as it was.
abbrev pub filled : (dst len : ℕ) → (ℕ → ℕ) → Ram → Ram
filled dst len byte ram a = if leb dst a && ltb a (dst + len) then byte (a - dst) else ram a

-- A write elsewhere is not seen.
write_other : (at byte : ℕ) (ram : Ram) (a : ℕ) → (a == at) ≡ false → write at byte ram a ≡ ram a
write_other at byte ram a n = rw n refl

-- Going down, the rounds below `i` read what was there before, as the writes so far are above.
move_down-filled :
    (src dst i : ℕ) (ram : Ram)
    → (src ≤ dst) ⊎ (dst + i ≤ src)
    → (a : ℕ) → move_down src dst i ram a ≡ filled dst i (λ k. ram (src + k)) ram a
unfolding move_down
move_down-filled src dst zero ram apart a = ground arith
move_down-filled src dst (suc i) ram apart a =
    let after : Ram = write (dst + i) (ram (src + i)) ram in
    let later = move_down-filled src dst i after (omega arith) a in
    elim (Bool-cases (leb dst a && ltb a (dst + i))) [
      | inl inside ↦
          let same = write_other (dst + i) (ram (src + i)) ram (src + (a - dst)) (ground arith) in
          let wider : (leb dst a && ltb a (dst + suc i)) ≡ true = ground arith in
          later ∙ rw (inside, wider) same
      | inr outside ↦ elim (Bool-cases (a == dst + i)) [
        | inl here ↦
            let wider : (leb dst a && ltb a (dst + suc i)) ≡ true = ground arith in
            let at : src + i ≡ src + (a - dst) = ground arith in
            later ∙ rw (outside, here, wider) (ap ram at)
        | inr elsewhere ↦
            let wider : (leb dst a && ltb a (dst + suc i)) ≡ false = ground arith in
            later ∙ rw (outside, elsewhere, wider) refl
      ]
    ]

-- Going up, the rounds from `i` on read what was there before, as the writes so far are below.
move_up-filled :
    (src dst left i : ℕ) (ram : Ram)
    → (dst ≤ src) ⊎ (src + (i + left) ≤ dst)
    → (a : ℕ)
    → move_up src dst left i ram a
      ≡ (if leb (dst + i) a && ltb a (dst + (i + left)) then ram (src + (a - dst)) else ram a)
unfolding move_up
move_up-filled src dst zero i ram apart a = ground arith
move_up-filled src dst (suc left) i ram apart a =
    let after : Ram = write (dst + i) (ram (src + i)) ram in
    let later = move_up-filled src dst left (i + 1) after (omega arith) a in
    elim (Bool-cases (leb (dst + (i + 1)) a && ltb a (dst + (i + 1 + left)))) [
      | inl inside ↦
          let same = write_other (dst + i) (ram (src + i)) ram (src + (a - dst)) (ground arith) in
          let wider : (leb (dst + i) a && ltb a (dst + (i + suc left))) ≡ true = ground arith in
          later ∙ rw (inside, wider) same
      | inr outside ↦ elim (Bool-cases (a == dst + i)) [
        | inl here ↦
            let wider : (leb (dst + i) a && ltb a (dst + (i + suc left))) ≡ true = ground arith in
            let at : src + i ≡ src + (a - dst) = ground arith in
            later ∙ rw (outside, here, wider) (ap ram at)
        | inr elsewhere ↦
            let wider : (leb (dst + i) a && ltb a (dst + (i + suc left))) ≡ false = ground arith in
            later ∙ rw (outside, elsewhere, wider) refl
      ]
    ]

fill_up-filled :
    (loc val left i : ℕ) (ram : Ram) (a : ℕ)
    → fill_up loc val left i ram a
      ≡ (if leb (loc + i) a && ltb a (loc + (i + left)) then val else ram a)
unfolding fill_up
fill_up-filled loc val zero i ram a = ground arith
fill_up-filled loc val (suc left) i ram a =
    ground (arith, fill_up-filled loc val left (i + 1) (write (loc + i) val ram) a)

-- Going up into a region `d` behind, the first `d` bytes repeat.
move_up-repeats :
    (src d left i : ℕ) (old ram : Ram)
    → 1 ≤ d
    → ((k : ℕ) → k < d + i → ram (src + k) ≡ old (src + k % d))
    → (k : ℕ) → k < d + (i + left)
    → move_up src (src + d) left i ram (src + k) ≡ old (src + k % d)
unfolding move_up
move_up-repeats src d zero i old ram h so_far k b = so_far k (omega arith)
move_up-repeats src d (suc left) i old ram h so_far k b =
    move_up-repeats src d left (i + 1) old (write (src + d + i) (ram (src + i)) ram) h one_more k
      (omega arith)
  where
    one_more :
        (j : ℕ)
        → j < d + (i + 1)
        → write (src + d + i) (ram (src + i)) ram (src + j) ≡ old (src + j % d)
    one_more j c = elim (Bool-cases (src + j == src + d + i)) [
      | inl here ↦
          let at : j ≡ i + d = ground arith in
          rw here (
            so_far i (omega arith)
            ∙ ap (λ m. old (src + m)) (sym (add-mod_right i d) ∙ ap (λ n. n % d) (sym at)))
      | inr elsewhere ↦ rw elsewhere (so_far j (ground arith))
    ]

-- The region at `dst` with the bytes that were at `src`, and the rest of the memory as it was.
abbrev pub copied : (src dst len : ℕ) → Ram → Ram
copied src dst len ram = filled dst len (λ k. ram (src + k)) ram

word_length : (len : ℕ) → len < 2 ^ 16 → len % 2 ^ 16 ≡ len
word_length len h = omega arith

module _ (src dst len : ℕ) (ram : Ram) (h : len < 2 ^ 16) where
  -- With a 16-bit length, where the destination is not behind the source's start but inside of it,
  -- MOVEL and MOVESL copy the source as it was, and change nothing else.
  pub movel-copied :
      (dst ≤ src) ⊎ (src + len ≤ dst)
      → (a : ℕ)
      → (movel src dst len ram a ≡ copied src dst len ram a)
        × (movesl src dst len ram a ≡ copied src dst len ram a)
  unfolding movel movesl
  movel-copied apart a =
      let e : move_up src dst len 0 ram a ≡ copied src dst len ram a =
        ground (arith, move_up-filled src dst len 0 ram (omega arith) a) in
      (rw (word_length len h) e, rw (word_length len h) e)

  -- With a 16-bit length, where the source is not behind the destination's start but inside of it,
  -- MOVER and MOVESR copy the source as it was, and change nothing else.
  pub mover-copied :
      (src ≤ dst) ⊎ (dst + len ≤ src)
      → (a : ℕ)
      → (mover src dst len ram a ≡ copied src dst len ram a)
        × (movesr src dst len ram a ≡ copied src dst len ram a)
  unfolding mover movesr
  mover-copied apart a =
      let e = move_down-filled src dst len ram apart a in
      (rw (word_length len h) e, rw (word_length len h) e)

-- With a 16-bit length, MOVEL and MOVESL to a destination that starts some bytes behind the
-- source's start repeat these first bytes through the destination.
pub movel-repeats :
    (src d len : ℕ) (ram : Ram)
    → len < 2 ^ 16
    → 1 ≤ d
    → (k : ℕ) → k < d + len
    → (movel src (src + d) len ram (src + k) ≡ ram (src + k % d))
      × (movesl src (src + d) len ram (src + k) ≡ ram (src + k % d))
unfolding movel movesl
movel-repeats src d len ram h some_ahead k b =
    let e =
      move_up-repeats src d len 0 ram ram some_ahead
        (λ j c. ap (λ n. ram (src + n)) (sym (mod-eq_of_lt {m = d} (omega arith)))) k
        (omega arith) in
    (rw (word_length len h) e, rw (word_length len h) e)

-- With a 16-bit length, FILLC and FILLSC put the byte at each address of the region, and change
-- nothing else.
pub fillc-filled :
    (loc len val : ℕ) (ram : Ram)
    → len < 2 ^ 16
    → (a : ℕ)
    → (fillc loc len val ram a ≡ filled loc len (λ _. val) ram a)
      × (fillsc loc len val ram a ≡ filled loc len (λ _. val) ram a)
unfolding fillc fillsc
fillc-filled loc len val ram h a =
    let e : fill_up loc val len 0 ram a ≡ filled loc len (λ _. val) ram a =
      ground (arith, fill_up-filled loc val len 0 ram a) in
    (rw (word_length len h) e, rw (word_length len h) e)
