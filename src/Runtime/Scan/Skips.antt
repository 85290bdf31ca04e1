-- ===== src/Runtime/Scan/Skips.antt =====
-- SCANEQ and SCANNE against the characters that a scan passes.
use native_pascal.Prelude.{
  ℕ, zero, suc, ◌+◌, ◌-◌, ◌≤◌, ◌<◌, ◌≡◌, ◌⊎◌, inl, inr, Bool, true, false, Option, some, refl,
  arith, length, get_elem?, Bool-cases, dec_lt,
}
use native_pascal.Prelude.Int.{ℤ, pos, negsuc, sub_ℕ}
use native_pascal.Prelude.Memory.{Bytes, get_elem?-lt, from_index}
use native_pascal.Runtime.Scan.{stops, forward, backward, scan_impl}

-- Whether the character at the 0-based offset `i` stops the scan; a character there is given.
abbrev pub StopsAt : Bool → ℕ → Bytes → ℕ → Bool → Type 0
StopsAt stop_on_equal p chars i b =
    (ch : ℕ) → get_elem? chars i ≡ some ch → stops stop_on_equal p ch ≡ b

module _ (p : ℕ) (chars : Bytes) (stop_on_equal : Bool) where
  -- A scan of at most `n` characters at offsets `at 0`, `at 1`, ..., all those below `room`:
  -- it stops behind `k` of them, or passes them all.
  abbrev pub Scans : (ℕ → ℕ) → ℕ → ℕ → ℕ → Type 0
  Scans at room n k =
      (k < n)
      × (k < room)
      × StopsAt stop_on_equal p chars (at k) true
      × ((j : ℕ) → j < k → StopsAt stop_on_equal p chars (at j) false)

  abbrev pub PassesAll : (ℕ → ℕ) → ℕ → ℕ → Type 0
  PassesAll at room n = (j : ℕ) → j < n → j < room → StopsAt stop_on_equal p chars (at j) false

  -- `result` is the signed count `signed k` at the first stop character, or the limit if the scan
  -- passes all characters.
  abbrev pub IsScan : (ℕ → ℕ) → (ℕ → ℤ) → ℕ → ℕ → ℤ → Option ℤ → Type 0
  IsScan at signed room n limit result =
      ((k : ℕ) × (result ≡ some (signed k)) × Scans at room n k)
      ⊎ ((result ≡ some limit) × PassesAll at room n)

  StopsAt-of :
      {ch : ℕ} {b : Bool} (i : ℕ)
      → get_elem? chars i ≡ some ch
      → stops stop_on_equal p ch ≡ b
      → StopsAt stop_on_equal p chars i b
  StopsAt-of {ch} i e s c f = let same : ch ≡ c = ground arith in rw (← same) s

  module _ (limit : ℤ) where
    -- Behind `s` characters, with `left` to go.
    From : (ℕ → ℕ) → (ℕ → ℤ) → ℕ → ℕ → ℕ → Option ℤ → Type 0
    From at signed room s left result =
        ((k : ℕ) × (result ≡ some (signed k))
          × (s ≤ k)
          × (k < s + left)
          × (k < room)
          × StopsAt stop_on_equal p chars (at k) true
          × ((j : ℕ) → s ≤ j → j < k → StopsAt stop_on_equal p chars (at j) false))
        ⊎ ((result ≡ some limit)
            × ((j : ℕ)
                → s ≤ j
                → j < s + left
                → j < room
                → StopsAt stop_on_equal p chars (at j) false))

    From-cons :
        (at : ℕ → ℕ) (signed : ℕ → ℤ) (room s left : ℕ) (result : Option ℤ)
        → StopsAt stop_on_equal p chars (at s) false
        → From at signed room (s + 1) left result
        → From at signed room s (suc left) result
    unfolding From
    From-cons at signed room s left result here (inl (k, e, lo, hi, in_room, stop, before)) = inl (
      k,
      e,
      omega arith,
      omega arith,
      in_room,
      stop,
      λ j a b.
          from_index (λ j. StopsAt stop_on_equal p chars (at j) false) s j a here
            (λ later. before j later b),
    )
    From-cons at signed room s left result here (inr (e, passes)) = inr (
      e,
      λ j a b c.
          from_index (λ j. StopsAt stop_on_equal p chars (at j) false) s j a here
            (λ later. passes j later (omega arith) c),
    )

    From-stop :
        (at : ℕ → ℕ) (signed : ℕ → ℤ) (room s left : ℕ) (result : Option ℤ)
        → s < room
        → StopsAt stop_on_equal p chars (at s) true
        → result ≡ some (signed s)
        → From at signed room s (suc left) result
    unfolding From
    From-stop at signed room s left result in_room stop e =
        inl (s, e, omega arith, omega arith, in_room, stop, λ j a b. absurd (omega arith))

    From-end :
        (at : ℕ → ℕ) (signed : ℕ → ℤ) (room s left : ℕ) (result : Option ℤ)
        → (room ≤ s) ⊎ (left ≡ 0)
        → result ≡ some limit
        → From at signed room s left result
    unfolding From
    From-end at signed room s left result over e = inr (e, λ j a b c. absurd (ground arith))

    forward_next :
        (len left i s : ℕ) {ch : ℕ}
        → i ≤ len
        → get_elem? chars (i - 1) ≡ some ch
        → stops stop_on_equal p ch ≡ false
        → forward limit p chars stop_on_equal len (suc left) i s
          ≡ forward limit p chars stop_on_equal len left (i + 1) (s + 1)
    unfolding forward
    forward_next len left i s a e f = ground arith

    forward_stop :
        (len left i s : ℕ) {ch : ℕ}
        → i ≤ len
        → get_elem? chars (i - 1) ≡ some ch
        → stops stop_on_equal p ch ≡ true
        → forward limit p chars stop_on_equal len (suc left) i s ≡ some (pos s)
    unfolding forward
    forward_stop len left i s a e f = ground arith

    forward_end :
        (len left i s : ℕ) → len < i → forward limit p chars stop_on_equal len left i s ≡ some limit
    unfolding forward
    forward_end len zero i s a = refl
    forward_end len (suc left) i s a = ground arith

    abbrev ahead : ℕ → ℕ → ℕ
    ahead st j = st + j - 1

    abbrev behind : ℕ → ℕ → ℕ
    behind st j = st - 1 - j

    forward-From :
        (len st left i s : ℕ)
        → 1 ≤ st
        → len ≤ length chars
        → i ≡ st + s
        → From
            (ahead st)
            pos
            (len + 1 - st)
            s
            left
            (forward limit p chars stop_on_equal len left i s)
    forward-From len st zero i s sp fits e =
        From-end (ahead st) pos (len + 1 - st) s 0 _ (inr refl) (unfold forward in refl)
    forward-From len st (suc left) i s sp fits e = elim (dec_lt len i) [
      | yes far ↦
          From-end (ahead st) pos (len + 1 - st) s (suc left) _ (inl (omega arith))
            (forward_end len (suc left) i s far)
      | no near ↦
          let (ch, at) = get_elem?-lt chars (i - 1) (omega arith) in
          let spot : i - 1 ≡ ahead st s = omega arith in
          let read : get_elem? chars (ahead st s) ≡ some ch = rw (← spot) at in
          elim (Bool-cases (stops stop_on_equal p ch)) [
            | inl y ↦
                From-stop (ahead st) pos (len + 1 - st) s left _ (omega arith)
                  (StopsAt-of (ahead st s) read y) (forward_stop len left i s (omega arith) at y)
            | inr n ↦ rw (forward_next len left i s (omega arith) at n) (
                From-cons (ahead st) pos (len + 1 - st) s left _ (StopsAt-of (ahead st s) read n)
                  (forward-From len st left (i + 1) (s + 1) sp fits (omega arith)))
          ]
    ]

    abbrev signed : ℕ → ℤ
    signed k = sub_ℕ 0 k

    backward_next :
        (left i s : ℕ) {ch : ℕ}
        → 1 ≤ i
        → get_elem? chars (i - 1) ≡ some ch
        → stops stop_on_equal p ch ≡ false
        → backward limit p chars stop_on_equal (suc left) i s
          ≡ backward limit p chars stop_on_equal left (i - 1) (s + 1)
    unfolding backward
    backward_next left i s a e f = ground arith

    backward_stop :
        (left i s : ℕ) {ch : ℕ}
        → 1 ≤ i
        → get_elem? chars (i - 1) ≡ some ch
        → stops stop_on_equal p ch ≡ true
        → backward limit p chars stop_on_equal (suc left) i s ≡ some (signed s)
    unfolding backward
    backward_stop left i s a e f = ground arith

    backward_end :
        (left i s : ℕ) → i < 1 → backward limit p chars stop_on_equal left i s ≡ some limit
    unfolding backward
    backward_end zero i s a = refl
    backward_end (suc left) i s a = ground arith

    backward-From :
        (st left i s : ℕ)
        → st ≤ length chars
        → i ≡ st - s
        → From (behind st) signed st s left (backward limit p chars stop_on_equal left i s)
    backward-From st zero i s fits e =
        From-end (behind st) signed st s 0 _ (inr refl) (unfold backward in refl)
    backward-From st (suc left) i s fits e = elim (dec_lt i 1) [
      | yes far ↦
          From-end (behind st) signed st s (suc left) _ (inl (omega arith))
            (backward_end (suc left) i s far)
      | no near ↦
          let (ch, at) = get_elem?-lt chars (i - 1) (omega arith) in
          let spot : i - 1 ≡ behind st s = omega arith in
          let read : get_elem? chars (behind st s) ≡ some ch = rw (← spot) at in
          elim (Bool-cases (stops stop_on_equal p ch)) [
            | inl y ↦
                From-stop (behind st) signed st s left _ (omega arith)
                  (StopsAt-of (behind st s) read y) (backward_stop left i s (omega arith) at y)
            | inr n ↦ rw (backward_next left i s (omega arith) at n) (
                From-cons (behind st) signed st s left _ (StopsAt-of (behind st s) read n)
                  (backward-From st left (i - 1) (s + 1) fits (omega arith)))
          ]
    ]

    From-IsScan :
        (at : ℕ → ℕ) (sign : ℕ → ℤ) (room n : ℕ) (result : Option ℤ)
        → From at sign room 0 n result
        → IsScan at sign room n limit result
    unfolding From
    From-IsScan at sign room n result (inl (k, e, lo, hi, in_room, stop, before)) =
        inl (k, e, (omega arith, in_room, stop, λ j a. before j (omega arith) a))
    From-IsScan at sign room n result (inr (e, passes)) =
        inr (e, λ j a b. passes j (omega arith) (omega arith) b)

  scan_impl-forward :
      (l len st : ℕ)
      → 1 ≤ st
      → st ≤ len
      → scan_impl (pos (suc l)) p (some chars) (pos len) (pos st) stop_on_equal
        ≡ forward (pos (suc l)) p chars stop_on_equal len (suc l) st 0
  unfolding scan_impl
  scan_impl-forward l len st a b = ground arith

  scan_impl-backward :
      (l len st : ℕ)
      → 1 ≤ st
      → st ≤ len
      → scan_impl (negsuc l) p (some chars) (pos len) (pos st) stop_on_equal
        ≡ backward (negsuc l) p chars stop_on_equal (suc l) st 0
  unfolding scan_impl
  scan_impl-backward l len st a b = ground arith

  -- From a start within a string that its storage holds, a scan for a positive limit L counts the
  -- characters that it passes going forward before the first stop character, among the L characters
  -- from the start and within the string, and returns L where there is none. For a negative limit
  -- it does so going backward to the string's first character, with the count negated. It reads
  -- nothing out of range.
  pub scan_impl-IsScan :
      (l len st : ℕ)
      → 1 ≤ st
      → st ≤ len
      → len ≤ length chars
      → IsScan
          (λ j. st + j - 1)
          pos
          (len + 1 - st)
          (suc l)
          (pos (suc l))
          (scan_impl (pos (suc l)) p (some chars) (pos len) (pos st) stop_on_equal)
        × IsScan
            (λ j. st - 1 - j)
            (λ k. sub_ℕ 0 k)
            st
            (suc l)
            (negsuc l)
            (scan_impl (negsuc l) p (some chars) (pos len) (pos st) stop_on_equal)
  scan_impl-IsScan l len st sp le fits = (
    rw (scan_impl-forward l len st sp le) (
        From-IsScan (pos (suc l)) (λ j. st + j - 1) pos (len + 1 - st) (suc l) _
          (forward-From (pos (suc l)) len st (suc l) st 0 sp fits (omega arith))),
    rw (scan_impl-backward l len st sp le) (
        From-IsScan (negsuc l) (λ j. st - 1 - j) (λ k. sub_ℕ 0 k) st (suc l) _
          (backward-From (negsuc l) st (suc l) st 0 (omega arith) (omega arith))),
  )
