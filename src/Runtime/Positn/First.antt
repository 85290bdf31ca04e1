-- ===== src/Runtime/Positn/First.antt =====
-- POSITN against the positions at which the pattern stands.
use native_pascal.Prelude.{
  ℕ, zero, suc, ◌+◌, ◌-◌, ◌≤◌, ◌<◌, ◌≡◌, ◌≢◌, ◌⊎◌, inl, inr, true, false, some, refl, sym, ap, ◌∙◌,
  arith, length, get_elem?, ◌==◌, ==_iff, Bool-cases, dec_lt,
}
use native_pascal.Prelude.Int.{pos}
use native_pascal.Prelude.Memory.{Bytes, get_elem?-lt, from_index}
use native_pascal.Runtime.Positn.{matches, find_from, positn_in, positn_from}

-- The first `n` bytes of `needle` stand in `haystack` at the 0-based offset `i`.
abbrev pub MatchesAt : Bytes → Bytes → ℕ → ℕ → Type 0
MatchesAt haystack needle n i = (j : ℕ) → j < n → get_elem? haystack (i + j) ≡ get_elem? needle j

-- `r` is the 1-based position of the first match at or after `start` within the first `haylen`
-- bytes, or 0 if there is none.
abbrev pub IsFirstMatch : Bytes → ℕ → Bytes → ℕ → ℕ → ℕ → Type 0
IsFirstMatch haystack haylen needle needlelen start r =
    ((r ≡ 0)
      × ((i : ℕ)
          → start ≤ i + 1
          → i + needlelen ≤ haylen
          → ¬ MatchesAt haystack needle needlelen i))
    ⊎ ((i : ℕ) × (r ≡ i + 1)
        × (start ≤ r)
        × (i + needlelen ≤ haylen)
        × MatchesAt haystack needle needlelen i
        × ((k : ℕ) → start ≤ k + 1 → k < i → ¬ MatchesAt haystack needle needlelen k))

module _ (haystack needle : Bytes) where
  -- The bytes from `j` on agree, and the inner loop says so, or some byte differs.
  Compared : ℕ → ℕ → ℕ → Type 0
  Compared i left j =
      ((matches haystack needle i left j ≡ some true)
        × ((k : ℕ) → j ≤ k → k < j + left → get_elem? haystack (i + k) ≡ get_elem? needle k))
      ⊎ ((matches haystack needle i left j ≡ some false)
          × (k : ℕ) × (k < j + left)
          × (get_elem? haystack (i + k) ≢ get_elem? needle k))

  module _ (i left j : ℕ) {a b : ℕ} (ea : get_elem? haystack (i + j) ≡ some a)
      (eb : get_elem? needle j ≡ some b) where
    matches-suc_eq :
        a ≡ b → matches haystack needle i (suc left) j ≡ matches haystack needle i left (j + 1)
    unfolding matches
    matches-suc_eq e = ground (arith, (==_iff a b).1 e)

    matches-suc_ne : (a == b) ≡ false → matches haystack needle i (suc left) j ≡ some false
    unfolding matches
    matches-suc_ne e = ground arith

    Compared-cons : a ≡ b → Compared i left (j + 1) → Compared i (suc left) j
    unfolding Compared
    Compared-cons e (inl (m, same)) = inl (
      matches-suc_eq e ∙ m,
      λ k p q.
          from_index (λ k. get_elem? haystack (i + k) ≡ get_elem? needle k) j k p
            (ea ∙ ap some e ∙ sym eb) (λ r. same k r (omega arith)),
    )
    Compared-cons e (inr (m, k, p, ne)) = inr (matches-suc_eq e ∙ m, k, omega arith, ne)

    Compared-ne : (a == b) ≡ false → Compared i (suc left) j
    unfolding Compared
    Compared-ne e = inr (matches-suc_ne e, j, omega arith, λ same. ground arith)

  matches-Compared :
      (i left j : ℕ)
      → i + (j + left) ≤ length haystack
      → j + left ≤ length needle
      → Compared i left j
  matches-Compared i zero j h n =
      unfold Compared matches in inl (refl, λ k p q. absurd (omega arith))
  matches-Compared i (suc left) j h n =
      let (a, ea) = get_elem?-lt haystack (i + j) (omega arith) in
      let (b, eb) = get_elem?-lt needle j (omega arith) in
      elim (Bool-cases (a == b)) [
        | inl e ↦
            Compared-cons i left j ea eb ((==_iff a b).0 e)
              (matches-Compared i left (j + 1) (omega arith) (omega arith))
        | inr e ↦ Compared-ne i left j ea eb e
      ]

  -- One round of the outer loop decides whether there is a match.
  Decides : ℕ → ℕ → Type 0
  Decides i n =
      ((matches haystack needle i n 0 ≡ some true) × MatchesAt haystack needle n i)
      ⊎ ((matches haystack needle i n 0 ≡ some false) × ¬ MatchesAt haystack needle n i)

  Compared-Decides : (i n : ℕ) → Compared i n 0 → Decides i n
  unfolding Compared Decides
  Compared-Decides i n (inl (m, same)) = inl (m, λ j p. same j (omega arith) (omega arith))
  Compared-Decides i n (inr (m, j, p, ne)) = inr (m, λ all. ne (all j (omega arith)))

  matches-Decides : (i n : ℕ) → i + n ≤ length haystack → n ≤ length needle → Decides i n
  matches-Decides i n h k =
      Compared-Decides i n (matches-Compared i n 0 (omega arith) (omega arith))

  -- `r` is what the outer loop returns from offset `i` on, with `left` offsets to try.
  FoundFrom : ℕ → ℕ → ℕ → ℕ → Type 0
  FoundFrom n i left r =
      ((r ≡ 0) × ((k : ℕ) → i ≤ k → k < i + left → ¬ MatchesAt haystack needle n k))
      ⊎ ((m : ℕ) × (r ≡ m + 1)
          × (i ≤ m)
          × (m < i + left)
          × MatchesAt haystack needle n m
          × ((k : ℕ) → i ≤ k → k < m → ¬ MatchesAt haystack needle n k))

  module _ (n i left : ℕ) where
    FoundFrom-skip :
        (r : ℕ)
        → ¬ MatchesAt haystack needle n i
        → FoundFrom n (i + 1) left r
        → FoundFrom n i (suc left) r
    unfolding FoundFrom
    FoundFrom-skip r no_match (inl (e, rest)) = inl (
      e,
      λ k p q.
          from_index (λ k. ¬ MatchesAt haystack needle n k) i k p no_match
            (λ later. rest k later (omega arith)),
    )
    FoundFrom-skip r no_match (inr (m, e, lo, hi, here, rest)) = inr (
      m,
      e,
      omega arith,
      omega arith,
      here,
      λ k p q.
          from_index (λ k. ¬ MatchesAt haystack needle n k) i k p no_match
            (λ later. rest k later q),
    )

    FoundFrom-here : MatchesAt haystack needle n i → FoundFrom n i (suc left) (i + 1)
    unfolding FoundFrom
    FoundFrom-here here =
        inr (i, refl, omega arith, omega arith, here, λ k p q. absurd (omega arith))

    find_from-suc-true :
        matches haystack needle i n 0 ≡ some true
        → find_from haystack needle n (suc left) i ≡ some (i + 1)
    unfolding find_from
    find_from-suc-true e = ground arith

    find_from-suc-false :
        matches haystack needle i n 0 ≡ some false
        → find_from haystack needle n (suc left) i ≡ find_from haystack needle n left (i + 1)
    unfolding find_from
    find_from-suc-false e = ground arith

    Finds : Type 0
    Finds = (r : ℕ) × (find_from haystack needle n left i ≡ some r) × FoundFrom n i left r

  Finds-suc : (n i left : ℕ) → Decides i n → Finds n (i + 1) left → Finds n i (suc left)
  unfolding Decides Finds
  Finds-suc n i left (inl (m, here)) rest =
      (i + 1, find_from-suc-true n i left m, FoundFrom-here n i left here)
  Finds-suc n i left (inr (m, no_match)) (r, e, found) =
      (r, find_from-suc-false n i left m ∙ e, FoundFrom-skip n i left r no_match found)

  find_from-Finds :
      (n left i : ℕ)
      → (1 ≤ left → i + left + n ≤ length haystack + 1)
      → n ≤ length needle
      → Finds n i left
  find_from-Finds n zero i h k =
      unfold Finds FoundFrom find_from in (0, refl, inl (refl, λ k p q. absurd (omega arith)))
  find_from-Finds n (suc left) i h k =
      let bound : i + suc left + n ≤ length haystack + 1 = h (omega arith) in
      Finds-suc n i left (matches-Decides i n (omega arith) k)
        (find_from-Finds n left (i + 1) (λ more. omega arith) k)

  FoundFrom-IsFirstMatch :
      (hl n st r : ℕ)
      → 1 ≤ st
      → n ≤ hl
      → FoundFrom n (st - 1) (hl + 2 - n - st) r
      → IsFirstMatch haystack hl needle n st r
  unfolding FoundFrom
  FoundFrom-IsFirstMatch hl n st r sp le (inl (e, none_left)) =
      inl (e, λ i p q. none_left i (omega arith) (omega arith))
  FoundFrom-IsFirstMatch hl n st r sp le (inr (m, e, lo, hi, here, before)) =
      inr (m, e, omega arith, omega arith, here, λ k p q. before k (omega arith) q)

  positn_in-find_from :
      (hl n st : ℕ)
      → 1 ≤ n
      → 1 ≤ st
      → st ≤ hl
      → n ≤ hl
      → positn_in haystack (pos hl) needle (pos n) (pos st)
        ≡ find_from haystack needle n (hl + 2 - n - st) (st - 1)
  unfolding positn_in
  positn_in-find_from hl n st a b c d = ground arith

  positn_in_none :
      (hl n st : ℕ)
      → 1 ≤ n
      → 1 ≤ st
      → (hl < st) ⊎ (hl < n)
      → positn_in haystack (pos hl) needle (pos n) (pos st) ≡ some 0
  unfolding positn_in
  positn_in_none hl n st a b c = ground arith

  -- The goal of the theorem below, by the cases of the code's last test.
  Returns : ℕ → ℕ → ℕ → Type 0
  Returns hl n st =
      (r : ℕ) × (positn_in haystack (pos hl) needle (pos n) (pos st) ≡ some r)
      × IsFirstMatch haystack hl needle n st r

  Returns-loop :
      (hl n st : ℕ)
      → hl ≤ length haystack
      → n ≤ length needle
      → 1 ≤ n
      → 1 ≤ st
      → st ≤ hl
      → n ≤ hl
      → Returns hl n st
  unfolding Returns Finds
  Returns-loop hl n st fh fn np sp a b =
      let (r, e, found) = find_from-Finds n (hl + 2 - n - st) (st - 1) (λ more. omega arith) fn in
      (r, positn_in-find_from hl n st np sp a b ∙ e, FoundFrom-IsFirstMatch hl n st r sp b found)

  Returns-none : (hl n st : ℕ) → 1 ≤ n → 1 ≤ st → (hl < st) ⊎ (hl < n) → Returns hl n st
  unfolding Returns
  Returns-none hl n st np sp short =
      (0, positn_in_none hl n st np sp short, inl (refl, λ i p q. absurd (omega arith)))

  -- For a nonempty pattern and a start of at least 1, with both lengths within the storage that the
  -- pointers may read, POSITN reads nothing out of range and returns the 1-based position of the
  -- first match at or after the start that fits within the string's length, or 0 if there is none.
  pub positn_from-IsFirstMatch :
      (hl n st : ℕ)
      → hl ≤ length haystack
      → n ≤ length needle
      → 1 ≤ n
      → 1 ≤ st
      → (r : ℕ) × (positn_from (some haystack) (pos hl) (some needle) (pos n) (pos st) ≡ some r)
        × IsFirstMatch haystack hl needle n st r
  unfolding positn_from Returns
  positn_from-IsFirstMatch hl n st fh fn np sp = elim (dec_lt hl st) [
    | yes p ↦ Returns-none hl n st np sp (inl p)
    | no p ↦ elim (dec_lt hl n) [
      | yes q ↦ Returns-none hl n st np sp (inr q)
      | no q ↦ Returns-loop hl n st fh fn np sp (omega arith) (omega arith)
    ]
  ]
