-- ===== src/Runtime/Positn.antt =====
-- runtime/positn.c: POSITN, the search for a string in another.
pub mod First
use native_pascal.Prelude.{
  ℕ, zero, suc, ◌+◌, ◌-◌, Bool, true, false, ◌||◌, Option, none, some, ltb, ◌==◌, if◌then◌else◌,
  get_elem?,
}
use native_pascal.Prelude.Int.{ℤ, pos, pos_part, ltb_ℤ}
use native_pascal.Prelude.Memory.{Bytes, ◌>>=◌}

module _ (haystack needle : Bytes) where
  -- The inner loop at `j`, with `needlelen - j` rounds left: whether it ends with `j == needlelen`.
  pub matches : ℕ → ℕ → ℕ → Option Bool
  matches i zero j = some true
  matches i (suc left) j = get_elem? haystack (i + j) >>= λ a. get_elem? needle j >>= λ b.
      elim (a == b) [ true ↦ matches i left (j + 1) | false ↦ some false ]

  -- The outer loop at `i`, with `haylen - needlelen - i + 1` rounds left.
  pub find_from : ℕ → ℕ → ℕ → Option ℕ
  find_from needlelen zero i = some 0
  find_from needlelen (suc left) i = matches i needlelen 0 >>= λ found. elim found [
    | true ↦ some (i + 1)
    | false ↦ find_from needlelen left (i + 1)
  ]

-- Behind the test for null pointers.
pub positn_in : Bytes → ℤ → Bytes → ℤ → ℤ → Option ℕ
positn_in haystack haylen needle needlelen start =
    if ltb_ℤ needlelen (pos 0) || ltb_ℤ haylen (pos 0)
    then some 0
    else if pos_part needlelen == 0
    then some 1
    else if ltb_ℤ start (pos 1) || ltb_ℤ haylen start || ltb_ℤ haylen needlelen
    then some 0
    else find_from haystack needle (pos_part needlelen)
        (pos_part haylen + 2 - pos_part needlelen - pos_part start) (pos_part start - 1)

-- A null pointer is `none`, as an argument.
unfoldable pub positn_from : Option Bytes → ℤ → Option Bytes → ℤ → ℤ → Option ℕ
unfolding positn_in find_from matches
positn_from (some haystack) haylen (some needle) needlelen start =
    positn_in haystack haylen needle needlelen start
positn_from _ haylen _ needlelen start = some 0

unfoldable pub positn : Option Bytes → ℤ → Option Bytes → ℤ → Option ℕ
unfolding positn_from
positn haystack haylen needle needlelen = positn_from haystack haylen needle needlelen (pos 1)
