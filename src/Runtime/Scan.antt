-- ===== src/Runtime/Scan.antt =====
-- runtime/scaneq.c: SCANEQ and SCANNE, which count the characters up to a stop character.
pub mod Skips
use native_pascal.Prelude.{
  ℕ, zero, suc, ◌+◌, ◌-◌, Bool, true, false, not, ◌&&◌, ◌||◌, Option, none, some, leb, ◌==◌,
  if◌then◌else◌, get_elem?,
}
use native_pascal.Prelude.Int.{ℤ, pos, negsuc, pos_part, sub_ℕ, ltb_ℤ}
use native_pascal.Prelude.Memory.{Bytes, ◌>>=◌}

-- `(stop_on_equal && ch == P) || (!stop_on_equal && ch != P)`
pub stops : Bool → ℕ → ℕ → Bool
stops stop_on_equal p ch = stop_on_equal && ch == p || not stop_on_equal && not (ch == p)

module _ (limit : ℤ) (p : ℕ) (chars : Bytes) (stop_on_equal : Bool) where
  -- `for (i = I; i <= length && skipped < L; ++i, ++skipped)`, with `left = L - skipped`.
  pub forward : ℕ → ℕ → ℕ → ℕ → Option ℤ
  forward len zero i skipped = some limit
  forward len (suc left) i skipped =
      let next = get_elem? chars (i - 1) >>= λ ch. elim (stops stop_on_equal p ch) [
        | true ↦ some (pos skipped)
        | false ↦ forward len left (i + 1) (skipped + 1)
      ] in
      if leb i len then next else some limit

  -- `for (i = I; i >= 1 && skipped > L; --i, --skipped)`: `skipped` is the number of characters
  -- passed, the negative of the variable of that name, and `left = skipped - L`.
  pub backward : ℕ → ℕ → ℕ → Option ℤ
  backward zero i skipped = some limit
  backward (suc left) i skipped =
      let next = get_elem? chars (i - 1) >>= λ ch. elim (stops stop_on_equal p ch) [
        | true ↦ some (sub_ℕ 0 skipped)
        | false ↦ backward left (i - 1) (skipped + 1)
      ] in
      if leb 1 i then next else some limit

-- Behind the tests of the first line, on the sign of `L`.
pub scan_in : ℤ → ℕ → Bytes → ℕ → ℕ → Bool → Option ℤ
scan_in (pos l) p chars len i stop_on_equal = forward (pos l) p chars stop_on_equal len l i 0
scan_in (negsuc l) p chars len i stop_on_equal =
    backward (negsuc l) p chars stop_on_equal (suc l) i 0

abbrev is_zero : ℤ → Bool
is_zero (pos n) = n == 0
is_zero (negsuc n) = false

-- A null pointer is `none`, as an argument.
unfoldable pub scan_impl : ℤ → ℕ → Option Bytes → ℤ → ℤ → Bool → Option ℤ
unfolding scan_in forward backward stops
scan_impl limit p none len start stop_on_equal = some (pos 0)
scan_impl limit p (some chars) len start stop_on_equal =
    if ltb_ℤ start (pos 1) || ltb_ℤ len start || is_zero limit
    then some (pos 0)
    else scan_in limit p chars (pos_part len) (pos_part start) stop_on_equal

unfoldable pub scaneq : ℤ → ℕ → Option Bytes → ℤ → ℤ → Bool → Option ℤ
unfolding scan_impl
scaneq limit p chars len start stop_on_equal = scan_impl limit p chars len start stop_on_equal

unfoldable pub scanne : ℤ → ℕ → Option Bytes → ℤ → ℤ → Bool → Option ℤ
unfolding scan_impl
scanne limit p chars len start stop_on_equal = scan_impl limit p chars len start stop_on_equal
