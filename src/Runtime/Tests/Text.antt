-- ===== src/Runtime/Tests/Text.antt =====
-- Runs of the text routines of runtime/ at concrete inputs, and instances of their theorems.
use native_pascal.Prelude.{
  ℕ, ◌+◌, ◌-◌, ◌*◌, ◌^◌, ◌≡◌, refl, true, false, List, [], ◌∷◌, Option, none, some, arith,
}
use native_pascal.Prelude.Int.{pos, negsuc, sub_ℕ, ◌+ℤ◌, ◌*ℤ◌}
use native_pascal.Prelude.Memory.{Bytes}
use native_pascal.Prelude.First.{FirstFrom}
use native_pascal.Runtime.OverflowOk.{saddok, smulok, uaddok, umulok, to_u16}
use native_pascal.Runtime.OverflowOk.Exact.{IsWrapped, IsWrappedWord, signed_exact, unsigned_exact}
use native_pascal.Runtime.Positn.{positn_from}
use native_pascal.Runtime.Positn.First.{IsFirstMatch, positn_from-IsFirstMatch}
use native_pascal.Runtime.Scan.{scan_impl}
use native_pascal.Runtime.Scan.Skips.{IsScan, scan_impl-IsScan}
use native_pascal.Runtime.Decode.{
  failed, stored, decode_trim, decode_integer_text, decode_integer, decode_enum_text, decode_enum,
  decode_char,
}
use native_pascal.Runtime.Decode.Trim.{IsTrimmed, decode_trim-IsTrimmed}
use native_pascal.Runtime.Decode.Integer.{
  w16, judge, range_of, exact_value, decode_integer_text-exact,
}
use native_pascal.Runtime.Decode.Member.{IsNamed, stored_if, decode_enum_text-FirstFrom}

saddok_runs : saddok 32767 1 ≡ record { c = negsuc 32767; fits = false }
unfolding saddok
saddok_runs = refl

signed_exact_example :
    IsWrapped
      (pos 300 +ℤ negsuc 1)
      (saddok (to_u16 (pos 300) + 3 * 2 ^ 16) (to_u16 (negsuc 1) + 0 * 2 ^ 16))
    × IsWrapped
        (pos 300 *ℤ negsuc 1)
        (smulok (to_u16 (pos 300) + 3 * 2 ^ 16) (to_u16 (negsuc 1) + 0 * 2 ^ 16))
signed_exact_example = signed_exact (pos 300) (negsuc 1) 3 0 (omega arith) (omega arith)

unsigned_exact_example :
    IsWrappedWord (65535 + 2) (uaddok (65535 + 1 * 2 ^ 16) (2 + 0 * 2 ^ 16))
    × IsWrappedWord (65535 * 2) (umulok (65535 + 1 * 2 ^ 16) (2 + 0 * 2 ^ 16))
unsigned_exact_example = unsigned_exact 65535 2 1 0 (omega arith) (omega arith)

-- "banana"
abbrev banana : Bytes
banana = b'b' ∷ b'a' ∷ b'n' ∷ b'a' ∷ b'n' ∷ b'a' ∷ []

-- "ana"
abbrev ana : Bytes
ana = b'a' ∷ b'n' ∷ b'a' ∷ []

positn_runs :
    (positn_from (some banana) (pos 6) (some ana) (pos 3) (pos 1) ≡ some 2)
    × (positn_from (some banana) (pos 6) (some ana) (pos 3) (pos 3) ≡ some 4)
    × (positn_from (some banana) (pos 6) (some ana) (pos 3) (pos 5) ≡ some 0)
    × (positn_from (some banana) (pos 6) (some ana) (pos 0) (pos 5) ≡ some 1)
unfolding positn_from
positn_runs = (refl, refl, refl, refl)

positn_from-IsFirstMatch_example :
    (r : ℕ) × (positn_from (some banana) (pos 6) (some ana) (pos 3) (pos 3) ≡ some r)
    × IsFirstMatch banana 6 ana 3 3 r
positn_from-IsFirstMatch_example =
    positn_from-IsFirstMatch banana ana 6 3 3 (omega arith) (omega arith) (omega arith)
      (omega arith)

scan_runs :
    (scan_impl (pos 4) b'n' (some banana) (pos 6) (pos 1) true ≡ some (pos 2))
    × (scan_impl (negsuc 9) b'b' (some banana) (pos 6) (pos 6) true ≡ some (negsuc 4))
    × (scan_impl (negsuc 9) b'x' (some banana) (pos 6) (pos 6) true ≡ some (negsuc 9))
unfolding scan_impl
scan_runs = (refl, refl, refl)

scan_impl-IsScan_example :
    IsScan b'n' banana true
      (λ j. 2 + j - 1)
      pos
      (6 + 1 - 2)
      4
      (pos 4)
      (scan_impl (pos 4) b'n' (some banana) (pos 6) (pos 2) true)
    × IsScan b'n' banana true
        (λ j. 2 - 1 - j)
        (λ k. sub_ℕ 0 k)
        2
        4
        (negsuc 3)
        (scan_impl (negsuc 3) b'n' (some banana) (pos 6) (pos 2) true)
scan_impl-IsScan_example =
    scan_impl-IsScan b'n' banana true 3 6 2 (omega arith) (omega arith) (omega arith)

-- " -42\t"
abbrev padded : Bytes
padded = b' ' ∷ b'-' ∷ b'4' ∷ b'2' ∷ 9 ∷ []

decode_runs :
    (decode_integer (some padded) (pos 5) 16 false none true ≡ some (stored (negsuc 41)))
    × (decode_integer (some padded) (pos 5) 16 true none true ≡ some failed)
    × (decode_char (some padded) (pos 1) (pos 0) (pos 255) true ≡ some failed)
unfolding decode_integer decode_char
decode_runs = (refl, refl, refl)

decode_trim-IsTrimmed_example : IsTrimmed padded (decode_trim padded)
decode_trim-IsTrimmed_example = decode_trim-IsTrimmed padded

decode_integer_text-exact_example :
    decode_integer_text 16 false none padded
    ≡ judge (range_of 16 false none) (exact_value (decode_trim padded))
decode_integer_text-exact_example = decode_integer_text-exact w16 false none tt padded

-- "RED", no name, "BLUE"
abbrev colours : List (Option Bytes)
colours = some (b'R' ∷ b'E' ∷ b'D' ∷ []) ∷ none ∷ some (b'B' ∷ b'L' ∷ b'U' ∷ b'E' ∷ []) ∷ []

-- "bLue"
abbrev blue : Bytes
blue = b'b' ∷ b'L' ∷ b'u' ∷ b'e' ∷ []

decode_enum_runs : decode_enum (some blue) (pos 4) (some colours) 0 2 true ≡ some (stored 2)
unfolding decode_enum
decode_enum_runs = refl

decode_enum_text-FirstFrom_example :
    (o : Option ℕ) × (decode_enum_text blue (some colours) 0 2 ≡ some (stored_if o))
    × FirstFrom (IsNamed colours blue) 0 (2 + 1 - 0) o
decode_enum_text-FirstFrom_example =
    decode_enum_text-FirstFrom colours blue 0 2 (omega arith) (omega arith) refl
