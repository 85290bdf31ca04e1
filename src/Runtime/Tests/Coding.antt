-- ===== src/Runtime/Tests/Coding.antt =====
-- Runs of ENCODE and DECODE of runtime/encode_decode.c, and instances of their theorems.
use native_pascal.Prelude.{
  ℕ, suc, ◌≤◌, ◌≡◌, refl, Bool, true, false, [], ◌∷◌, ◌++◌, none, some, arith, length,
  if◌then◌else◌, Bool-cases, inl, inr,
}
use native_pascal.Prelude.Int.{pos, negsuc}
use native_pascal.Prelude.Memory.{Bytes}
use native_pascal.Runtime.Decode.{stored, is_digit, decode_integer}
use native_pascal.Runtime.Decode.Integer.{w16}
use native_pascal.Runtime.Decode.Printed.{Prints}
use native_pascal.Runtime.Decode.Real.{Converted, c_string, decode_real_text, decode_real}
use native_pascal.Runtime.Decode.Real.Whole.{takes_real, real_if, decode_real_text-takes}
use native_pascal.Runtime.Encode.{Lstring, encode_fmt}
use native_pascal.Runtime.Encode.Written.{Encoded, encode_fmt-Encoded}
use native_pascal.Runtime.Encode.RoundTrip.{decode_integer-encode_fmt}

-- ENCODE(s, -42:5), where `s` is an LSTRING(6).
abbrev padded : Bytes
padded = b' ' ∷ b' ' ∷ b'-' ∷ b'4' ∷ b'2' ∷ []

abbrev blank_lstring : Lstring
blank_lstring = record { size = 0; chars = 0 ∷ 0 ∷ 0 ∷ 0 ∷ 0 ∷ 7 ∷ [] }

abbrev padded-Prints : Prints padded (negsuc 41)
padded-Prints = record { blanks = 2; body = b'-' ∷ b'4' ∷ b'2' ∷ []; splits = refl; denotes = refl }

encode_runs :
    encode_fmt true (some padded) (pos 6) blank_lstring
    ≡ some (true, record { size = 5; chars = padded ++ 7 ∷ [] })
unfolding encode_fmt
encode_runs = refl

decode_integer-encode_fmt_example :
    (d : Lstring) × (encode_fmt true (some padded) (pos 6) blank_lstring ≡ some (true, d))
    × (decode_integer (some d.chars) (pos d.size) 16 false none true ≡ some (stored (negsuc 41)))
decode_integer-encode_fmt_example =
    decode_integer-encode_fmt w16 false none tt padded (negsuc 41) (pos 6) blank_lstring
      padded-Prints (omega arith) (omega arith) (omega arith) (omega arith)

-- The text is too long for an LSTRING(4).
encode_fmt-Encoded_example :
    (ok : Bool) × (d : Lstring) × (encode_fmt true (some padded) (pos 4) blank_lstring
      ≡ some (ok, d))
    × Encoded true (some padded) (pos 4) blank_lstring ok d
encode_fmt-Encoded_example =
    encode_fmt-Encoded true (some padded) (pos 4) blank_lstring (omega arith)

-- A conversion that takes decimal digits and gives their number.
abbrev leading : Bytes → ℕ
leading [] = 0
leading (c ∷ cs) = let rest = leading cs in if is_digit c then suc rest else 0

abbrev count_digits : Bytes → Converted ℕ
count_digits s = record { value = leading s; consumed = leading s; erange = false }

leading_le : (s : Bytes) → leading s ≤ length s
leading_le [] = omega arith
leading_le (c ∷ cs) = elim (Bool-cases (is_digit c)) [
  | inl y ↦ rw y (omega (arith, leading_le cs))
  | inr n ↦ rw n (omega arith)
]

-- The text 12, a NUL, and a letter.
abbrev broken : Bytes
broken = b'1' ∷ b'2' ∷ 0 ∷ b'x' ∷ []

-- DECODE takes it, though it is not all one number.
decode_real_nul : decode_real count_digits (λ _. false) (some broken) (pos 4) true ≡ some (stored 2)
unfolding decode_real
decode_real_nul = refl

decode_real_text-takes_example :
    decode_real_text count_digits (λ _. false) broken
    ≡ some (
        real_if
          (takes_real count_digits (λ _. false) broken)
          (count_digits (c_string broken)).value)
decode_real_text-takes_example =
    decode_real_text-takes count_digits (λ _. false) (λ s. leading_le s) broken
