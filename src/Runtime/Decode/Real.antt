-- ===== src/Runtime/Decode/Real.antt =====
-- runtime/encode_decode.c: DECODE for REAL. The arithmetic is that of a type `R`, strtod and the
-- comparison with DBL_MAX are parameters.
pub mod Whole
use native_pascal.Prelude.{
  ℕ, Bool, true, false, not, ◌&&◌, ◌||◌, List, [], ◌∷◌, ◌++◌, Option, none, some, leb, ◌==◌,
  if◌then◌else◌, length, get_elem?,
}
use native_pascal.Prelude.Int.{ℤ}
use native_pascal.Prelude.Memory.{Bytes, ◌>>=◌}
use native_pascal.Runtime.Decode.{Decoded, failed, stored, decode_trim, span}

-- What strtod gives for a string: the value, `end - buf`, and whether `errno` is ERANGE.
pub record Converted (R : Type 0) : Type 0 where
  pub value : R
  pub consumed : ℕ
  pub erange : Bool

-- The string that a C function finds in a buffer: it ends before the first NUL.
abbrev pub c_string : Bytes → Bytes
c_string [] = []
c_string (c ∷ cs) = let rest = c_string cs in if c == 0 then [] else c ∷ rest

-- `isspace` in the C locale.
abbrev pub is_space : ℕ → Bool
is_space c = c == b' ' || (leb 0x09 c && leb c 0x0d)

-- `beyond v` is `v > DBL_MAX || v < -DBL_MAX`, `last` is `*end`.
abbrev pub judge_real : {R : Type 0} → (R → Bool) → Converted R → ℕ → Decoded R
judge_real beyond r last =
    if r.consumed == 0 || not (last == 0)
    then failed
    else if r.erange && beyond r.value
    then failed
    else stored r.value

module _ {R : Type 0} (strtod : Bytes → Converted R) (beyond : R → Bool) where
  -- On the trimmed text; `none` is a read behind the buffer's text.
  pub decode_real_text : Bytes → Option (Decoded R)
  decode_real_text [] = some failed
  decode_real_text (c ∷ cs) =
      let r = strtod (c_string (c ∷ cs)) in
      let judged =
        get_elem? ((c ∷ cs) ++ 0 ∷ []) r.consumed >>= λ last. some (judge_real beyond r last) in
      if leb 512 (length (c ∷ cs)) then some failed else if is_space c then some failed else judged

  unfoldable pub decode_real : Option Bytes → ℤ → Bool → Option (Decoded R)
  unfolding span decode_trim decode_real_text
  decode_real (some src) len true = span src len >>= λ text. decode_real_text (decode_trim text)
  decode_real _ len _ = some failed
