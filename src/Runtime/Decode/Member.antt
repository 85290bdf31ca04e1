-- ===== src/Runtime/Decode/Member.antt =====
-- DECODE of an enumeration by the name of a member.
use native_pascal.Prelude.{
  ℕ, zero, suc, ◌+◌, ◌-◌, ◌≤◌, ◌<◌, ◌≡◌, ◌↔◌, true, false, ◌||◌, List, [], ◌∷◌, Option, none, some,
  refl, map, ◌∙◌, arith, length, get_elem?, Bool-cases, inl, inr, ap, ◌==◌,
}
use native_pascal.Prelude.Memory.{Bytes, get_elem?-lt}
use native_pascal.Prelude.First.{FirstFrom, FirstFrom-empty, FirstFrom-here, FirstFrom-skip}
use native_pascal.Runtime.Decode.{
  Decoded, failed, stored, is_digit, to_lower, same_caseless, find_member, find_named,
  decode_enum_text,
}

pub same_caseless_iff :
    (a b : Bytes) → (same_caseless a b ≡ true) ↔ (map to_lower a ≡ map to_lower b)
unfolding same_caseless
same_caseless_iff [] [] = (λ e. refl, λ e. refl)
same_caseless_iff [] (y ∷ b) = (λ e. cc, λ e. cc)
same_caseless_iff (x ∷ a) [] = (λ e. cc, λ e. cc)
same_caseless_iff (x ∷ a) (y ∷ b) = ground (arith, same_caseless_iff a b)

-- Entry `i` of the table is a name that the text spells, letter case aside.
abbrev pub IsNamed : List (Option Bytes) → Bytes → ℕ → Type 0
IsNamed names text i =
    (name : Bytes) × (get_elem? names i ≡ some (some name))
    × (map to_lower name ≡ map to_lower text)

abbrev pub stored_if : Option ℕ → Decoded ℕ
stored_if none = failed
stored_if (some i) = stored i

module _ (names : List (Option Bytes)) (text : Bytes) where
  Finds : ℕ → ℕ → Type 0
  Finds left i =
      (o : Option ℕ) × (find_member names text left i ≡ some (stored_if o))
      × FirstFrom (IsNamed names text) i left o

  module _ (left i : ℕ) where
    find_null :
        get_elem? names i ≡ some none
        → find_member names text (suc left) i ≡ find_member names text left (i + 1)
    unfolding find_member
    find_null e = ground arith

    find_other :
        (name : Bytes)
        → get_elem? names i ≡ some (some name)
        → same_caseless name text ≡ false
        → find_member names text (suc left) i ≡ find_member names text left (i + 1)
    unfolding find_member
    find_other name e s = ground arith

    find_here :
        (name : Bytes)
        → get_elem? names i ≡ some (some name)
        → same_caseless name text ≡ true
        → find_member names text (suc left) i ≡ some (stored i)
    unfolding find_member
    find_here name e s = ground arith

    Finds-skip :
        find_member names text (suc left) i ≡ find_member names text left (i + 1)
        → ¬ IsNamed names text i
        → Finds left (i + 1)
        → Finds (suc left) i
    unfolding Finds
    Finds-skip step n (o, e, f) = (o, step ∙ e, FirstFrom-skip (IsNamed names text) i left o n f)

    other :
        (name : Bytes)
        → get_elem? names i ≡ some (some name)
        → same_caseless name text ≡ false
        → ¬ IsNamed names text i
    other name e s (name', e', m) =
        let same : name ≡ name' = cc in
        let yes' = (same_caseless_iff name text).1 (ap (map to_lower) same ∙ m) in cc

    Finds-suc :
        (entry : Option Bytes)
        → get_elem? names i ≡ some entry
        → Finds left (i + 1)
        → Finds (suc left) i
    Finds-suc none e rest = Finds-skip (find_null e) (λ h. cc (h.1)) rest
    Finds-suc (some name) e rest = elim (Bool-cases (same_caseless name text)) [
      | inl y ↦
          unfold Finds in
          (
            some i,
            find_here name e y,
            FirstFrom-here (IsNamed names text) i left (name, e, (same_caseless_iff name text).0 y),
          )
      | inr n ↦ Finds-skip (find_other name e n) (other name e n) rest
    ]

  find_member-Finds : (left i : ℕ) → i + left ≤ length names → Finds left i
  find_member-Finds zero i h =
      unfold Finds find_member in (none, refl, FirstFrom-empty (IsNamed names text) i)
  find_member-Finds (suc left) i h =
      let (entry, e) = get_elem?-lt names i (omega arith) in
      Finds-suc left i entry e (find_member-Finds left (i + 1) (omega arith))

-- A text that starts neither with a digit nor with a sign.
abbrev pub IsSpelled : Bytes → Type 0
IsSpelled [] = ⊥
IsSpelled (c ∷ cs) = (is_digit c || c == b'+' || c == b'-') ≡ false

-- A trimmed text that starts neither with a digit nor with a sign is looked up among the members
-- from `lo` to `hi`, letter case aside: DECODE stores the ordinal of the first that it spells, and
-- fails if there is none. It reads no entry outside the table if `hi` is one of its indices.
pub decode_enum_text-FirstFrom :
    (names : List (Option Bytes)) (text : Bytes) (lo hi : ℕ)
    → hi < length names
    → lo ≤ hi + 1
    → IsSpelled text
    → (o : Option ℕ) × (decode_enum_text text (some names) lo hi ≡ some (stored_if o))
      × FirstFrom (IsNamed names text) lo (hi + 1 - lo) o
decode_enum_text-FirstFrom names [] lo hi fits order s = absurd s
decode_enum_text-FirstFrom names (c ∷ cs) lo hi fits order s =
    unfold decode_enum_text find_named Finds in
    rw s (find_member-Finds names (c ∷ cs) (hi + 1 - lo) lo (omega arith))
