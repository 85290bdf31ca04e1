-- ===== src/Runtime/Aggregates.antt =====
-- runtime/initck.c: the state of the scalar leaves of an aggregate, a byte each, nonzero where the
-- leaf is initialized. `none` is an access outside the bytes that a pointer may reach.
pub mod Transfers
use native_pascal.Prelude.{
  ℕ, zero, suc, Bool, true, false, ◌&&◌, List, [], ◌∷◌, ◌++◌, Option, none, some, leb, ◌==◌,
  if◌then◌else◌, length, take, drop, replicate,
}
use native_pascal.Prelude.Int.{ℤ, pos, negsuc, pos_part}
use native_pascal.Prelude.Memory.{Bytes}

-- The loop of `pas_initck_all`, with `left = n - i`.
pub all_loop : Bytes → ℕ → Option Bool
all_loop s zero = some true
all_loop [] (suc left) = none
all_loop (c ∷ cs) (suc left) = let rest = all_loop cs left in if c == 0 then some false else rest

unfoldable pub initck_all : Bytes → ℤ → Option Bool
unfolding all_loop
initck_all s n = all_loop s (pos_part n)

-- `memmove` and `memcpy`; as a `size_t` a negative length is more than any memory has.
abbrev pub move : Bytes → Bytes → ℤ → Option Bytes
move dst src (pos n) =
    if leb n (length dst) && leb n (length src) then some (take n src ++ drop n dst) else none
move dst src (negsuc n) = none

abbrev pub set_all : Bytes → ℕ → ℤ → Option Bytes
set_all dst c (pos n) = if leb n (length dst) then some (replicate n c ++ drop n dst) else none
set_all dst c (negsuc n) = none

-- For `dst` and `src` that are the same or apart.
abbrev pub initck_copy : Bytes → Bytes → ℤ → Bool → Option Bytes
initck_copy dst src n ok = if ok then move dst src n else set_all dst 0 n

abbrev pub initck_fill : Bytes → ℤ → Bool → Option Bytes
initck_fill dst n ok = set_all dst (if ok then 1 else 0) n

abbrev pub initck_release_unacked : Bytes → ℤ → Bool → Option Bytes
initck_release_unacked dst n acked = if acked then some dst else set_all dst 1 n

-- A null `p` is `none`.
abbrev pub initck_receive : Bytes → Option Bytes → ℤ → Option Bytes
initck_receive own none n = set_all own 1 n
initck_receive own (some p) n = move own p n
