-- ===== src/Runtime/Tests/Memory.antt =====
-- Runs of the memory routines of runtime/ at concrete inputs, and instances of their theorems.
use native_pascal.Prelude.{
  ℕ, ◌+◌, ◌%◌, ◌≡◌, ◌↔◌, refl, true, false, Option, none, some, arith, if◌then◌else◌, ltb, inl,
}
use native_pascal.Prelude.Int.{pos, negsuc, ◌+ℤ◌, ◌-ℤ◌}
use native_pascal.Runtime.Moves.{Ram, movel, mover, movesl, movesr, fillc, fillsc}
use native_pascal.Runtime.Moves.Overlap.{
  copied, filled, movel-copied, mover-copied, movel-repeats, fillc-filled,
}
use native_pascal.Runtime.SuperArray.{ok, super_new, super_import_check}
use native_pascal.Runtime.SuperArray.Allowed.{Allowed, as_read, super_new_iff}
use native_pascal.Runtime.SuperArray.Imported.{Imported, super_import_check_iff}

-- A memory with its own address at each address.
abbrev addresses : Ram
addresses a = a

movel_runs : movel 10 12 5 addresses 16 ≡ 10
unfolding movel
movel_runs = refl

mover_runs : mover 10 12 5 addresses 16 ≡ 14
unfolding mover
mover_runs = refl

movel-copied_example :
    (movel 12 10 5 addresses 11 ≡ copied 12 10 5 addresses 11)
    × (movesl 12 10 5 addresses 11 ≡ copied 12 10 5 addresses 11)
movel-copied_example = movel-copied 12 10 5 addresses (omega arith) (inl (omega arith)) 11

mover-copied_example :
    (mover 10 12 5 addresses 16 ≡ copied 10 12 5 addresses 16)
    × (movesr 10 12 5 addresses 16 ≡ copied 10 12 5 addresses 16)
mover-copied_example = mover-copied 10 12 5 addresses (omega arith) (inl (omega arith)) 16

movel-repeats_example :
    (movel 10 (10 + 2) 5 addresses (10 + 6) ≡ addresses (10 + 6 % 2))
    × (movesl 10 (10 + 2) 5 addresses (10 + 6) ≡ addresses (10 + 6 % 2))
movel-repeats_example = movel-repeats 10 2 5 addresses (omega arith) (omega arith) 6 (omega arith)

fillc-filled_example :
    (fillc 10 5 65 addresses 14 ≡ filled 10 5 (λ _. 65) addresses 14)
    × (fillsc 10 5 65 addresses 14 ≡ filled 10 5 (λ _. 65) addresses 14)
fillc-filled_example = fillc-filled 10 5 65 addresses (omega arith) 14

-- An allocator with 100 bytes at address 4096.
abbrev small_heap : ℕ → Option ℕ
small_heap n = if ltb 100 n then none else some 4096

super_new_runs : super_new small_heap (pos 9) false (negsuc 2) (negsuc 9) (pos 99) 4 4 ≡ ok 4096
unfolding super_new ◌+ℤ◌ ◌-ℤ◌
super_new_runs = refl

super_new_iff_example :
    (super_new small_heap (pos 9) false (negsuc 2) (negsuc 9) (pos 99) 4 4 ≡ ok 4096) ↔ (
      (bytes : ℕ) × Allowed (as_read (pos 9) false) (negsuc 2) (negsuc 9) (pos 99) 4 4 bytes
      × (small_heap bytes ≡ some 4096))
super_new_iff_example =
    super_new_iff small_heap (pos 9) false (negsuc 2) (negsuc 9) (pos 99) 4 4 4096
      (omega arith, omega arith) (omega arith, omega arith) (omega arith)

super_import_check_iff_example :
    (super_import_check 4096 (pos 1) false (pos 9) true (pos 1) (pos 0) (pos 99) 4 8 ≡ ok tt)
    ↔ Imported 4096 (as_read (pos 1) false) (as_read (pos 9) true) (pos 1) (pos 0) (pos 99) 4 8
super_import_check_iff_example =
    super_import_check_iff 4096 (pos 1) false (pos 9) true (pos 1) (pos 0) (pos 99) 4 8
      (omega arith, omega arith) (omega arith, omega arith) (omega arith) (omega arith)
