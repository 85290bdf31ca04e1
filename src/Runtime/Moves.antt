-- ===== src/Runtime/Moves.antt =====
-- runtime/movel.c, mover.c, movesl.c, movesr.c, fillc.c and fillsc.c: byte moves and fills, with no
-- check of bounds. The segment of a segmented address is not used.
pub mod Overlap
use native_pascal.Prelude.{ℕ, zero, suc, ◌+◌, ◌%◌, ◌^◌, ◌==◌, if◌then◌else◌}

-- A byte for each address.
abbrev pub Ram : Type 0
Ram = ℕ → ℕ

-- `*address = byte`.
abbrev pub write : ℕ → ℕ → Ram → Ram
write address byte ram a = if a == address then byte else ram a

-- `for (i = 0; i < len; i++) dst[i] = src[i]`, from `i` on, `left` rounds before the end. As len is a
-- 16-bit word, so is each i below it.
move_up : ℕ → ℕ → ℕ → ℕ → Ram → Ram
move_up src dst zero i ram = ram
move_up src dst (suc left) i ram =
    move_up src dst left (i + 1) (write (dst + i) (ram (src + i)) ram)

-- `for (i = len; i > 0; i--) dst[i - 1] = src[i - 1]`.
move_down : ℕ → ℕ → ℕ → Ram → Ram
move_down src dst zero ram = ram
move_down src dst (suc i) ram = move_down src dst i (write (dst + i) (ram (src + i)) ram)

-- `for (i = 0; i < len; i++) loc[i] = val`.
fill_up : ℕ → ℕ → ℕ → ℕ → Ram → Ram
fill_up loc val zero i ram = ram
fill_up loc val (suc left) i ram = fill_up loc val left (i + 1) (write (loc + i) val ram)

-- The length is an `unsigned short`.
unfoldable pub movel : (src dst len : ℕ) → Ram → Ram
unfolding move_up
movel src dst len = move_up src dst (len % 2 ^ 16) 0

unfoldable pub mover : (src dst len : ℕ) → Ram → Ram
unfolding move_down
mover src dst len = move_down src dst (len % 2 ^ 16)

unfoldable pub movesl : (src dst len : ℕ) → Ram → Ram
unfolding move_up
movesl src dst len = move_up src dst (len % 2 ^ 16) 0

unfoldable pub movesr : (src dst len : ℕ) → Ram → Ram
unfolding move_down
movesr src dst len = move_down src dst (len % 2 ^ 16)

-- `loc` or `dst`, the length, and the byte.
unfoldable pub fillc : (loc len val : ℕ) → Ram → Ram
unfolding fill_up
fillc loc len val = fill_up loc val (len % 2 ^ 16) 0

unfoldable pub fillsc : (dst len val : ℕ) → Ram → Ram
unfolding fill_up
fillsc dst len val = fill_up dst val (len % 2 ^ 16) 0
