-- ===== src/Bootstrap/Resolve/Same.antt =====
-- bootstrap/sem.c: same_type.
pub mod Forms
pub mod Decides
use native_pascal.Prelude.{
  ℕ, zero, suc, Bool, true, false, ◌&&◌, ◌==◌, Option, none, some, if◌then◌else◌,
}
use native_pascal.Bootstrap.Types.{Ty, width}
use native_pascal.Bootstrap.Resolve.{same_int, same_ref}

-- `a->target && b->target && same_type(a->target, b->target)`
abbrev pub same_targets : (Ty → Ty → Option Bool) → Option Ty → Option Ty → Option Bool
same_targets same (some t) (some u) = same t u
same_targets same _ _ = some false

-- The switch, for types at two addresses, with `same` for the calls of same_type.
abbrev pub same_parts : (Ty → Ty → Option Bool) → (ℕ → Option Ty) → Ty → Ty → Option Bool
same_parts same targets (Ty.int a) (Ty.int b) = some (width a == width b)
same_parts same targets (Ty.lstring a) (Ty.lstring b) = some (same_int a b)
same_parts same targets (Ty.array _ lo hi e) (Ty.array _ lo2 hi2 e2) =
    let elems = same e e2 in if same_int lo lo2 && same_int hi hi2 then elems else some false
same_parts same targets (Ty.ptr i) (Ty.ptr j) = same_targets same (targets i) (targets j)
same_parts same targets Ty.real Ty.real = some true
same_parts same targets Ty.bool Ty.bool = some true
same_parts same targets Ty.char Ty.char = some true
same_parts same targets Ty.adrmem Ty.adrmem = some true
same_parts same targets Ty.nil Ty.nil = some true
same_parts same targets _ _ = some false

-- `none`: the fuel is used up.
unfoldable pub same_type : ℕ → (ℕ → Option Ty) → Ty → Ty → Option Bool
same_type zero targets a b = none
same_type (suc fuel) targets a b =
    let parts = same_parts (same_type fuel targets) targets a b in
    if same_ref a b then some true else parts
