-- ===== src/Runtime/Tests/Aggregates.antt =====
-- Runs of runtime/initck.c, and instances of the theorems about it.
use native_pascal.Prelude.{◌≡◌, ◌↔◌, refl, true, [], ◌∷◌, some, arith}
use native_pascal.Prelude.Int.{pos}
use native_pascal.Prelude.Memory.{Bytes}
use native_pascal.Runtime.Aggregates.{initck_all, initck_copy}
use native_pascal.Runtime.Aggregates.Transfers.{
  copy, transfer, all_behind, Result, AllInitialized, transfer-Result, initck_all_iff,
}

abbrev set_leaves : Bytes
set_leaves = 1 ∷ 1 ∷ []

abbrev unset_leaves : Bytes
unset_leaves = 0 ∷ 0 ∷ 0 ∷ []

copy_runs : initck_copy unset_leaves set_leaves (pos 2) true ≡ some (1 ∷ 1 ∷ 0 ∷ [])
copy_runs = refl

transfer-Result_example :
    Result
      (transfer (copy set_leaves true) unset_leaves (pos 2))
      unset_leaves
      2
      (all_behind (copy set_leaves true) unset_leaves 2)
transfer-Result_example =
    transfer-Result unset_leaves 2 (omega arith) (copy set_leaves true) (omega arith)

initck_all_iff_example : (initck_all set_leaves (pos 2) ≡ some true) ↔ AllInitialized set_leaves 2
initck_all_iff_example = initck_all_iff 2 set_leaves (omega arith)
