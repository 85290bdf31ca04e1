-- ===== src/Bootstrap/Ast.antt =====
-- bootstrap/pasboot.h: the expressions that bootstrap/parse.c builds.
use native_pascal.Prelude.{ℕ}
use native_pascal.Prelude.Int.{ℤ}
use native_pascal.Prelude.Memory.{Bytes}
use native_pascal.Bootstrap.Token.{Loc}

-- `enum Op`: the operators of E_BIN and E_UN.
pub data Op : Type 0 where
  add sub mul rdiv idiv modulo and or and_then : Op
  eq ne lt le gt ge neg not : Op

mutual
  pub data Expr (R : Type 0) : Type 0 where
    int : Loc → ℤ → Expr R
    real : Loc → R → Expr R
    str : Loc → Bytes → Expr R
    char : Loc → ℕ → Expr R
    name adr : Loc → Bytes → Expr R
    call : Loc → Bytes → Args R → Expr R
    index : Loc → Expr R → Expr R → Expr R
    field : Loc → Expr R → Bytes → Expr R
    deref : Loc → Expr R → Expr R
    bin : Loc → Op → Expr R → Expr R → Expr R
    un : Loc → Op → Expr R → Expr R

  pub data Args (R : Type 0) : Type 0 where
    no_args : Args R
    arg : Expr R → Args R → Args R

pub loc_of : {R : Type 0} → Expr R → Loc
loc_of (int loc _) = loc
loc_of (real loc _) = loc
loc_of (str loc _) = loc
loc_of (char loc _) = loc
loc_of (name loc _) = loc
loc_of (adr loc _) = loc
loc_of (call loc _ _) = loc
loc_of (index loc _ _) = loc
loc_of (field loc _ _) = loc
loc_of (deref loc _) = loc
loc_of (bin loc _ _ _) = loc
loc_of (un loc _ _) = loc
