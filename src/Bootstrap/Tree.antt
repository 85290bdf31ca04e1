-- ===== src/Bootstrap/Tree.antt =====
-- bootstrap/pasboot.h: what bootstrap/parse.c builds from expressions: types, statements,
-- declarations and compilands.
use native_pascal.Prelude.{Bool, List, Option}
use native_pascal.Prelude.Memory.{Bytes}
use native_pascal.Bootstrap.Token.{Loc}
use native_pascal.Bootstrap.Ast.{Expr}

mutual
  pub data TypeExpr (R : Type 0) : Type 0 where
    named pointer : Loc → Bytes → TypeExpr R
    lstring : Loc → (lo : Expr R) → TypeExpr R
    array : Loc → (lo hi : Expr R) → (elem : TypeExpr R) → TypeExpr R
    record_of : Loc → Fields R → TypeExpr R
    enum : Loc → (names : List Bytes) → TypeExpr R

  -- A list of `FieldGroup`.
  pub data Fields (R : Type 0) : Type 0 where
    no_fields : Fields R
    group : Loc → (names : List Bytes) → TypeExpr R → Fields R → Fields R

mutual
  -- `S_IF` without an `els`, and with one.
  pub data Stmt (R : Type 0) : Type 0 where
    empty return break cycle : Loc → Stmt R
    assign : Loc → (lhs rhs : Expr R) → Stmt R
    call : Loc → Expr R → Stmt R
    if_then : Loc → Expr R → Stmt R → Stmt R
    if_else : Loc → Expr R → Stmt R → Stmt R → Stmt R
    while : Loc → Expr R → Stmt R → Stmt R
    for :
        Loc → (varloc : Loc) → (var : Bytes) → (from to : Expr R) → (down : Bool) → Stmt R → Stmt R
    block : Loc → Stmts R → Stmt R

  pub data Stmts (R : Type 0) : Type 0 where
    no_stmts : Stmts R
    stmt : Stmt R → Stmts R → Stmts R

pub record ConstDecl (R : Type 0) : Type 0 where
  pub name : Bytes
  pub loc : Loc
  pub val : Expr R

pub record TypeDecl (R : Type 0) : Type 0 where
  pub name : Bytes
  pub loc : Loc
  pub te : TypeExpr R

pub record VarDecl (R : Type 0) : Type 0 where
  pub names : List Bytes
  pub loc : Loc
  pub te : TypeExpr R

pub record ParamGroup (R : Type 0) : Type 0 where
  pub names : List Bytes
  pub is_var : Bool
  pub te : TypeExpr R
  pub loc : Loc

-- A `Decl` of the kinds D_CONST, D_TYPE and D_VAR.
pub data Section (R : Type 0) : Type 0 where
  consts : Loc → List (ConstDecl R) → Section R
  types : Loc → List (TypeDecl R) → Section R
  vars : Loc → List (VarDecl R) → Section R

-- `decls` holds sections only: the parser refuses a nested routine.
pub record Routine (R : Type 0) : Type 0 where
  pub name : Bytes
  pub orig : Bytes
  pub loc : Loc
  pub is_func : Bool
  pub has_params : Bool
  pub params : List (ParamGroup R)
  pub result : Option (TypeExpr R)
  pub is_c : Bool
  pub is_extern : Bool
  pub is_forward : Bool
  pub has_body : Bool
  pub decls : List (Section R)
  pub body : Option (Stmt R)

pub data Decl (R : Type 0) : Type 0 where
  section : Section R → Decl R
  routine : Loc → Routine R → Decl R

pub record Interface (R : Type 0) : Type 0 where
  pub unit : Bytes
  pub loc : Loc
  pub uses : List Bytes
  pub decls : List (Decl R)

-- A bare list of interfaces has neither a name nor a body.
pub record Compiland (R : Type 0) : Type 0 where
  pub ifaces : List (Interface R)
  pub is_program : Bool
  pub name : Option Bytes
  pub loc : Loc
  pub uses : List Bytes
  pub decls : List (Decl R)
  pub body : Option (Stmt R)
