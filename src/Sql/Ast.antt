-- ===== src/Sql/Ast.antt =====
-- The syntax trees of include/rtdb/sql.hpp.
use rtdb_common.Common.{List, Bool, ℤ, Option}
use rtdb_common.Types.{Bytes, ColumnValue}

pub data CompareOp : Type 0 where
  k_eq k_ne k_lt k_le k_gt k_ge : CompareOp

-- `Condition`, with a constructor for each kind. The children of a node are a list; only the parser
-- sees to it that a negation has exactly one.
mutual
  pub data Condition : Type 0 where
    compare : Bytes → CompareOp → ColumnValue → Condition
    is_null : Bytes → Condition
    is_not_null : Bytes → Condition
    all_of : Conditions → Condition
    any_of : Conditions → Condition
    not_of : Conditions → Condition

  pub data Conditions : Type 0 where
    nil : Conditions
    cons : Condition → Conditions → Conditions

pub record OrderBy : Type 0 where
  pub column : Bytes
  pub descending : Bool

pub record SelectStatement : Type 0 where
  pub columns : List Bytes
  pub select_all : Bool
  pub table : Bytes
  pub where_clause : Option Condition
  pub order_by : List OrderBy
  pub limit : ℤ
  pub offset : ℤ

pub record InsertStatement : Type 0 where
  pub table : Bytes
  pub columns : List Bytes
  pub rows : List (List ColumnValue)

pub record Assignment : Type 0 where
  pub column : Bytes
  pub value : ColumnValue

pub record UpdateStatement : Type 0 where
  pub table : Bytes
  pub assignments : List Assignment
  pub where_clause : Option Condition

pub record DeleteStatement : Type 0 where
  pub table : Bytes
  pub where_clause : Option Condition

-- `Statement`: of its members, the one that `type` names.
pub data Statement : Type 0 where
  select : SelectStatement → Statement
  insert : InsertStatement → Statement
  update : UpdateStatement → Statement
  delete : DeleteStatement → Statement
