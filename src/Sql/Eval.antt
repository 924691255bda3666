-- ===== src/Sql/Eval.antt =====
-- Evaluation of a WHERE clause on a row: `EvalCondition` of src/sql/exec.cpp.
pub mod Logic
use rtdb_common.Common.{
  ℕ, zero, suc, ◌+◌, List, [], ◌∷◌, Bool, true, false, not, ◌&&◌, ◌||◌, if◌then◌else◌, Option, none,
  some, get_or, bytes_eq,
}
use rtdb_common.Types.{
  Bytes, k_invalid_argument, k_internal, Result, ok, err, ◌>>=◌, ColumnValue, null_value, k_int64,
}
use rtdb_common.Sql.Ast.{
  CompareOp, k_eq, k_ne, k_lt, k_le, k_gt, k_ge, Condition, Conditions, compare, is_null,
  is_not_null, all_of, any_of, not_of, nil, cons,
}
use rtdb_common.Sql.Values.{Runtime, Column, coerce_literal, compare_cells, Sign, less, same, more}

abbrev pub Schema : Type 0
Schema = List Column

abbrev pub Row : Type 0
Row = List ColumnValue

-- `Schema::IndexOf`; the names of a schema differ, so the first one is the only one.
unfoldable pub index_of : Schema → Bytes → Result ℕ
index_of [] name = err k_invalid_argument
index_of (c ∷ cols) name =
    if bytes_eq c.name name then ok 0 else (do i ← index_of cols name; ok (i + 1))

abbrev no_column : Column
no_column = record { name = []; type = k_int64; nullable = true }

abbrev pub column_at : Schema → ℕ → Column
column_at cols i = get_or cols i no_column

-- `row[idx]`; a row has a value for each column.
abbrev pub cell_at : Row → ℕ → ColumnValue
cell_at row i = get_or row i null_value

unfoldable pub op_holds : CompareOp → Sign → Bool
op_holds k_eq same = true
op_holds k_eq _ = false
op_holds k_ne same = false
op_holds k_ne _ = true
op_holds k_lt less = true
op_holds k_lt _ = false
op_holds k_le more = false
op_holds k_le _ = true
op_holds k_gt more = true
op_holds k_gt _ = false
op_holds k_ge less = false
op_holds k_ge _ = true

-- The case of a comparison.
unfoldable pub eval_compare : Runtime → Schema → Row → Bytes → CompareOp → ColumnValue → Result Bool
eval_compare rt cols row column op value = do
  idx ← index_of cols column
  if value.is_null || (cell_at row idx).is_null then ok false else (do
    lit ← coerce_literal rt value (column_at cols idx)
    ok (op_holds op (compare_cells rt (cell_at row idx) lit (column_at cols idx).type)))

unfoldable pub eval_null : Schema → Row → Bytes → Bool → Result Bool
eval_null cols row column negate = do
  idx ← index_of cols column
  ok (if negate then not (cell_at row idx).is_null else (cell_at row idx).is_null)

abbrev combine : Bool → Bool → Bool → Bool
combine is_and acc v = if is_and then acc && v else acc || v

unfoldable mutual
  pub eval_condition : Runtime → Schema → Row → Condition → Result Bool
  eval_condition rt cols row (compare column op value) = eval_compare rt cols row column op value
  eval_condition rt cols row (is_null column) = eval_null cols row column false
  eval_condition rt cols row (is_not_null column) = eval_null cols row column true
  eval_condition rt cols row (all_of cs) = eval_children rt cols row true true cs
  eval_condition rt cols row (any_of cs) = eval_children rt cols row false false cs
  eval_condition rt cols row (not_of nil) = err k_internal
  eval_condition rt cols row (not_of (cons c nil)) = do v ← eval_condition rt cols row c; ok (not v)
  eval_condition rt cols row (not_of (cons c (cons d cs))) = err k_internal

  -- The loop over the children: every one is evaluated, also when the result is settled.
  pub eval_children : Runtime → Schema → Row → Bool → Bool → Conditions → Result Bool
  eval_children rt cols row is_and acc nil = ok acc
  eval_children rt cols row is_and acc (cons c cs) = do
    v ← eval_condition rt cols row c
    eval_children rt cols row is_and (combine is_and acc v) cs
