-- ===== src/Sql/Write.antt =====
-- INSERT, UPDATE and DELETE (src/sql/exec.cpp). `Engine::ExecuteBatch` is a parameter on a state of its
-- own, all operations are on the one open table, and the pages that the engine delivers to the scan are a
-- list. The bounds of the key range, with which the engine is asked for the pages, are left to it.
pub mod Assign
pub mod Keys
pub mod Insert
use rtdb_common.Common.{
  ℕ, zero, suc, ◌-◌, List, [], ◌∷◌, Bool, true, false, not, ◌&&◌, ◌||◌, ℤ, length, get_or, set,
  replicate, ltb, ◌==◌, eqz, if◌then◌else◌, Option,
}
use rtdb_common.Types.{
  Bytes, k_invalid_argument, k_already_exists, k_limit_exceeded, Result, ok, err, ◌>>=◌, ◌>>◌,
  guard, ColumnValue, null_value,
}
use rtdb_common.Sql.Ast.{Condition, InsertStatement, Assignment, UpdateStatement, DeleteStatement}
use rtdb_common.Sql.Values.{Runtime, coerce_literal}
use rtdb_common.Sql.Eval.{Schema, Row, index_of, column_at, cell_at}
use rtdb_common.Sql.Select.{row_matches, scan_rows}

-- `Engine::BatchOp::Type`
pub data BatchType : Type 0 where
  k_insert k_update k_delete : BatchType

-- `Engine::BatchOp`, on the open table.
pub record BatchOp : Type 0 where
  pub type : BatchType
  pub row : Row

-- The loop of `BuildInsertRow`, with the row and the flags of the columns that are provided. The caller
-- has compared the numbers of names and literals, so neither ends before the other.
unfoldable pub fill_columns :
    Runtime → Schema → List Bytes → List ColumnValue → Row → List Bool → Result (Row × List Bool)
fill_columns rt cols [] literals row provided = ok (row, provided)
fill_columns rt cols (name ∷ names) [] row provided = err k_invalid_argument
fill_columns rt cols (name ∷ names) (v ∷ literals) row provided = do
  idx ← index_of cols name
  guard (not (get_or provided idx false)) k_invalid_argument
  cell ← coerce_literal rt v (column_at cols idx)
  fill_columns rt cols names literals (set row idx cell) (set provided idx true)

-- `BuildInsertRow`; the primary key is the first cell.
unfoldable pub build_insert_row : Runtime → Schema → List Bytes → List ColumnValue → Result Row
build_insert_row rt cols names literals = do
  (row, provided) ←
      fill_columns rt cols names literals (replicate (length cols) null_value)
        (replicate (length cols) false)
  guard (not (not (get_or provided 0 false) || (cell_at row 0).is_null)) k_invalid_argument
  ok row

-- `seen_keys` has the key.
unfoldable pub seen : ℤ → List ℤ → Bool
seen key [] = false
seen key (k ∷ keys) = eqz key k || seen key keys

-- The primary key of an operation, `as_int` of its first cell.
abbrev pub key_of : BatchOp → ℤ
key_of op = (cell_at op.row 0).int

-- The loop over the rows of `ExecInsert`.
unfoldable pub insert_ops :
    Runtime → Schema → List Bytes → List ℤ → List (List ColumnValue) → Result (List BatchOp)
insert_ops rt cols names keys [] = ok []
insert_ops rt cols names keys (literals ∷ rows) = do
  row ← build_insert_row rt cols names literals
  guard (not (seen (cell_at row 0).int keys)) k_already_exists
  ops ← insert_ops rt cols names ((cell_at row 0).int ∷ keys) rows
  ok (record { type = k_insert; row = row } ∷ ops)

-- Each row has a literal for each column.
unfoldable pub counts_match : ℕ → List (List ColumnValue) → Bool
counts_match n [] = true
counts_match n (r ∷ rows) = (length r == n) && counts_match n rows

-- `row[a.first] = a.second` for each assignment.
unfoldable pub assign : List (ℕ × ColumnValue) → Row → Row
assign [] row = row
assign ((idx, v) ∷ assigns) row = assign assigns (set row idx v)

-- The assignments of an UPDATE, by the indexes of their columns.
unfoldable pub resolve : Runtime → Schema → List Assignment → Result (List (ℕ × ColumnValue))
resolve rt cols [] = ok []
resolve rt cols (a ∷ rest) = do
  idx ← index_of cols a.column
  guard (not (idx == 0)) k_invalid_argument
  v ← coerce_literal rt a.value (column_at cols idx)
  assigns ← resolve rt cols rest
  ok ((idx, v) ∷ assigns)

unfoldable pub update_ops : List (ℕ × ColumnValue) → List Row → List BatchOp
update_ops assigns [] = []
update_ops assigns (row ∷ rows) =
    record { type = k_update; row = assign assigns row } ∷ update_ops assigns rows

-- A deletion carries the primary key only.
unfoldable pub delete_ops : List Row → List BatchOp
delete_ops [] = []
delete_ops (row ∷ rows) = record { type = k_delete; row = cell_at row 0 ∷ [] } ∷ delete_ops rows

-- `CollectTargets`
unfoldable pub collect_targets :
    Runtime → Schema → Option Condition → ℕ → List (List Row) → Result (List Row)
collect_targets rt cols cond max_rows pages =
    scan_rows (row_matches rt cols cond) max_rows 0 [] pages

module _ {S : Type 0} (execute_batch : S → List BatchOp → Result S) where
  -- `CommitBatch`
  unfoldable pub commit_batch : S → List BatchOp → Result S
  commit_batch s [] = ok s
  commit_batch s (op ∷ ops) = execute_batch s (op ∷ ops)

  -- `ExecInsert`, with the number of affected rows.
  unfoldable pub exec_insert : Runtime → Schema → ℕ → InsertStatement → S → Result (S × ℕ)
  exec_insert rt cols max_rows ins s = do
    guard (not (length ins.rows == 0)) k_invalid_argument
    guard (not (ltb max_rows (length ins.rows))) k_limit_exceeded
    guard (counts_match (length ins.columns) ins.rows) k_invalid_argument
    ops ← insert_ops rt cols ins.columns [] ins.rows
    s' ← commit_batch s ops
    ok (s', length ins.rows)

  -- `ExecUpdate`
  unfoldable pub exec_update :
      Runtime → Schema → ℕ → UpdateStatement → List (List Row) → S → Result (S × ℕ)
  exec_update rt cols max_rows up pages s = do
    assigns ← resolve rt cols up.assignments
    targets ← collect_targets rt cols up.where_clause max_rows pages
    s' ← commit_batch s (update_ops assigns targets)
    ok (s', length targets)

  -- `ExecDelete`
  unfoldable pub exec_delete :
      Runtime → Schema → ℕ → DeleteStatement → List (List Row) → S → Result (S × ℕ)
  exec_delete rt cols max_rows del pages s = do
    targets ← collect_targets rt cols del.where_clause max_rows pages
    s' ← commit_batch s (delete_ops targets)
    ok (s', length targets)
