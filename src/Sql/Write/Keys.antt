-- ===== src/Sql/Write/Keys.antt =====
-- What UPDATE and DELETE of src/sql/exec.cpp hand to the engine.
use rtdb_common.Common.{
  ℕ, ◌≤◌, ◌<◌, ◌≡◌, refl, sym, ap, ◌∙◌, arith, List, [], ◌∷◌, Bool, length, Option,
}
use mathlib.Core.Path.{subst}
use rtdb_common.Types.{Result, ok, ◌>>=◌, >>=-eq-ok, ColumnValue}
use rtdb_common.Sql.Ast.{Condition, Assignment, UpdateStatement, DeleteStatement}
use rtdb_common.Sql.Values.{Runtime}
use rtdb_common.Sql.Eval.{Schema, Row, cell_at}
use rtdb_common.Sql.Select.{row_matches}
use rtdb_common.Sql.Select.Scan.{delivered}
use rtdb_common.Sql.Select.Matching.{Selects, scan_rows-Collected}
use rtdb_common.Sql.Write.{
  BatchOp, k_update, k_delete, resolve, update_ops, delete_ops, collect_targets, commit_batch,
  exec_update, exec_delete,
}
use rtdb_common.Sql.Write.Assign.{
  resolve-SparesKey, assign-SparesKey, assign-new_cell, new_cell, length-assign,
}

-- Each operation is about the row that it stands for.
pub data Each (about : Row → BatchOp → Type 0) : List Row → List BatchOp → Type 0 where
  nothing : Each about [] []
  one :
      {row : Row} {op : BatchOp} {rows : List Row} {ops : List BatchOp}
      → about row op
      → Each about rows ops
      → Each about (row ∷ rows) (op ∷ ops)

-- An update of the row: its primary key and its number of cells are kept, and each cell is what the
-- assignments make of it.
pub record Updates (rt : Runtime) (cols : Schema) (assignments : List Assignment) (row : Row)
    (op : BatchOp) : Type 0 where
  pub kind : op.type ≡ k_update
  pub key : cell_at op.row 0 ≡ cell_at row 0
  pub size : length op.row ≡ length row
  pub cells :
      (i : ℕ) → i < length row → cell_at op.row i ≡ new_cell rt cols assignments i (cell_at row i)

-- A deletion by the row's primary key.
pub record Deletes (row : Row) (op : BatchOp) : Type 0 where
  pub kind : op.type ≡ k_delete
  pub key : op.row ≡ cell_at row 0 ∷ []

update_ops-Each :
    (rt : Runtime) (cols : Schema) (as' : List Assignment) (assigns : List (ℕ × ColumnValue))
    (rows : List Row)
    → resolve rt cols as' ≡ ok assigns
    → Each (Updates rt cols as') rows (update_ops assigns rows)
unfolding update_ops
update_ops-Each rt cols as' assigns [] h = nothing
update_ops-Each rt cols as' assigns (row ∷ rows) h =
    one
      (record {
        kind = refl;
        key = assign-SparesKey assigns row (resolve-SparesKey rt cols as' assigns h);
        size = length-assign assigns row;
        cells = λ i l. assign-new_cell rt cols as' assigns row i h l;
      })
      (update_ops-Each rt cols as' assigns rows h)

delete_ops-Each : (rows : List Row) → Each Deletes rows (delete_ops rows)
unfolding delete_ops
delete_ops-Each [] = nothing
delete_ops-Each (row ∷ rows) = one (record { kind = refl; key = refl }) (delete_ops-Each rows)

-- The engine has executed the operations by one call for all of them; for no operation it is not called.
pub data Executed {S : Type 0} (execute_batch : S → List BatchOp → Result S) (s s' : S)
    (ops : List BatchOp) : Type 0 where
  called : execute_batch s ops ≡ ok s' → Executed execute_batch s s' ops
  not_called : (ops ≡ []) × (s' ≡ s) → Executed execute_batch s s' ops

pub commit_batch-Executed :
    {S : Type 0} (execute_batch : S → List BatchOp → Result S) (s s' : S) (ops : List BatchOp)
    → commit_batch execute_batch s ops ≡ ok s'
    → Executed execute_batch s s' ops
unfolding commit_batch
commit_batch-Executed execute_batch s s' [] h = let same : s' ≡ s = cc in not_called (refl, same)
commit_batch-Executed execute_batch s s' (op ∷ ops) h = called h

-- What a statement that changes rows has done: its operations stand for the rows that match, in order, and
-- the engine has executed them as one batch.
pub record Changed {S : Type 0} (execute_batch : S → List BatchOp → Result S)
    (test : Row → Result Bool) (about : Row → BatchOp → Type 0) (max_rows : ℕ)
    (pages : List (List Row)) (s s' : S) (n : ℕ) : Type 0 where
  pub targets : List Row
  pub ops : List BatchOp
  pub selects : Selects test (delivered pages) targets
  pub each : Each about targets ops
  pub committed : Executed execute_batch s s' ops
  pub counted : n ≡ length targets
  pub within : n ≤ max_rows

module _ {S : Type 0} (execute_batch : S → List BatchOp → Result S) where
  Changed-committed :
      (rt : Runtime) (cols : Schema) (cond : Option Condition) (about : Row → BatchOp → Type 0)
      (max_rows : ℕ) (pages : List (List Row)) (targets : List Row) (ops : List BatchOp) (s s' : S)
      (n : ℕ)
      → collect_targets rt cols cond max_rows pages ≡ ok targets
      → Each about targets ops
      → ◌>>=◌ {Next = S × ℕ} (commit_batch execute_batch s ops) (λ t. ok (t, length targets))
        ≡ ok (s', n)
      → Changed execute_batch (row_matches rt cols cond) about max_rows pages s s' n
  unfolding collect_targets
  Changed-committed rt cols cond about max_rows pages targets ops s s' n found each h =
      let scanned =
        scan_rows-Collected (row_matches rt cols cond) max_rows [] pages targets (omega arith)
          found in
      let done = >>=-eq-ok (commit_batch execute_batch s ops) _ h in
      let state : done.0 ≡ s' = cc in
      let number : n ≡ length targets = cc in
      record {
        targets = targets;
        ops = ops;
        selects =
            subst (Selects (row_matches rt cols cond) (delivered pages)) (sym scanned.whole_is)
              scanned.selects;
        each = each;
        committed = commit_batch-Executed execute_batch s s' ops (done.1 ∙ ap ok state);
        counted = number;
        within = omega (arith, number, scanned.fits);
      }

  -- An UPDATE that succeeds has updated exactly the delivered rows that match, within the budget, by one
  -- call of the engine, or none where no row matches: each row has kept its primary key and its number of
  -- cells, and each cell is the literal of the last assignment to its column, in the column's type, or else
  -- what it was.
  pub exec_update-Changed :
      (rt : Runtime) (cols : Schema) (max_rows : ℕ) (up : UpdateStatement) (pages : List (List Row))
      (s s' : S) (n : ℕ)
      → exec_update execute_batch rt cols max_rows up pages s ≡ ok (s', n)
      → Changed execute_batch
          (row_matches rt cols up.where_clause)
          (Updates rt cols up.assignments)
          max_rows
          pages
          s
          s'
          n
  unfolding exec_update
  exec_update-Changed rt cols max_rows up pages s s' n h =
      let assigns = >>=-eq-ok (resolve rt cols up.assignments) _ h in
      let found = >>=-eq-ok (collect_targets rt cols up.where_clause max_rows pages) _ assigns.2 in
      Changed-committed rt cols up.where_clause (Updates rt cols up.assignments) max_rows pages
        found.0 (update_ops assigns.0 found.0) s s' n found.1
        (update_ops-Each rt cols up.assignments assigns.0 found.0 assigns.1) found.2

  -- A DELETE that succeeds has deleted exactly the delivered rows that match by their primary keys, within
  -- the budget, by one call of the engine, or none where no row matches.
  pub exec_delete-Changed :
      (rt : Runtime) (cols : Schema) (max_rows : ℕ) (del : DeleteStatement)
      (pages : List (List Row)) (s s' : S) (n : ℕ)
      → exec_delete execute_batch rt cols max_rows del pages s ≡ ok (s', n)
      → Changed execute_batch (row_matches rt cols del.where_clause) Deletes max_rows pages s s' n
  unfolding exec_delete
  exec_delete-Changed rt cols max_rows del pages s s' n h =
      let found = >>=-eq-ok (collect_targets rt cols del.where_clause max_rows pages) _ h in
      Changed-committed rt cols del.where_clause Deletes max_rows pages found.0 (delete_ops found.0)
        s s' n found.1 (delete_ops-Each found.0) found.2
