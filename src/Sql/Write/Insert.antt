-- ===== src/Sql/Write/Insert.antt =====
-- What an INSERT of src/sql/exec.cpp hands to the engine.
use rtdb_common.Common.{
  ℕ, suc, ◌≤◌, ◌≡◌, ◌≢◌, refl, sym, ap, ◌∙◌, arith, List, [], ◌∷◌, Bool, true, false, not, ◌||◌,
  ◌==◌, ltb, eqz, ℤ, pos, negsuc, length, set, All, get_or, replicate, length-replicate,
}
use mathlib.Core.Path.{subst}
use rtdb_common.Types.{
  Bytes, k_invalid_argument, k_already_exists, k_limit_exceeded, Result, ok, >>=-eq-ok, ColumnValue,
  null_value,
}
use rtdb_common.Sql.Ast.{InsertStatement}
use rtdb_common.Sql.Values.{Runtime, coerce_literal}
use rtdb_common.Sql.Eval.{Schema, Row, index_of, column_at, cell_at}
use rtdb_common.Sql.Write.{
  BatchOp, k_insert, fill_columns, build_insert_row, seen, key_of, insert_ops, counts_match,
  commit_batch, exec_insert,
}
use rtdb_common.Sql.Write.Assign.{guarded, length-set}
use rtdb_common.Sql.Write.Keys.{Executed, called, not_called, commit_batch-Executed}

fill_columns-length :
    (rt : Runtime) (cols : Schema) (names : List Bytes) (literals : List ColumnValue) (row : Row)
    (provided : List Bool) (r : Row × List Bool)
    → fill_columns rt cols names literals row provided ≡ ok r
    → length r.0 ≡ length row
unfolding fill_columns
fill_columns-length rt cols [] literals row provided r h =
    let same : row ≡ r.0 = cc in ap length (sym same)
fill_columns-length rt cols (name ∷ names) [] row provided r h = cc
fill_columns-length rt cols (name ∷ names) (v ∷ literals) row provided r h =
    let at = >>=-eq-ok (index_of cols name) _ h in
    let checked = guarded (not (get_or provided at.0 false)) k_invalid_argument _ at.2 in
    let cell = >>=-eq-ok (coerce_literal rt v (column_at cols at.0)) _ checked.1 in
    fill_columns-length rt cols names literals (set row at.0 cell.0) (set provided at.0 true) r
      cell.2
    ∙ length-set row at.0 cell.0

-- A row for the table, with a primary key.
pub record Complete (cols : Schema) (row : Row) : Type 0 where
  pub cells : length row ≡ length cols
  pub keyed : (cell_at row 0).is_null ≡ false

build_insert_row-Complete :
    (rt : Runtime) (cols : Schema) (names : List Bytes) (literals : List ColumnValue) (row : Row)
    → build_insert_row rt cols names literals ≡ ok row
    → Complete cols row
unfolding build_insert_row
build_insert_row-Complete rt cols names literals row h =
    let nulls : Row = replicate (length cols) null_value in
    let filled =
      >>=-eq-ok (fill_columns rt cols names literals nulls (replicate (length cols) false)) _ h in
    let keyed = not (not (get_or filled.0.1 0 false) || (cell_at filled.0.0 0).is_null) in
    let checked = guarded keyed k_invalid_argument (ok filled.0.0) filled.2 in
    let found : ok filled.0.0 ≡ ok row = checked.1 in
    let same : filled.0.0 ≡ row = cc in
    let count =
      fill_columns-length rt cols names literals nulls (replicate (length cols) false) filled.0
        filled.1 in
    subst (Complete cols) same (record {
      cells = count ∙ length-replicate (length cols) null_value;
      keyed = second _ _ checked.0;
    })
  where
    second : (a b : Bool) → not (not a || b) ≡ true → b ≡ false
    second true false e = refl
    second true true e = cc
    second false b e = cc

eqz_refl : (k : ℤ) → eqz k k ≡ true
eqz_refl (pos n) = ground arith
eqz_refl (negsuc n) = ground arith

seen-All : (key : ℤ) (keys : List ℤ) → seen key keys ≡ false → All (λ k. key ≢ k) keys
unfolding seen
seen-All key [] h = tt
seen-All key (k ∷ keys) h =
    let parts = both (eqz key k) (seen key keys) h in
    ((λ same. differ (sym (ap (eqz key) same) ∙ eqz_refl key) parts.0), seen-All key keys parts.1)
  where
    both : (a b : Bool) → (a || b) ≡ false → (a ≡ false) × (b ≡ false)
    both false false e = (refl, refl)
    both false true e = cc
    both true b e = cc

    differ : {b : Bool} → b ≡ true → b ≡ false → ⊥
    differ e f = cc

All-map {ℓ κ μ} :
    {A : Type ℓ} {P : A → Type κ} {Q : A → Type μ} (xs : List A)
    → ((x : A) → P x → Q x)
    → All P xs
    → All Q xs
All-map [] f h = tt
All-map (x ∷ xs) f h = (f x h.0, All-map xs f h.1)

-- No two operations have the same primary key.
abbrev pub Distinct : List BatchOp → Type 0
Distinct [] = Unit
Distinct (op ∷ ops) = All (λ o. key_of o ≢ key_of op) ops × Distinct ops

-- An insertion of a whole row.
pub record Inserts (cols : Schema) (op : BatchOp) : Type 0 where
  pub kind : op.type ≡ k_insert
  pub complete : Complete cols op.row

record Built (cols : Schema) (keys : List ℤ) (n : ℕ) (ops : List BatchOp) : Type 0 where
  each : All (Inserts cols) ops
  fresh : All (λ o. All (λ k. key_of o ≢ k) keys) ops
  distinct : Distinct ops
  count : length ops ≡ n

insert_ops-Built :
    (rt : Runtime) (cols : Schema) (names : List Bytes) (keys : List ℤ)
    (rows : List (List ColumnValue)) (ops : List BatchOp)
    → insert_ops rt cols names keys rows ≡ ok ops
    → Built cols keys (length rows) ops
unfolding insert_ops
insert_ops-Built rt cols names keys [] ops h =
    let same : [] ≡ ops = cc in
    subst (Built cols keys 0) same (record { each = tt; fresh = tt; distinct = tt; count = refl })
insert_ops-Built rt cols names keys (literals ∷ rows) ops h =
    let row = >>=-eq-ok (build_insert_row rt cols names literals) _ h in
    let key = (cell_at row.0 0).int in
    let checked = guarded (not (seen key keys)) k_already_exists _ row.2 in
    let rest = >>=-eq-ok (insert_ops rt cols names (key ∷ keys) rows) _ checked.1 in
    let b = insert_ops-Built rt cols names (key ∷ keys) rows rest.0 rest.1 in
    let same : record { type = k_insert; row = row.0 } ∷ rest.0 ≡ ops = cc in
    subst (Built cols keys (suc (length rows))) same (record {
      each = (
        record {
          kind = refl;
          complete = build_insert_row-Complete rt cols names literals row.0 row.1;
        },
        b.each,
      );
      fresh = (seen-All key keys (not_true _ checked.0), All-map rest.0 (λ o. (λ f. f.1)) b.fresh);
      distinct = (All-map rest.0 (λ o. (λ f. f.0)) b.fresh, b.distinct);
      count = ap suc b.count;
    })
  where
    not_true : (b : Bool) → not b ≡ true → b ≡ false
    not_true false e = refl
    not_true true e = cc

-- What an INSERT has done.
pub record Inserted {S : Type 0} (execute_batch : S → List BatchOp → Result S) (cols : Schema)
    (max_rows : ℕ) (s s' : S) (n : ℕ) : Type 0 where
  pub ops : List BatchOp
  pub each : All (Inserts cols) ops
  pub distinct : Distinct ops
  pub committed : execute_batch s ops ≡ ok s'
  pub counted : length ops ≡ n
  pub within : n ≤ max_rows

module _ {S : Type 0} (execute_batch : S → List BatchOp → Result S) where
  -- An INSERT that succeeds has inserted, by one call of the engine and within the budget, as many rows as it reports:
  -- each has a cell for each column and a primary key that is no null and that no other row of the batch
  -- has.
  pub exec_insert-Inserted :
      (rt : Runtime) (cols : Schema) (max_rows : ℕ) (ins : InsertStatement) (s s' : S) (n : ℕ)
      → exec_insert execute_batch rt cols max_rows ins s ≡ ok (s', n)
      → Inserted execute_batch cols max_rows s s' n
  unfolding exec_insert
  exec_insert-Inserted rt cols max_rows ins s s' n h =
      let rows = ins.rows in
      let some_rows = guarded (not (length rows == 0)) k_invalid_argument _ h in
      let fits = guarded (not (ltb max_rows (length rows))) k_limit_exceeded _ some_rows.1 in
      let matching = guarded (counts_match (length ins.columns) rows) k_invalid_argument _ fits.1 in
      let built = >>=-eq-ok (insert_ops rt cols ins.columns [] rows) _ matching.1 in
      let done = >>=-eq-ok (commit_batch execute_batch s built.0) _ built.2 in
      let b = insert_ops-Built rt cols ins.columns [] rows built.0 built.1 in
      let state : done.0 ≡ s' = cc in
      let number : length rows ≡ n = cc in
      let filled : 1 ≤ length rows = ground (arith, some_rows.0) in
      let budget : length rows ≤ max_rows = ground (arith, fits.0) in
      record {
        ops = built.0;
        each = b.each;
        distinct = b.distinct;
        committed =
            by_call built.0 (omega (arith, b.count, filled))
              (commit_batch-Executed execute_batch s s' built.0 (done.1 ∙ ap ok state));
        counted = b.count ∙ number;
        within = omega (arith, number, budget);
      }
    where
      by_call :
          (ops : List BatchOp)
          → 1 ≤ length ops
          → Executed execute_batch s s' ops
          → execute_batch s ops ≡ ok s'
      by_call ops l (called c) = c
      by_call ops l (not_called n) = absurd (omega (arith, l, ap length n.0))
