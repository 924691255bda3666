-- ===== src/Examples/Write.antt =====
-- Instances for INSERT, UPDATE and DELETE of src/sql/exec.cpp, on an engine that counts operations.
use rtdb_common.Common.{
  ℕ, ◌+◌, ◌≡◌, refl, List, [], ◌∷◌, true, false, pos, none, some, length, bytes_eq,
}
use rtdb_common.Types.{
  Bytes, Result, ok, err, k_int64, k_utf8_var, k_already_exists, k_invalid_argument, int_value,
  int_of, text_value, null_value,
}
use rtdb_common.Sql.Ast.{DeleteStatement, InsertStatement, UpdateStatement, is_null}
use rtdb_common.Sql.Values.{Runtime, coerce_literal, literal_int, int_fits}
use rtdb_common.Sql.Eval.{Schema, Row, index_of, eval_condition, eval_null}
use rtdb_common.Sql.Select.{row_matches, collect_page, scan_rows}
use rtdb_common.Sql.Write.{
  delete_ops, exec_delete, BatchOp, fill_columns, build_insert_row, seen, insert_ops, counts_match,
  assign, resolve, update_ops, collect_targets, commit_batch, exec_insert, exec_update,
}
use rtdb_common.Sql.Write.Keys.{Deletes, exec_delete-Changed, Updates, Changed, exec_update-Changed}
use rtdb_common.Sql.Write.Insert.{Inserted, exec_insert-Inserted}

abbrev count_ops : ℕ → List BatchOp → Result ℕ
count_ops s ops = ok (s + length ops)

abbrev rt : Runtime
rt = record {
  real_lt = λ a b. false;
  real_of_int = λ n. 0;
  int_of_real = λ d. pos 0;
  strtoll = λ s. none;
  strtod = λ s. none;
}

abbrev id : Bytes
id = b'i' ∷ []

abbrev note : Bytes
note = b'n' ∷ []

abbrev schema : Schema
schema =
    record { name = id; type = k_int64; nullable = false }
    ∷ record { name = note; type = k_utf8_var; nullable = true }
    ∷ []

abbrev row : ℕ → Row
row n = int_of k_int64 (pos n) ∷ null_value ∷ []

abbrev pages : List (List Row)
pages = (row 1 ∷ row 2 ∷ []) ∷ (row 3 ∷ []) ∷ []

abbrev renamed : UpdateStatement
renamed = record {
  table = note;
  assignments = record { column = note; value = text_value note } ∷ [];
  where_clause = some (is_null note);
}

update_test : exec_update count_ops rt schema 5 renamed pages 10 ≡ ok (13, 3)
unfolding exec_update resolve index_of bytes_eq coerce_literal collect_targets scan_rows
    collect_page row_matches eval_condition eval_null update_ops assign commit_batch
update_test = refl

exec_update-Changed_example :
    Changed count_ops
      (row_matches rt schema (some (is_null note)))
      (Updates rt schema renamed.assignments)
      5
      pages
      10
      13
      3
exec_update-Changed_example =
    exec_update-Changed count_ops rt schema 5 renamed pages 10 13 3 update_test

abbrev removed : DeleteStatement
removed = record { table = note; where_clause = some (is_null note) }

delete_test : exec_delete count_ops rt schema 5 removed pages 10 ≡ ok (13, 3)
unfolding exec_delete collect_targets scan_rows collect_page row_matches eval_condition eval_null
    index_of bytes_eq delete_ops commit_batch
delete_test = refl

exec_delete-Changed_example :
    Changed count_ops (row_matches rt schema (some (is_null note))) Deletes 5 pages 10 13 3
exec_delete-Changed_example =
    exec_delete-Changed count_ops rt schema 5 removed pages 10 13 3 delete_test

-- The primary key is not updated.
rekeyed_test :
    exec_update count_ops rt schema 5
      (record {
        table = note;
        assignments = record { column = id; value = int_value (pos 1) } ∷ [];
        where_clause = none;
      })
      pages
      10
    ≡ err k_invalid_argument
unfolding exec_update resolve index_of bytes_eq
rekeyed_test = refl

abbrev two : ℕ → InsertStatement
two n = record {
  table = note;
  columns = note ∷ id ∷ [];
  rows = (text_value note ∷ int_value (pos 1) ∷ []) ∷ (null_value ∷ int_value (pos n) ∷ []) ∷ [];
}

insert_test : exec_insert count_ops rt schema 5 (two 2) 10 ≡ ok (12, 2)
unfolding exec_insert counts_match insert_ops build_insert_row fill_columns index_of bytes_eq
    coerce_literal literal_int int_fits seen commit_batch
insert_test = refl

insert_twice_test : exec_insert count_ops rt schema 5 (two 1) 10 ≡ err k_already_exists
unfolding exec_insert counts_match insert_ops build_insert_row fill_columns index_of bytes_eq
    coerce_literal literal_int int_fits seen
insert_twice_test = refl

exec_insert-Inserted_example : Inserted count_ops schema 5 10 12 2
exec_insert-Inserted_example =
    exec_insert-Inserted count_ops rt schema 5 (two 2) 10 12 2 insert_test
