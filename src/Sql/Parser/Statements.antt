-- ===== src/Sql/Parser/Statements.antt =====
-- Statements: `ParseSelect`, `ParseInsert`, `ParseUpdate`, `ParseDelete` and `Run` of
-- src/sql/parser.cpp. `n` is the fuel, for each loop and for the expressions.
use rtdb_common.Common.{
  ℕ, zero, suc, List, [], ◌∷◌, ◌++◌, Bool, true, false, not, ◌||◌, ℤ, pos, negsuc, length, ◌==◌,
  Option, none, some, bytes_eq,
}
use rtdb_common.Types.{Bytes, k_sql_syntax, k_unsupported, ColumnValue}
use rtdb_common.Sql.Ast.{
  Condition, OrderBy, SelectStatement, InsertStatement, Assignment, UpdateStatement,
  DeleteStatement, Statement, select, insert, update, delete,
}
use rtdb_common.Sql.Token.{
  Tokens, Parse, parsed, failed, out_of_fuel, ◌>>=◌, advance, k_error, k_comma, k_lparen, k_rparen,
  k_star, k_semicolon, k_equal, k_select, k_insert, k_into, k_values, k_update, k_set, k_delete,
  k_from, k_where, k_order, k_by, k_limit, k_offset, k_as, k_asc, k_desc, k_unsupported_keyword,
}
use rtdb_common.Sql.Parser.{take_identifier, take_literal, take_non_negative_int, parse_or}

unfoldable pub refuse_if : Bool → Tokens → Parse (Unit {0})
refuse_if true ts = failed k_sql_syntax
refuse_if false ts = parsed tt ts

-- `Expect`: the token is passed over; the tests compare the tokens without a content only.
unfoldable pub expect_from : Tokens → Parse (Unit {0})
expect_from (k_from ∷ ts) = parsed tt ts
expect_from _ = failed k_sql_syntax

unfoldable pub expect_lparen : Tokens → Parse (Unit {0})
expect_lparen (k_lparen ∷ ts) = parsed tt ts
expect_lparen _ = failed k_sql_syntax

unfoldable pub expect_rparen : Tokens → Parse (Unit {0})
expect_rparen (k_rparen ∷ ts) = parsed tt ts
expect_rparen _ = failed k_sql_syntax

unfoldable pub expect_into : Tokens → Parse (Unit {0})
expect_into (k_into ∷ ts) = parsed tt ts
expect_into _ = failed k_sql_syntax

unfoldable pub expect_values : Tokens → Parse (Unit {0})
expect_values (k_values ∷ ts) = parsed tt ts
expect_values _ = failed k_sql_syntax

unfoldable pub expect_set : Tokens → Parse (Unit {0})
expect_set (k_set ∷ ts) = parsed tt ts
expect_set _ = failed k_sql_syntax

unfoldable pub expect_equal : Tokens → Parse (Unit {0})
expect_equal (k_equal ∷ ts) = parsed tt ts
expect_equal _ = failed k_sql_syntax

unfoldable pub expect_by : Tokens → Parse (Unit {0})
expect_by (k_by ∷ ts) = parsed tt ts
expect_by _ = failed k_sql_syntax

-- The alias of a column is read and dropped; a call is refused.
unfoldable pub column_suffix : Tokens → Parse (Unit {0})
column_suffix (k_lparen ∷ ts) = failed k_unsupported
column_suffix (k_as ∷ ts) = do (alias, ts1) ← take_identifier ts; parsed tt ts1
column_suffix ts = parsed tt ts

unfoldable mutual
  -- The loop over the columns of a SELECT, and its test for a comma.
  pub select_columns : ℕ → Tokens → Parse (List Bytes)
  select_columns zero ts = out_of_fuel
  select_columns (suc n) ts = do
    (col, ts1) ← take_identifier ts
    (u, ts2) ← column_suffix ts1
    (more, ts3) ← more_columns n ts2
    parsed (col ∷ more) ts3

  pub more_columns : ℕ → Tokens → Parse (List Bytes)
  more_columns zero ts = out_of_fuel
  more_columns (suc n) (k_comma ∷ ts) = select_columns n ts
  more_columns (suc n) ts = parsed [] ts

unfoldable pub select_list : ℕ → Tokens → Parse (Bool × List Bytes)
select_list n (k_star ∷ ts) = parsed (true, []) ts
select_list n ts = do (cols, ts1) ← select_columns n ts; parsed (false, cols) ts1

unfoldable pub parse_where : ℕ → Tokens → Parse (Option Condition)
parse_where n (k_where ∷ ts) = do (c, ts1) ← parse_or n ts; parsed (some c) ts1
parse_where n ts = parsed none ts

unfoldable pub direction : Tokens → Parse Bool
direction (k_asc ∷ ts) = parsed false ts
direction (k_desc ∷ ts) = parsed true ts
direction ts = parsed false ts

unfoldable mutual
  pub order_columns : ℕ → Tokens → Parse (List OrderBy)
  order_columns zero ts = out_of_fuel
  order_columns (suc n) ts = do
    (col, ts1) ← take_identifier ts
    (down, ts2) ← direction ts1
    (more, ts3) ← more_order n ts2
    parsed (record { column = col; descending = down } ∷ more) ts3

  pub more_order : ℕ → Tokens → Parse (List OrderBy)
  more_order zero ts = out_of_fuel
  more_order (suc n) (k_comma ∷ ts) = order_columns n ts
  more_order (suc n) ts = parsed [] ts

unfoldable pub parse_order : ℕ → Tokens → Parse (List OrderBy)
parse_order n (k_order ∷ ts) = do (u, ts1) ← expect_by ts; order_columns n ts1
parse_order n ts = parsed [] ts

unfoldable pub parse_offset : Tokens → Parse ℤ
parse_offset (k_offset ∷ ts) = take_non_negative_int ts
parse_offset ts = parsed (pos 0) ts

-- The limit and the offset; -1 is no limit.
unfoldable pub parse_limit : Tokens → Parse (ℤ × ℤ)
parse_limit (k_limit ∷ ts) = do
  (limit, ts1) ← take_non_negative_int ts
  (offset, ts2) ← parse_offset ts1
  parsed (limit, offset) ts2
parse_limit ts = parsed (negsuc 0, pos 0) ts

unfoldable pub parse_select : ℕ → Tokens → Parse SelectStatement
parse_select n ts = do
  ((all, cols), ts1) ← select_list n (advance ts)
  (u, ts2) ← expect_from ts1
  (table, ts3) ← take_identifier ts2
  (cond, ts4) ← parse_where n ts3
  (order, ts5) ← parse_order n ts4
  ((limit, offset), ts6) ← parse_limit ts5
  parsed
      (record {
        columns = cols;
        select_all = all;
        table = table;
        where_clause = cond;
        order_by = order;
        limit = limit;
        offset = offset;
      })
      ts6

abbrev pub names : List Bytes → Bytes → Bool
names [] col = false
names (c ∷ cs) col = bytes_eq c col || names cs col

-- The columns of an INSERT; `seen` are those before.
unfoldable mutual
  pub insert_columns : ℕ → List Bytes → Tokens → Parse (List Bytes)
  insert_columns zero seen ts = out_of_fuel
  insert_columns (suc n) seen ts = do
    (col, ts1) ← take_identifier ts
    (u, ts2) ← refuse_if (names seen col) ts1
    more_insert_columns n (seen ++ (col ∷ [])) ts2

  pub more_insert_columns : ℕ → List Bytes → Tokens → Parse (List Bytes)
  more_insert_columns zero seen ts = out_of_fuel
  more_insert_columns (suc n) seen (k_comma ∷ ts) = insert_columns n seen ts
  more_insert_columns (suc n) seen ts = parsed seen ts

unfoldable mutual
  pub row_values : ℕ → Tokens → Parse (List ColumnValue)
  row_values zero ts = out_of_fuel
  row_values (suc n) ts = do
    (v, ts1) ← take_literal ts
    (more, ts2) ← more_values n ts1
    parsed (v ∷ more) ts2

  pub more_values : ℕ → Tokens → Parse (List ColumnValue)
  more_values zero ts = out_of_fuel
  more_values (suc n) (k_comma ∷ ts) = row_values n ts
  more_values (suc n) ts = parsed [] ts

-- The rows of an INSERT, each with a value for each of `width` columns.
unfoldable mutual
  pub insert_rows : ℕ → ℕ → Tokens → Parse (List (List ColumnValue))
  insert_rows zero width ts = out_of_fuel
  insert_rows (suc n) width ts = do
    (u, ts1) ← expect_lparen ts
    (row, ts2) ← row_values n ts1
    (v, ts2') ← refuse_if (not (length row == width)) ts2
    (w, ts3) ← expect_rparen ts2'
    (more, ts4) ← more_rows n width ts3
    parsed (row ∷ more) ts4

  pub more_rows : ℕ → ℕ → Tokens → Parse (List (List ColumnValue))
  more_rows zero width ts = out_of_fuel
  more_rows (suc n) width (k_comma ∷ ts) = insert_rows n width ts
  more_rows (suc n) width ts = parsed [] ts

unfoldable pub parse_insert : ℕ → Tokens → Parse InsertStatement
parse_insert n ts = do
  (u, ts1) ← expect_into (advance ts)
  (table, ts2) ← take_identifier ts1
  (v, ts3) ← expect_lparen ts2
  (cols, ts4) ← insert_columns n [] ts3
  (w, ts5) ← expect_rparen ts4
  (x, ts6) ← expect_values ts5
  (rows, ts7) ← insert_rows n (length cols) ts6
  parsed (record { table = table; columns = cols; rows = rows }) ts7

abbrev pub assigned : List Assignment → Bytes → Bool
assigned [] col = false
assigned (a ∷ l) col = bytes_eq a.column col || assigned l col

unfoldable mutual
  pub assignments : ℕ → List Assignment → Tokens → Parse (List Assignment)
  assignments zero seen ts = out_of_fuel
  assignments (suc n) seen ts = do
    (col, ts1) ← take_identifier ts
    (u, ts2) ← expect_equal ts1
    (value, ts3) ← take_literal ts2
    (w, ts4) ← refuse_if (assigned seen col) ts3
    more_assignments n (seen ++ (record { column = col; value = value } ∷ [])) ts4

  pub more_assignments : ℕ → List Assignment → Tokens → Parse (List Assignment)
  more_assignments zero seen ts = out_of_fuel
  more_assignments (suc n) seen (k_comma ∷ ts) = assignments n seen ts
  more_assignments (suc n) seen ts = parsed seen ts

unfoldable pub parse_update : ℕ → Tokens → Parse UpdateStatement
parse_update n ts = do
  (table, ts1) ← take_identifier (advance ts)
  (u, ts2) ← expect_set ts1
  (sets, ts3) ← assignments n [] ts2
  (cond, ts4) ← parse_where n ts3
  parsed (record { table = table; assignments = sets; where_clause = cond }) ts4

unfoldable pub parse_delete : ℕ → Tokens → Parse DeleteStatement
parse_delete n ts = do
  (u, ts1) ← expect_from (advance ts)
  (table, ts2) ← take_identifier ts1
  (cond, ts3) ← parse_where n ts2
  parsed (record { table = table; where_clause = cond }) ts3

-- The `switch` of `Run` over the first token.
unfoldable pub parse_statement : ℕ → Tokens → Parse Statement
parse_statement n [] = failed k_sql_syntax
parse_statement n (k_error ∷ ts) = failed k_sql_syntax
parse_statement n (k_select ∷ ts) = do
  (s, ts1) ← parse_select n (k_select ∷ ts)
  parsed (select s) ts1
parse_statement n (k_insert ∷ ts) = do
  (s, ts1) ← parse_insert n (k_insert ∷ ts)
  parsed (insert s) ts1
parse_statement n (k_update ∷ ts) = do
  (s, ts1) ← parse_update n (k_update ∷ ts)
  parsed (update s) ts1
parse_statement n (k_delete ∷ ts) = do
  (s, ts1) ← parse_delete n (k_delete ∷ ts)
  parsed (delete s) ts1
parse_statement n (t ∷ ts) = failed k_unsupported

-- What may stand behind a statement: nothing, or one semicolon.
unfoldable pub statement_end : Statement → Tokens → Parse Statement
statement_end s [] = parsed s []
statement_end s (k_semicolon ∷ []) = parsed s []
statement_end s (k_semicolon ∷ (t ∷ ts)) = failed k_unsupported
statement_end s (k_unsupported_keyword w ∷ ts) = failed k_unsupported
statement_end s (t ∷ ts) = failed k_sql_syntax

unfoldable pub run : ℕ → Tokens → Parse Statement
run n ts = do (s, ts1) ← parse_statement n ts; statement_end s ts1
