-- ===== src/Sql/Parser.antt =====
-- The parser of SQL statements (src/sql/parser.cpp, class Parser), on the tokens that its lexer
-- delivers. Its loops and its recursion are bounded by fuel.
pub mod Statements
pub mod WellFormed
pub mod Fuel
pub mod SelectFuel
pub mod WriteFuel
pub mod StatementFuel
use rtdb_common.Common.{
  ℕ, zero, suc, List, [], ◌∷◌, ◌++◌, Bool, true, false, not, ◌||◌, ℤ, pos, negsuc, length, ltb,
  ◌==◌, if◌then◌else◌, Option, none, some, bytes_eq,
}
use rtdb_common.Types.{
  Bytes, Err, k_sql_syntax, k_unsupported, ColumnValue, int_value, real_value, text_value,
  bool_value, null_value,
}
use rtdb_common.Sql.Ast.{
  CompareOp, k_eq, k_ne, k_lt, k_le, k_gt, k_ge, Condition, Conditions, compare, is_null,
  is_not_null, all_of, any_of, not_of, nil, cons, OrderBy, SelectStatement, InsertStatement,
  Assignment, UpdateStatement, DeleteStatement, Statement, select, insert, update, delete,
}
use rtdb_common.Sql.Token.{
  Token, Tokens, Parse, parsed, failed, out_of_fuel, ◌>>=◌, advance, k_error, k_identifier,
  k_integer, k_float, k_string, k_comma, k_lparen, k_rparen, k_star, k_semicolon, k_dot, k_minus,
  k_equal, k_unequal, k_below, k_at_most, k_above, k_at_least, k_select, k_insert, k_into, k_values,
  k_update, k_set, k_delete, k_from, k_where, k_order, k_by, k_limit, k_offset, k_and, k_or, k_not,
  k_is, k_null, k_true, k_false, k_as, k_asc, k_desc, k_unsupported_keyword,
}

unfoldable pub unqualified : Bytes → Tokens → Parse Bytes
unqualified name (k_dot ∷ ts) = failed k_unsupported
unqualified name ts = parsed name ts

unfoldable pub take_identifier : Tokens → Parse Bytes
take_identifier (k_unsupported_keyword w ∷ ts) = failed k_unsupported
take_identifier (k_identifier name ∷ ts) =
    if ltb 64 (length name) then failed k_sql_syntax else unqualified name ts
take_identifier _ = failed k_sql_syntax

unfoldable pub take_literal : Tokens → Parse ColumnValue
take_literal (k_integer v ∷ ts) = parsed (int_value v) ts
take_literal (k_float v ∷ ts) = parsed (real_value v) ts
take_literal (k_string s ∷ ts) = parsed (text_value s) ts
take_literal (k_true ∷ ts) = parsed (bool_value true) ts
take_literal (k_false ∷ ts) = parsed (bool_value false) ts
take_literal (k_null ∷ ts) = parsed null_value ts
take_literal (k_unsupported_keyword w ∷ ts) = failed k_unsupported
take_literal _ = failed k_sql_syntax

unfoldable pub take_non_negative_int : Tokens → Parse ℤ
take_non_negative_int (k_integer (pos n) ∷ ts) = parsed (pos n) ts
take_non_negative_int _ = failed k_sql_syntax

-- What stands behind a column's name in a condition.
unfoldable pub parse_null_test : Bytes → Tokens → Parse Condition
parse_null_test column (k_not ∷ k_null ∷ ts) = parsed (is_not_null column) ts
parse_null_test column (k_null ∷ ts) = parsed (is_null column) ts
parse_null_test column _ = failed k_sql_syntax

unfoldable pub take_operator : Tokens → Parse CompareOp
take_operator (k_equal ∷ ts) = parsed k_eq ts
take_operator (k_unequal ∷ ts) = parsed k_ne ts
take_operator (k_below ∷ ts) = parsed k_lt ts
take_operator (k_at_most ∷ ts) = parsed k_le ts
take_operator (k_above ∷ ts) = parsed k_gt ts
take_operator (k_at_least ∷ ts) = parsed k_ge ts
take_operator (k_lparen ∷ ts) = failed k_unsupported
take_operator (k_unsupported_keyword w ∷ ts) = failed k_unsupported
take_operator _ = failed k_sql_syntax

unfoldable pub parse_comparison : Bytes → Tokens → Parse Condition
parse_comparison column ts = do
  (op, ts1) ← take_operator ts
  (v, ts2) ← take_literal ts1
  parsed (compare column op v) ts2

unfoldable pub parse_test : Bytes → Tokens → Parse Condition
parse_test column (k_is ∷ ts) = parse_null_test column ts
parse_test column ts = parse_comparison column ts

unfoldable pub parse_operand : Tokens → Parse Condition
parse_operand ts = do (column, ts1) ← take_identifier ts; parse_test column ts1

-- The node over `left` and the further parts, if there are any.
unfoldable pub node_or : Condition → Conditions → Condition
node_or left nil = left
node_or left (cons c cs) = any_of (cons left (cons c cs))

unfoldable pub node_and : Condition → Conditions → Condition
node_and left nil = left
node_and left (cons c cs) = all_of (cons left (cons c cs))

unfoldable pub close_paren : Condition → Tokens → Parse Condition
close_paren inner (k_rparen ∷ ts) = parsed inner ts
close_paren inner _ = failed k_sql_syntax

-- The expressions: `or_tail` and `and_tail` are the loops over the further parts.
unfoldable mutual
  pub parse_or : ℕ → Tokens → Parse Condition
  parse_or zero ts = out_of_fuel
  parse_or (suc n) ts = do
    (left, ts1) ← parse_and n ts
    (more, ts2) ← or_tail n ts1
    parsed (node_or left more) ts2

  pub or_tail : ℕ → Tokens → Parse Conditions
  or_tail zero ts = out_of_fuel
  or_tail (suc n) (k_or ∷ ts) = do
    (right, ts1) ← parse_and n ts
    (more, ts2) ← or_tail n ts1
    parsed (cons right more) ts2
  or_tail (suc n) ts = parsed nil ts

  pub parse_and : ℕ → Tokens → Parse Condition
  parse_and zero ts = out_of_fuel
  parse_and (suc n) ts = do
    (left, ts1) ← parse_not n ts
    (more, ts2) ← and_tail n ts1
    parsed (node_and left more) ts2

  pub and_tail : ℕ → Tokens → Parse Conditions
  and_tail zero ts = out_of_fuel
  and_tail (suc n) (k_and ∷ ts) = do
    (right, ts1) ← parse_not n ts
    (more, ts2) ← and_tail n ts1
    parsed (cons right more) ts2
  and_tail (suc n) ts = parsed nil ts

  pub parse_not : ℕ → Tokens → Parse Condition
  parse_not zero ts = out_of_fuel
  parse_not (suc n) (k_not ∷ ts) = do
    (child, ts1) ← parse_not n ts
    parsed (not_of (cons child nil)) ts1
  parse_not (suc n) ts = parse_primary n ts

  pub parse_primary : ℕ → Tokens → Parse Condition
  parse_primary zero ts = out_of_fuel
  parse_primary (suc n) (k_lparen ∷ ts) = do (inner, ts1) ← parse_or n ts; close_paren inner ts1
  parse_primary (suc n) ts = parse_operand ts
