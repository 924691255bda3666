-- ===== src/Examples/Sql.antt =====
-- Instances for the SQL subset of src/sql.
use rtdb_common.Common.{
  ℕ, List, some, ◌++◌, ◌≡◌, ◌⊎◌, refl, arith, [], ◌∷◌, Bool, true, false, pos, none, bytes_eq,
}
use rtdb_common.Types.{
  Bytes, ok, err, k_invalid_argument, k_limit_exceeded, k_int32, k_utf8_var, int_value, int_of,
  null_value,
}
use rtdb_common.Sql.Ast.{k_ge, k_lt, Condition, compare, is_null, all_of, any_of, nil, cons, select}
use rtdb_common.Sql.Token.{
  Tokens, parsed, k_identifier, k_integer, k_below, k_at_least, k_and, k_or, k_is, k_null, k_select,
  k_star, k_string, k_at_most, k_from, k_limit, k_semicolon,
}
use rtdb_common.Sql.Parser.{
  unqualified, take_identifier, take_literal, take_non_negative_int, parse_null_test, take_operator,
  parse_comparison, parse_test, parse_operand, node_or, node_and, parse_or,
}
use rtdb_common.Sql.Parser.Statements.{
  run, parse_statement, statement_end, parse_select, select_list, expect_from, parse_where,
  parse_order, parse_limit, parse_offset,
}
use rtdb_common.Sql.Text.{Finished, parse_text, parse_text-Finished}
use rtdb_common.Sql.Lexer.{
  next, lex_token, lex_symbol, skip_blank_and_comments, is_blank, is_ident_start, is_digit,
}
use rtdb_common.Sql.Lexer.Literals.{next-escape, escape}
use rtdb_common.Sql.Values.{Runtime, Column, coerce_literal, literal_int, int_fits, compare_cells}
use rtdb_common.Sql.Eval.{Schema, Row, index_of, cell_at, eval_condition, eval_compare, op_holds}
use rtdb_common.Sql.Eval.Logic.{parsed_condition_evaluates}
use rtdb_common.Sql.KeyRange.{
  no_bounds, extract_key_bounds, merged, merge_bound, narrow, extract_compare,
}
use rtdb_common.Sql.KeyRange.Sound.{WithinBounds, key_range_sound}
use rtdb_common.Sql.Select.{select_unsorted}
use rtdb_common.Sql.Select.Window.{select_unsorted-take, select_unsorted_zero}

abbrev id : Bytes
id = b'i' ∷ b'd' ∷ []

abbrev note : Bytes
note = b'n' ∷ []

-- `id >= 5 AND id < 9 OR n IS NULL`, as tokens.
abbrev clause : Tokens
clause =
    k_identifier id
    ∷ k_at_least
    ∷ k_integer (pos 5)
    ∷ k_and
    ∷ k_identifier id
    ∷ k_below
    ∷ k_integer (pos 9)
    ∷ k_or
    ∷ k_identifier note
    ∷ k_is
    ∷ k_null
    ∷ []

abbrev between : Condition
between =
    all_of
      (cons (compare id k_ge (int_value (pos 5))) (cons (compare id k_lt (int_value (pos 9))) nil))

-- AND binds closer than OR.
parse_test_precedence :
    parse_or 12 clause ≡ parsed (any_of (cons between (cons (is_null note) nil))) []
unfolding parse_or node_or node_and parse_operand take_identifier unqualified parse_test
    parse_comparison take_operator take_literal parse_null_test
parse_test_precedence = refl

abbrev query : Tokens
query =
    k_select ∷ k_star ∷ k_from ∷ k_identifier note ∷ k_limit ∷ k_integer (pos 3) ∷ k_semicolon ∷ []

run_test :
    run 20 query
    ≡ parsed
        (select (record {
          columns = [];
          select_all = true;
          table = note;
          where_clause = none;
          order_by = [];
          limit = pos 3;
          offset = pos 0;
        }))
        []
unfolding run parse_statement statement_end parse_select select_list expect_from take_identifier
    unqualified parse_where parse_order parse_limit parse_offset take_non_negative_int
run_test = refl

-- A runtime without texts; its doubles are compared by their patterns.
abbrev plain : Runtime
plain = record {
  real_lt = λ a b. false;
  real_of_int = λ n. 0;
  int_of_real = λ d. pos 0;
  strtoll = λ s. none;
  strtod = λ s. none;
}

-- `it's`.
abbrev owned : Bytes
owned = 105 ∷ 116 ∷ 39 ∷ 115 ∷ []

next-escape_example :
    next plain (39 ∷ (escape owned ++ (39 ∷ (44 ∷ [])))) ≡ some (k_string owned, 44 ∷ [])
next-escape_example = next-escape plain owned (44 ∷ []) refl

-- A comment, a line's end, and `<=`.
next_test : next plain (45 ∷ 45 ∷ 120 ∷ 10 ∷ 60 ∷ 61 ∷ 49 ∷ []) ≡ some (k_at_most, 49 ∷ [])
unfolding next lex_token lex_symbol skip_blank_and_comments is_blank is_ident_start is_digit
next_test = refl

parse_text-Finished_example : Finished (parse_text plain (115 ∷ 101 ∷ 116 ∷ 39 ∷ 59 ∷ []))
parse_text-Finished_example = parse_text-Finished plain (115 ∷ 101 ∷ 116 ∷ 39 ∷ 59 ∷ [])

abbrev id_column : Column
id_column = record { name = id; type = k_int32; nullable = false }

abbrev note_column : Column
note_column = record { name = note; type = k_utf8_var; nullable = true }

abbrev schema : Schema
schema = id_column ∷ note_column ∷ []

abbrev row : Row
row = int_of k_int32 (pos 7) ∷ null_value ∷ []

parsed_condition_evaluates_example :
    ((b : Bool) × (eval_condition plain schema row (any_of (cons between (cons (is_null note) nil)))
        ≡ ok b))
    ⊎ (eval_condition plain schema row (any_of (cons between (cons (is_null note) nil)))
        ≡ err k_invalid_argument)
parsed_condition_evaluates_example =
    parsed_condition_evaluates plain schema row 12 clause []
      (any_of (cons between (cons (is_null note) nil))) parse_test_precedence

between_holds : eval_condition plain schema row between ≡ ok true
unfolding eval_condition eval_compare index_of bytes_eq coerce_literal literal_int int_fits
    compare_cells op_holds
between_holds = refl

key_range_sound_example :
    WithinBounds plain k_int32 (cell_at row 0) (extract_key_bounds plain schema between no_bounds)
key_range_sound_example =
    key_range_sound plain id_column (note_column ∷ []) row between refl between_holds

key_range_test : extract_key_bounds plain schema between no_bounds ≡ record {
  lo = int_of k_int32 (pos 5);
  hi = int_of k_int32 (pos 9);
  lo_inclusive = true;
  hi_inclusive = false;
}
unfolding extract_key_bounds extract_compare narrow merge_bound merged bytes_eq coerce_literal
    literal_int int_fits
key_range_test = refl

note_is_1 : index_of schema note ≡ ok 1
unfolding index_of bytes_eq
note_is_1 = refl

-- Two pages of three rows in all.
abbrev numbered : ℕ → Row
numbered n = int_of k_int32 (pos n) ∷ null_value ∷ []

abbrev pages : List (List Row)
pages = (numbered 1 ∷ numbered 2 ∷ []) ∷ (numbered 3 ∷ []) ∷ []

select_unsorted-take_example :
    select_unsorted plain schema none (pos 1) (pos 1) 100 pages ≡ ok (numbered 2 ∷ [])
select_unsorted-take_example =
    select_unsorted-take plain schema 1 1 100 pages (omega arith) (omega arith)

select_unsorted_zero_example :
    select_unsorted plain schema none (pos 0) (pos 0) 2 pages ≡ err k_limit_exceeded
select_unsorted_zero_example = select_unsorted_zero plain schema 2 pages (omega arith)
