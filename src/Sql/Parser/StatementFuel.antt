-- ===== src/Sql/Parser/StatementFuel.antt =====
-- The fuel of a whole statement: four rounds for each token are enough.
use rtdb_common.Common.{ℕ, ◌*◌, ◌≤◌, [], ◌∷◌, arith, length}
use rtdb_common.Sql.Ast.{Statement}
use rtdb_common.Sql.Token.{
  Tokens, k_error, k_semicolon, k_select, k_insert, k_update, k_delete, k_unsupported_keyword,
}
use rtdb_common.Sql.Parser.Fuel.{Ends, Ends-more}
use rtdb_common.Sql.Parser.Statements.{
  parse_select, parse_insert, parse_update, parse_delete, parse_statement, statement_end, run,
}
use rtdb_common.Sql.Parser.SelectFuel.{Ends-next, parse_select-Ends}
use rtdb_common.Sql.Parser.WriteFuel.{parse_insert-Ends, parse_update-Ends, parse_delete-Ends}

statement_end-Ends : (s : Statement) (ts : Tokens) → Ends 0 ts (statement_end s ts)
unfolding statement_end
statement_end-Ends s [] = omega arith
statement_end-Ends s (k_semicolon ∷ []) = omega arith
statement_end-Ends s (k_semicolon ∷ (t ∷ ts)) = tt
statement_end-Ends s (k_unsupported_keyword w ∷ ts) = tt
statement_end-Ends s (t ∷ ts) = tt

parse_statement-Ends : (n : ℕ) (ts : Tokens) → 4 * length ts ≤ n → Ends 0 ts (parse_statement n ts)
unfolding parse_statement
parse_statement-Ends n [] l = tt
parse_statement-Ends n (k_error ∷ ts) l = tt
parse_statement-Ends n (k_select ∷ ts) l = Ends-more 0 0 ts (k_select ∷ ts) _ (omega arith) (
    Ends-next 0 ts (parse_select n (k_select ∷ ts)) _
      (parse_select-Ends n k_select ts (omega (arith, l))) (λ s us h. omega arith))
parse_statement-Ends n (k_insert ∷ ts) l = Ends-more 0 0 ts (k_insert ∷ ts) _ (omega arith) (
    Ends-next 0 ts (parse_insert n (k_insert ∷ ts)) _
      (parse_insert-Ends n k_insert ts (omega (arith, l))) (λ s us h. omega arith))
parse_statement-Ends n (k_update ∷ ts) l = Ends-more 0 0 ts (k_update ∷ ts) _ (omega arith) (
    Ends-next 0 ts (parse_update n (k_update ∷ ts)) _
      (parse_update-Ends n k_update ts (omega (arith, l))) (λ s us h. omega arith))
parse_statement-Ends n (k_delete ∷ ts) l = Ends-more 0 0 ts (k_delete ∷ ts) _ (omega arith) (
    Ends-next 0 ts (parse_delete n (k_delete ∷ ts)) _
      (parse_delete-Ends n k_delete ts (omega (arith, l))) (λ s us h. omega arith))
parse_statement-Ends n (t ∷ ts) l = tt

-- With fuel for four rounds on each token, the parser ends on every list of tokens: it fails, or it
-- succeeds with a statement.
pub run-Ends : (n : ℕ) (ts : Tokens) → 4 * length ts ≤ n → Ends 0 ts (run n ts)
unfolding run
run-Ends n ts l =
    Ends-next 0 ts (parse_statement n ts) _ (parse_statement-Ends n ts l)
      (λ s us h. statement_end-Ends s us)
