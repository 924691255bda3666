-- ===== src/Sql/Text.antt =====
-- `Parse` of src/sql/parser.cpp: the lexer and the parser, on a text.
use rtdb_common.Common.{ℕ, suc, ◌*◌, ◌≤◌, ◌≡◌, refl, arith, [], ◌∷◌, length, Option, none, some}
use rtdb_common.Types.{Bytes, Err}
use rtdb_common.Sql.Ast.{Statement}
use rtdb_common.Sql.Token.{
  Tokens, Parse, parsed, failed, out_of_fuel, ◌>>=◌, k_semicolon, k_unsupported_keyword,
}
use rtdb_common.Sql.Parser.Fuel.{Ends}
use rtdb_common.Sql.Parser.Statements.{parse_statement, statement_end, run}
use rtdb_common.Sql.Parser.StatementFuel.{run-Ends}
use rtdb_common.Sql.Values.{Runtime}
use rtdb_common.Sql.Lexer.{tokens}
use rtdb_common.Sql.Lexer.Progress.{tokens_enough}

abbrev pub run_on : Option Tokens → Parse Statement
run_on none = out_of_fuel
run_on (some ts) = run (4 * length ts) ts

-- `Parse`, with fuel for each character.
unfoldable pub parse_text : Runtime → Bytes → Parse Statement
parse_text rt sql = run_on (tokens (suc (length sql)) rt sql)

-- A statement that takes all tokens, or an error.
pub data Finished (r : Parse Statement) : Type 0 where
  accepted : (s : Statement) → r ≡ parsed s [] → Finished r
  refused : (e : Err) → r ≡ failed e → Finished r

statement_end-Finished : (s : Statement) (ts : Tokens) → Finished (statement_end s ts)
unfolding statement_end
statement_end-Finished s [] = accepted s refl
statement_end-Finished s (k_semicolon ∷ []) = accepted s refl
statement_end-Finished s (k_semicolon ∷ (t ∷ ts)) = refused _ refl
statement_end-Finished s (k_unsupported_keyword w ∷ ts) = refused _ refl
statement_end-Finished s (t ∷ ts) = refused _ refl

run-Finished : (n : ℕ) (ts : Tokens) → 4 * length ts ≤ n → Finished (run n ts)
unfolding run
run-Finished n ts l = after (parse_statement n ts) (run-Ends n ts l)
  where
    after :
        (m : Parse Statement)
        → Ends 0 ts (m >>= (λ p. statement_end p.0 p.1))
        → Finished (m >>= (λ p. statement_end p.0 p.1))
    after (parsed s rest) e = statement_end-Finished s rest
    after (failed x) e = refused x refl
    after out_of_fuel e = absurd e

-- On every text, whatever the conversions of numbers answer, the lexer and the parser end: with a
-- statement and no token left, or with an error.
pub parse_text-Finished : (rt : Runtime) (sql : Bytes) → Finished (parse_text rt sql)
unfolding parse_text
parse_text-Finished rt sql =
    let found = tokens_enough rt (suc (length sql)) sql (omega arith) in
    rw found.1 (run-Finished (4 * length found.0) found.0 (omega arith))
