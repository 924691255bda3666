-- ===== src/Sql/Parser/WriteFuel.antt =====
-- The fuel of INSERT, UPDATE and DELETE: four rounds for each token are enough.
use rtdb_common.Common.{ℕ, zero, suc, ◌+◌, ◌*◌, ◌≤◌, [], ◌∷◌, List, arith, not, ◌==◌, length}
use rtdb_common.Types.{Bytes}
use rtdb_common.Sql.Ast.{Assignment}
use rtdb_common.Sql.Token.{Token, Tokens, k_comma}
use rtdb_common.Sql.Parser.{take_identifier, take_literal}
use rtdb_common.Sql.Parser.Fuel.{Ends, Ends-more, take_identifier-Ends, take_literal-Ends}
use rtdb_common.Sql.Parser.Statements.{
  refuse_if, expect_from, expect_lparen, expect_rparen, expect_into, expect_values, expect_set,
  expect_equal, parse_where, names, insert_columns, more_insert_columns, row_values, more_values,
  insert_rows, more_rows, parse_insert, assigned, assignments, more_assignments, parse_update,
  parse_delete,
}
use rtdb_common.Sql.Parser.SelectFuel.{
  expect_from-Ends, expect_lparen-Ends, expect_rparen-Ends, expect_into-Ends, expect_values-Ends,
  expect_set-Ends, expect_equal-Ends, refuse_if-Ends, Ends-next, parse_where-Ends,
}

mutual
  unfolding insert_columns

  insert_columns-Ends :
      (n : ℕ) (seen : List Bytes) (ts : Tokens)
      → 2 * length ts + 1 ≤ n
      → Ends 0 ts (insert_columns n seen ts)
  insert_columns-Ends zero seen ts l = omega (arith, l)
  insert_columns-Ends (suc n) seen ts l = Ends-more 1 0 ts ts _ (omega arith) (
      Ends-next 1 ts (take_identifier ts) _ (take_identifier-Ends ts) (λ col us h.
        Ends-next 0 us (refuse_if (names seen col) us) _ (refuse_if-Ends (names seen col) us)
          (λ u vs k. more_insert_columns-Ends n _ vs (omega (arith, l, h, k)))))

  more_insert_columns-Ends :
      (n : ℕ) (seen : List Bytes) (ts : Tokens)
      → 2 * length ts + 1 ≤ n
      → Ends 0 ts (more_insert_columns n seen ts)
  more_insert_columns-Ends zero seen ts l = omega (arith, l)
  more_insert_columns-Ends (suc n) seen [] l = omega arith
  more_insert_columns-Ends (suc n) seen (k_comma ∷ ts) l =
      Ends-more 0 0 ts (k_comma ∷ ts) _ (omega arith)
        (insert_columns-Ends n seen ts (omega (arith, l)))
  more_insert_columns-Ends (suc n) seen (t ∷ ts) l = omega arith

mutual
  unfolding row_values

  row_values-Ends : (n : ℕ) (ts : Tokens) → 2 * length ts + 1 ≤ n → Ends 0 ts (row_values n ts)
  row_values-Ends zero ts l = omega (arith, l)
  row_values-Ends (suc n) ts l = Ends-more 1 0 ts ts _ (omega arith) (
      Ends-next 1 ts (take_literal ts) _ (take_literal-Ends ts) (λ v us h.
        Ends-next 0 us (more_values n us) _ (more_values-Ends n us (omega (arith, l, h)))
          (λ more vs k. omega arith)))

  more_values-Ends : (n : ℕ) (ts : Tokens) → 2 * length ts + 1 ≤ n → Ends 0 ts (more_values n ts)
  more_values-Ends zero ts l = omega (arith, l)
  more_values-Ends (suc n) [] l = omega arith
  more_values-Ends (suc n) (k_comma ∷ ts) l =
      Ends-more 0 0 ts (k_comma ∷ ts) _ (omega arith) (row_values-Ends n ts (omega (arith, l)))
  more_values-Ends (suc n) (t ∷ ts) l = omega arith

mutual
  unfolding insert_rows

  insert_rows-Ends :
      (n width : ℕ) (ts : Tokens) → 2 * length ts + 2 ≤ n → Ends 0 ts (insert_rows n width ts)
  insert_rows-Ends zero width ts l = omega (arith, l)
  insert_rows-Ends (suc n) width ts l = Ends-more 1 0 ts ts _ (omega arith) (
      Ends-next 1 ts (expect_lparen ts) _ (expect_lparen-Ends ts) (λ u us h.
        Ends-next 0 us (row_values n us) _ (row_values-Ends n us (omega (arith, l, h))) (λ row vs k.
          Ends-next 0 vs (refuse_if (not (length row == width)) vs) _
            (refuse_if-Ends (not (length row == width)) vs)
            (λ v ws m. Ends-more 1 0 ws ws _ (omega arith) (
              Ends-next 1 ws (expect_rparen ws) _ (expect_rparen-Ends ws) (λ w xs o.
                Ends-next 0 xs (more_rows n width xs) _
                  (more_rows-Ends n width xs (omega (arith, l, h, k, m, o)))
                  (λ more ys q. omega arith)))))))

  more_rows-Ends :
      (n width : ℕ) (ts : Tokens) → 2 * length ts + 2 ≤ n → Ends 0 ts (more_rows n width ts)
  more_rows-Ends zero width ts l = omega (arith, l)
  more_rows-Ends (suc n) width [] l = omega arith
  more_rows-Ends (suc n) width (k_comma ∷ ts) l =
      Ends-more 0 0 ts (k_comma ∷ ts) _ (omega arith)
        (insert_rows-Ends n width ts (omega (arith, l)))
  more_rows-Ends (suc n) width (t ∷ ts) l = omega arith

mutual
  unfolding assignments

  assignments-Ends :
      (n : ℕ) (seen : List Assignment) (ts : Tokens)
      → 2 * length ts + 1 ≤ n
      → Ends 0 ts (assignments n seen ts)
  assignments-Ends zero seen ts l = omega (arith, l)
  assignments-Ends (suc n) seen ts l = Ends-more 1 0 ts ts _ (omega arith) (
      Ends-next 1 ts (take_identifier ts) _ (take_identifier-Ends ts) (λ col us h.
        Ends-more 1 0 us us _ (omega arith) (
          Ends-next 1 us (expect_equal us) _ (expect_equal-Ends us) (λ u vs k.
            Ends-more 1 0 vs vs _ (omega arith) (
              Ends-next 1 vs (take_literal vs) _ (take_literal-Ends vs) (λ value ws m.
                Ends-next 0 ws (refuse_if (assigned seen col) ws) _
                  (refuse_if-Ends (assigned seen col) ws)
                  (λ w xs o. more_assignments-Ends n _ xs (omega (arith, l, h, k, m, o)))))))))

  more_assignments-Ends :
      (n : ℕ) (seen : List Assignment) (ts : Tokens)
      → 2 * length ts + 1 ≤ n
      → Ends 0 ts (more_assignments n seen ts)
  more_assignments-Ends zero seen ts l = omega (arith, l)
  more_assignments-Ends (suc n) seen [] l = omega arith
  more_assignments-Ends (suc n) seen (k_comma ∷ ts) l =
      Ends-more 0 0 ts (k_comma ∷ ts) _ (omega arith)
        (assignments-Ends n seen ts (omega (arith, l)))
  more_assignments-Ends (suc n) seen (t ∷ ts) l = omega arith

pub parse_insert-Ends :
    (n : ℕ) (t : Token) (ts : Tokens) → 4 * length ts + 1 ≤ n → Ends 0 ts (parse_insert n (t ∷ ts))
unfolding parse_insert
parse_insert-Ends n t ts l = Ends-more 1 0 ts ts _ (omega arith) (
    Ends-next 1 ts (expect_into ts) _ (expect_into-Ends ts) (λ u us h.
      Ends-more 1 0 us us _ (omega arith) (
        Ends-next 1 us (take_identifier us) _ (take_identifier-Ends us) (λ table vs k.
          Ends-more 1 0 vs vs _ (omega arith) (
            Ends-next 1 vs (expect_lparen vs) _ (expect_lparen-Ends vs) (λ v ws m.
              Ends-next 0 ws (insert_columns n [] ws) _
                (insert_columns-Ends n [] ws (omega (arith, l, h, k, m)))
                (λ cols xs o. Ends-more 1 0 xs xs _ (omega arith) (
                  Ends-next 1 xs (expect_rparen xs) _ (expect_rparen-Ends xs) (λ w ys q.
                    Ends-more 1 0 ys ys _ (omega arith) (
                      Ends-next 1 ys (expect_values ys) _ (expect_values-Ends ys) (λ x zs e.
                        Ends-next 0 zs (insert_rows n (length cols) zs) _
                          (insert_rows-Ends n (length cols) zs (omega (arith, l, h, k, m, o, q, e)))
                          (λ rows left d. omega arith))))))))))))

pub parse_update-Ends :
    (n : ℕ) (t : Token) (ts : Tokens) → 4 * length ts + 1 ≤ n → Ends 0 ts (parse_update n (t ∷ ts))
unfolding parse_update
parse_update-Ends n t ts l = Ends-more 1 0 ts ts _ (omega arith) (
    Ends-next 1 ts (take_identifier ts) _ (take_identifier-Ends ts) (λ table us h.
      Ends-more 1 0 us us _ (omega arith) (
        Ends-next 1 us (expect_set us) _ (expect_set-Ends us) (λ u vs k.
          Ends-next 0 vs (assignments n [] vs) _ (assignments-Ends n [] vs (omega (arith, l, h, k)))
            (λ sets ws m.
              Ends-next 0 ws (parse_where n ws) _
                (parse_where-Ends n ws (omega (arith, l, h, k, m))) (λ cond xs o. omega arith))))))

pub parse_delete-Ends :
    (n : ℕ) (t : Token) (ts : Tokens) → 4 * length ts + 1 ≤ n → Ends 0 ts (parse_delete n (t ∷ ts))
unfolding parse_delete
parse_delete-Ends n t ts l = Ends-more 1 0 ts ts _ (omega arith) (
    Ends-next 1 ts (expect_from ts) _ (expect_from-Ends ts) (λ u us h.
      Ends-more 1 0 us us _ (omega arith) (
        Ends-next 1 us (take_identifier us) _ (take_identifier-Ends us) (λ table vs k.
          Ends-next 0 vs (parse_where n vs) _ (parse_where-Ends n vs (omega (arith, l, h, k)))
            (λ cond ws m. omega arith)))))
