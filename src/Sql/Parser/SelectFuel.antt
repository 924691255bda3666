-- ===== src/Sql/Parser/SelectFuel.antt =====
-- The fuel of a SELECT: four rounds for each token are enough.
use rtdb_common.Common.{
  ℕ, zero, suc, ◌+◌, ◌*◌, ◌≤◌, [], ◌∷◌, arith, true, false, Bool, length, pos, negsuc,
}
use rtdb_common.Sql.Token.{
  Token, Tokens, Parse, ◌>>=◌, k_integer, k_comma, k_lparen, k_rparen, k_star, k_equal, k_into,
  k_values, k_set, k_from, k_where, k_order, k_by, k_limit, k_offset, k_as, k_asc, k_desc,
}
use rtdb_common.Sql.Parser.{take_identifier, take_non_negative_int, parse_or}
use rtdb_common.Sql.Parser.Fuel.{
  Ends, Ends-bind, Ends-more, take_identifier-Ends, parse_or_terminates,
}
use rtdb_common.Sql.Parser.Statements.{
  refuse_if, expect_from, expect_lparen, expect_rparen, expect_into, expect_values, expect_set,
  expect_equal, expect_by, column_suffix, select_columns, more_columns, select_list, parse_where,
  direction, order_columns, more_order, parse_order, parse_offset, parse_limit, parse_select,
}

pub expect_from-Ends : (ts : Tokens) → Ends 1 ts (expect_from ts)
unfolding expect_from
expect_from-Ends [] = tt
expect_from-Ends (k_from ∷ ts) = omega arith
expect_from-Ends (t ∷ ts) = tt

pub expect_lparen-Ends : (ts : Tokens) → Ends 1 ts (expect_lparen ts)
unfolding expect_lparen
expect_lparen-Ends [] = tt
expect_lparen-Ends (k_lparen ∷ ts) = omega arith
expect_lparen-Ends (t ∷ ts) = tt

pub expect_rparen-Ends : (ts : Tokens) → Ends 1 ts (expect_rparen ts)
unfolding expect_rparen
expect_rparen-Ends [] = tt
expect_rparen-Ends (k_rparen ∷ ts) = omega arith
expect_rparen-Ends (t ∷ ts) = tt

pub expect_into-Ends : (ts : Tokens) → Ends 1 ts (expect_into ts)
unfolding expect_into
expect_into-Ends [] = tt
expect_into-Ends (k_into ∷ ts) = omega arith
expect_into-Ends (t ∷ ts) = tt

pub expect_values-Ends : (ts : Tokens) → Ends 1 ts (expect_values ts)
unfolding expect_values
expect_values-Ends [] = tt
expect_values-Ends (k_values ∷ ts) = omega arith
expect_values-Ends (t ∷ ts) = tt

pub expect_set-Ends : (ts : Tokens) → Ends 1 ts (expect_set ts)
unfolding expect_set
expect_set-Ends [] = tt
expect_set-Ends (k_set ∷ ts) = omega arith
expect_set-Ends (t ∷ ts) = tt

pub expect_equal-Ends : (ts : Tokens) → Ends 1 ts (expect_equal ts)
unfolding expect_equal
expect_equal-Ends [] = tt
expect_equal-Ends (k_equal ∷ ts) = omega arith
expect_equal-Ends (t ∷ ts) = tt

expect_by-Ends : (ts : Tokens) → Ends 1 ts (expect_by ts)
unfolding expect_by
expect_by-Ends [] = tt
expect_by-Ends (k_by ∷ ts) = omega arith
expect_by-Ends (t ∷ ts) = tt

pub refuse_if-Ends : (b : Bool) (ts : Tokens) → Ends 0 ts (refuse_if b ts)
unfolding refuse_if
refuse_if-Ends true ts = tt
refuse_if-Ends false ts = omega arith

take_non_negative_int-Ends : (ts : Tokens) → Ends 1 ts (take_non_negative_int ts)
unfolding take_non_negative_int
take_non_negative_int-Ends [] = tt
take_non_negative_int-Ends (k_integer (pos n) ∷ ts) = omega arith
take_non_negative_int-Ends (k_integer (negsuc n) ∷ ts) = tt
take_non_negative_int-Ends (t ∷ ts) = tt

-- One step behind another: the second ends on what the first leaves.
pub Ends-next {ℓ κ} :
    {A : Type ℓ} {B : Type κ} (k : ℕ) (ts : Tokens) (m : Parse A) (f : A × Tokens → Parse B)
    → Ends k ts m
    → ((a : A) (us : Tokens) → length us + k ≤ length ts → Ends 0 us (f (a, us)))
    → Ends k ts (m >>= f)
Ends-next k ts m f h g =
    Ends-bind k k ts m f h (λ a us l. Ends-more 0 k us ts (f (a, us)) (omega (arith, l)) (g a us l))

column_suffix-Ends : (ts : Tokens) → Ends 0 ts (column_suffix ts)
unfolding column_suffix
column_suffix-Ends [] = omega arith
column_suffix-Ends (k_lparen ∷ ts) = tt
column_suffix-Ends (k_as ∷ ts) =
    Ends-more 1 0 ts (k_as ∷ ts) _ (omega arith)
      (Ends-next 1 ts (take_identifier ts) _ (take_identifier-Ends ts) (λ a us l. omega arith))
column_suffix-Ends (t ∷ ts) = omega arith

direction-Ends : (ts : Tokens) → Ends 0 ts (direction ts)
unfolding direction
direction-Ends [] = omega arith
direction-Ends (k_asc ∷ ts) = omega arith
direction-Ends (k_desc ∷ ts) = omega arith
direction-Ends (t ∷ ts) = omega arith

mutual
  unfolding select_columns

  select_columns-Ends :
      (n : ℕ) (ts : Tokens) → 2 * length ts + 1 ≤ n → Ends 0 ts (select_columns n ts)
  select_columns-Ends zero ts l = omega (arith, l)
  select_columns-Ends (suc n) ts l = Ends-more 1 0 ts ts _ (omega arith) (
      Ends-next 1 ts (take_identifier ts) _ (take_identifier-Ends ts) (λ col us h.
        Ends-next 0 us (column_suffix us) _ (column_suffix-Ends us) (λ u vs k.
          Ends-next 0 vs (more_columns n vs) _ (more_columns-Ends n vs (omega (arith, l, h, k)))
            (λ more ws m. omega arith))))

  more_columns-Ends : (n : ℕ) (ts : Tokens) → 2 * length ts + 1 ≤ n → Ends 0 ts (more_columns n ts)
  more_columns-Ends zero ts l = omega (arith, l)
  more_columns-Ends (suc n) [] l = omega arith
  more_columns-Ends (suc n) (k_comma ∷ ts) l =
      Ends-more 0 0 ts (k_comma ∷ ts) _ (omega arith) (select_columns-Ends n ts (omega (arith, l)))
  more_columns-Ends (suc n) (t ∷ ts) l = omega arith

select_list-Ends : (n : ℕ) (ts : Tokens) → 2 * length ts + 1 ≤ n → Ends 0 ts (select_list n ts)
unfolding select_list
select_list-Ends n [] l =
    Ends-next 0 [] (select_columns n []) _ (select_columns-Ends n [] l) (λ cols us h. omega arith)
select_list-Ends n (k_star ∷ ts) l = omega arith
select_list-Ends n (t ∷ ts) l =
    Ends-next 0 (t ∷ ts) (select_columns n (t ∷ ts)) _ (select_columns-Ends n (t ∷ ts) l)
      (λ cols us h. omega arith)

mutual
  unfolding order_columns

  order_columns-Ends :
      (n : ℕ) (ts : Tokens) → 2 * length ts + 1 ≤ n → Ends 0 ts (order_columns n ts)
  order_columns-Ends zero ts l = omega (arith, l)
  order_columns-Ends (suc n) ts l = Ends-more 1 0 ts ts _ (omega arith) (
      Ends-next 1 ts (take_identifier ts) _ (take_identifier-Ends ts) (λ col us h.
        Ends-next 0 us (direction us) _ (direction-Ends us) (λ down vs k.
          Ends-next 0 vs (more_order n vs) _ (more_order-Ends n vs (omega (arith, l, h, k)))
            (λ more ws m. omega arith))))

  more_order-Ends : (n : ℕ) (ts : Tokens) → 2 * length ts + 1 ≤ n → Ends 0 ts (more_order n ts)
  more_order-Ends zero ts l = omega (arith, l)
  more_order-Ends (suc n) [] l = omega arith
  more_order-Ends (suc n) (k_comma ∷ ts) l =
      Ends-more 0 0 ts (k_comma ∷ ts) _ (omega arith) (order_columns-Ends n ts (omega (arith, l)))
  more_order-Ends (suc n) (t ∷ ts) l = omega arith

parse_order-Ends : (n : ℕ) (ts : Tokens) → 2 * length ts + 1 ≤ n → Ends 0 ts (parse_order n ts)
unfolding parse_order
parse_order-Ends n [] l = omega arith
parse_order-Ends n (k_order ∷ ts) l = Ends-more 1 0 ts (k_order ∷ ts) _ (omega arith) (
    Ends-next 1 ts (expect_by ts) _ (expect_by-Ends ts)
      (λ u us h. order_columns-Ends n us (omega (arith, l, h))))
parse_order-Ends n (t ∷ ts) l = omega arith

pub parse_where-Ends : (n : ℕ) (ts : Tokens) → 4 * length ts ≤ n → Ends 0 ts (parse_where n ts)
unfolding parse_where
parse_where-Ends n [] l = omega arith
parse_where-Ends n (k_where ∷ ts) l = Ends-more 1 0 ts (k_where ∷ ts) _ (omega arith) (
    Ends-next 1 ts (parse_or n ts) _ (parse_or_terminates n ts (omega (arith, l)))
      (λ c us h. omega arith))
parse_where-Ends n (t ∷ ts) l = omega arith

parse_offset-Ends : (ts : Tokens) → Ends 0 ts (parse_offset ts)
unfolding parse_offset
parse_offset-Ends [] = omega arith
parse_offset-Ends (k_offset ∷ ts) =
    Ends-more 1 0 ts (k_offset ∷ ts) _ (omega arith) (take_non_negative_int-Ends ts)
parse_offset-Ends (t ∷ ts) = omega arith

parse_limit-Ends : (ts : Tokens) → Ends 0 ts (parse_limit ts)
unfolding parse_limit
parse_limit-Ends [] = omega arith
parse_limit-Ends (k_limit ∷ ts) = Ends-more 1 0 ts (k_limit ∷ ts) _ (omega arith) (
    Ends-next 1 ts (take_non_negative_int ts) _ (take_non_negative_int-Ends ts) (λ lim us h.
      Ends-next 0 us (parse_offset us) _ (parse_offset-Ends us) (λ off vs k. omega arith)))
parse_limit-Ends (t ∷ ts) = omega arith

pub parse_select-Ends :
    (n : ℕ) (t : Token) (ts : Tokens) → 4 * length ts + 1 ≤ n → Ends 0 ts (parse_select n (t ∷ ts))
unfolding parse_select
parse_select-Ends n t ts l =
    Ends-next 0 ts (select_list n ts) _ (select_list-Ends n ts (omega (arith, l))) (λ a us h.
      Ends-more 1 0 us us _ (omega arith) (
        Ends-next 1 us (expect_from us) _ (expect_from-Ends us) (λ u vs k.
          Ends-more 1 0 vs vs _ (omega arith) (
            Ends-next 1 vs (take_identifier vs) _ (take_identifier-Ends vs) (λ table ws m.
              Ends-next 0 ws (parse_where n ws) _
                (parse_where-Ends n ws (omega (arith, l, h, k, m)))
                (λ cond xs o.
                  Ends-next 0 xs (parse_order n xs) _
                    (parse_order-Ends n xs (omega (arith, l, h, k, m, o)))
                    (λ order ys q.
                      Ends-next 0 ys (parse_limit ys) _ (parse_limit-Ends ys)
                        (λ lim zs w. omega arith))))))))
