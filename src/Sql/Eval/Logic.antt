-- ===== src/Sql/Eval/Logic.antt =====
-- What the evaluation of WHERE clauses makes of errors and of nulls.
use rtdb_common.Common.{
  ℕ, [], ◌∷◌, ◌≡◌, ap, ◌⊎◌, inl, inr, refl, arith, Bool, true, false, bytes_eq, Bool-cases, ◌||◌,
}
use rtdb_common.Types.{
  Bytes, Err, k_invalid_argument, Result, ok, err, ◌>>=◌, Result-cases, ColumnValue,
}
use rtdb_common.Sql.Ast.{
  CompareOp, Condition, Conditions, compare, is_null, is_not_null, all_of, any_of, not_of, nil,
  cons,
}
use rtdb_common.Sql.Values.{Runtime, Column, coerce_literal, literal_int, literal_real}
use rtdb_common.Sql.Eval.{
  Schema, Row, index_of, cell_at, column_at, eval_compare, eval_null, eval_condition, eval_children,
  combine,
}
use rtdb_common.Sql.Token.{Tokens, parsed}
use rtdb_common.Sql.Parser.{parse_or}
use rtdb_common.Sql.Parser.WellFormed.{IsWellFormed, AreWellFormed, parse_or-IsWellFormed}

-- Where a result fails, it is the user's error.
abbrev pub UserError {ℓ} : {A : Type ℓ} → Result A → Type 0
UserError (ok a) = Unit
UserError (err e) = e ≡ k_invalid_argument

UserError-bind {ℓ κ} :
    {A : Type ℓ} {B : Type κ} (m : Result A) (f : A → Result B)
    → UserError m
    → ((a : A) → UserError (f a))
    → UserError (m >>= f)
UserError-bind (ok a) f h k = k a
UserError-bind (err e) f h k = h

index_of-UserError : (cols : Schema) (name : Bytes) → UserError (index_of cols name)
unfolding index_of
index_of-UserError [] name = refl
index_of-UserError (c ∷ cols) name = elim (Bool-cases (bytes_eq c.name name)) [
  | inl e ↦ rw e tt
  | inr e ↦ rw e (UserError-bind (index_of cols name) _ (index_of-UserError cols name) (λ i. tt))
]

coerce_literal_error :
    (rt : Runtime) (v : ColumnValue) (col : Column) (e : Err)
    → coerce_literal rt v col ≡ err e
    → e ≡ k_invalid_argument
unfolding coerce_literal literal_int literal_real
coerce_literal_error rt v col e q = ground arith

coerce_literal-UserError :
    (rt : Runtime) (v : ColumnValue) (col : Column) → UserError (coerce_literal rt v col)
coerce_literal-UserError rt v col = elim (Result-cases (coerce_literal rt v col)) [
  | inl (a, q) ↦ rw q tt
  | inr (e, q) ↦ rw q (coerce_literal_error rt v col e q)
]

eval_compare-UserError :
    (rt : Runtime) (cols : Schema) (row : Row) (column : Bytes) (op : CompareOp)
    (value : ColumnValue)
    → UserError (eval_compare rt cols row column op value)
unfolding eval_compare
eval_compare-UserError rt cols row column op value =
    UserError-bind (index_of cols column) _ (index_of-UserError cols column) (λ idx.
      elim (Bool-cases (value.is_null || (cell_at row idx).is_null)) [
        | inl e ↦ rw e tt
        | inr e ↦ rw e (
            UserError-bind (coerce_literal rt value (column_at cols idx)) _
              (coerce_literal-UserError rt value (column_at cols idx)) (λ lit. tt))
      ])

eval_null-UserError :
    (cols : Schema) (row : Row) (column : Bytes) (negate : Bool)
    → UserError (eval_null cols row column negate)
unfolding eval_null
eval_null-UserError cols row column negate =
    UserError-bind (index_of cols column) _ (index_of-UserError cols column) (λ idx. tt)

module _ (rt : Runtime) (cols : Schema) (row : Row) where
  mutual
    unfolding eval_condition IsWellFormed

    eval_condition-UserError :
        (c : Condition) → IsWellFormed c → UserError (eval_condition rt cols row c)
    eval_condition-UserError (compare column op value) h =
        eval_compare-UserError rt cols row column op value
    eval_condition-UserError (is_null column) h = eval_null-UserError cols row column false
    eval_condition-UserError (is_not_null column) h = eval_null-UserError cols row column true
    eval_condition-UserError (all_of nil) h = absurd h
    eval_condition-UserError (all_of (cons c nil)) h = absurd h
    eval_condition-UserError (all_of (cons c (cons d cs))) h =
        eval_children-UserError true true (cons c (cons d cs)) (h.0, (h.1, h.2))
    eval_condition-UserError (any_of nil) h = absurd h
    eval_condition-UserError (any_of (cons c nil)) h = absurd h
    eval_condition-UserError (any_of (cons c (cons d cs))) h =
        eval_children-UserError false false (cons c (cons d cs)) (h.0, (h.1, h.2))
    eval_condition-UserError (not_of nil) h = absurd h
    eval_condition-UserError (not_of (cons c nil)) h =
        UserError-bind (eval_condition rt cols row c) _ (eval_condition-UserError c h) (λ v. tt)
    eval_condition-UserError (not_of (cons c (cons d cs))) h = absurd h

    eval_children-UserError :
        (is_and acc : Bool) (cs : Conditions)
        → AreWellFormed cs
        → UserError (eval_children rt cols row is_and acc cs)
    eval_children-UserError is_and acc nil h = tt
    eval_children-UserError is_and acc (cons c cs) h =
        UserError-bind (eval_condition rt cols row c) _ (eval_condition-UserError c h.0)
          (λ v. eval_children-UserError is_and (combine is_and acc v) cs h.1)

  -- A WHERE clause that the parser has yielded is evaluated on a row to a truth value, or fails as
  -- an invalid argument; the error for a malformed negation never comes.
  pub parsed_condition_evaluates :
      (n : ℕ) (ts rest : Tokens) (c : Condition)
      → parse_or n ts ≡ parsed c rest
      → ((b : Bool) × (eval_condition rt cols row c ≡ ok b))
        ⊎ (eval_condition rt cols row c ≡ err k_invalid_argument)
  parsed_condition_evaluates n ts rest c e =
      by_result (eval_condition rt cols row c)
        (eval_condition-UserError c (parse_or-IsWellFormed n ts rest c e))
    where
      by_result :
          (m : Result Bool) → UserError m → ((b : Bool) × (m ≡ ok b)) ⊎ (m ≡ err k_invalid_argument)
      by_result (ok b) h = inl (b, refl)
      by_result (err x) h = inr (ap err h)
