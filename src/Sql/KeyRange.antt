-- ===== src/Sql/KeyRange.antt =====
-- The range of the key that a WHERE clause allows: `KeyBounds`, `MergeBound` and `ExtractKeyBounds`
-- of src/sql/exec.cpp. A null bound is no bound.
pub mod Sound
use rtdb_common.Common.{
  ℕ, List, [], ◌∷◌, Bool, true, false, not, ◌&&◌, ◌||◌, if◌then◌else◌, bytes_eq, Bool-cases, ◌≡◌,
  ◌≢◌, ◌⊎◌, inl, inr, refl, sym, ap, ◌∙◌, arith, ltz, ℤ, pos, negsuc, ltb,
}
use rtdb_common.Types.{
  Bytes, Result, ok, err, ◌>>=◌, ColumnValue, null_value, DataType, is_float_class, is_int_class,
  Result-cases, >>=-eq-ok, k_int8,
}
use rtdb_common.Sql.Ast.{
  CompareOp, k_eq, k_ne, k_lt, k_le, k_gt, k_ge, Condition, Conditions, compare, is_null,
  is_not_null, all_of, any_of, not_of, nil, cons,
}
use rtdb_common.Sql.Values.{
  Runtime, Column, coerce_literal, compare_cells, compare_bytes, Sign, less, same, more, sign_of,
}
use rtdb_common.Sql.Eval.{
  Schema, Row, cell_at, op_holds, eval_condition, eval_children, eval_compare, index_of,
}

pub record KeyBounds : Type 0 where
  pub lo : ColumnValue
  pub hi : ColumnValue
  pub lo_inclusive : Bool
  pub hi_inclusive : Bool

abbrev pub no_bounds : KeyBounds
no_bounds = record { lo = null_value; hi = null_value; lo_inclusive = true; hi_inclusive = true }

abbrev is_same : Sign → Bool
is_same same = true
is_same _ = false

-- The bound that `MergeBound` leaves where `cur` was; `cmp` compares the new value with it.
unfoldable pub merged : Bool → ColumnValue → Bool → Sign → ColumnValue → Bool → ColumnValue × Bool
merged is_low value inclusive cmp cur cur_incl =
    if cur.is_null
    then (value, inclusive)
    else if (if is_low then op_holds k_gt cmp else op_holds k_lt cmp)
    then (value, inclusive)
    else if is_same cmp && not inclusive
    then (cur, false)
    else (cur, cur_incl)

unfoldable pub merge_bound : Runtime → Bool → ColumnValue → Bool → DataType → KeyBounds → KeyBounds
merge_bound rt true value inclusive key_type out =
    let b =
      merged true value inclusive (compare_cells rt value out.lo key_type) out.lo
        out.lo_inclusive in
    record out { lo = b.0; lo_inclusive = b.1 }
merge_bound rt false value inclusive key_type out =
    let b =
      merged false value inclusive (compare_cells rt value out.hi key_type) out.hi
        out.hi_inclusive in
    record out { hi = b.0; hi_inclusive = b.1 }

-- The `switch` over the operator.
unfoldable pub narrow : Runtime → CompareOp → ColumnValue → DataType → KeyBounds → KeyBounds
narrow rt k_eq v kt out = merge_bound rt false v true kt (merge_bound rt true v true kt out)
narrow rt k_gt v kt out = merge_bound rt true v false kt out
narrow rt k_ge v kt out = merge_bound rt true v true kt out
narrow rt k_lt v kt out = merge_bound rt false v false kt out
narrow rt k_le v kt out = merge_bound rt false v true kt out
narrow rt k_ne v kt out = out

-- A comparison with the first column.
unfoldable pub extract_compare :
    Runtime → Column → Bytes → CompareOp → ColumnValue → KeyBounds → KeyBounds
extract_compare rt key column op value out =
    if not (bytes_eq key.name column)
    then out
    else if value.is_null
    then out
    else elim (coerce_literal rt value key) [ ok v ↦ narrow rt op v key.type out | err e ↦ out ]

unfoldable mutual
  pub extract_key_bounds : Runtime → Schema → Condition → KeyBounds → KeyBounds
  extract_key_bounds rt [] c out = out
  extract_key_bounds rt (key ∷ cols) (compare column op value) out =
      extract_compare rt key column op value out
  extract_key_bounds rt (key ∷ cols) (all_of cs) out = extract_children rt (key ∷ cols) cs out
  extract_key_bounds rt (key ∷ cols) (is_null column) out = out
  extract_key_bounds rt (key ∷ cols) (is_not_null column) out = out
  extract_key_bounds rt (key ∷ cols) (any_of cs) out = out
  extract_key_bounds rt (key ∷ cols) (not_of cs) out = out

  pub extract_children : Runtime → Schema → Conditions → KeyBounds → KeyBounds
  extract_children rt cols nil out = out
  extract_children rt cols (cons c cs) out =
      extract_children rt cols cs (extract_key_bounds rt cols c out)
