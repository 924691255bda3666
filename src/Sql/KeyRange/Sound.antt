-- ===== src/Sql/KeyRange/Sound.antt =====
-- The key range of a WHERE clause keeps every row that the clause selects.
use rtdb_common.Common.{
  [], ◌∷◌, Bool, true, false, if◌then◌else◌, bytes_eq, Bool-cases, ◌≡◌, ◌≢◌, ◌⊎◌, inl, inr, refl,
  ap, ◌∙◌, arith, ltz, ℤ, pos, negsuc,
}
use rtdb_common.Types.{
  Bytes, ok, ColumnValue, DataType, is_float_class, is_int_class, Result-cases, >>=-eq-ok,
}
use rtdb_common.Sql.Ast.{
  CompareOp, k_eq, k_ne, k_lt, k_le, k_gt, k_ge, Condition, Conditions, compare, is_null,
  is_not_null, all_of, any_of, not_of, nil, cons,
}
use rtdb_common.Sql.Values.{
  Runtime, Column, coerce_literal, compare_cells, compare_bytes, Sign, less, same, more, sign_of,
}
use rtdb_common.Sql.Eval.{
  Schema, Row, cell_at, op_holds, eval_condition, eval_children, eval_compare, index_of,
}
use rtdb_common.Sql.KeyRange.{
  KeyBounds, no_bounds, merged, merge_bound, narrow, extract_compare, extract_key_bounds,
  extract_children,
}

-- A key is on the right side of both bounds.
pub record WithinBounds (rt : Runtime) (kt : DataType) (key : ColumnValue) (b : KeyBounds)
    : Type 0 where
  pub above :
      (b.lo.is_null ≡ true)
      ⊎ (op_holds (if b.lo_inclusive then k_ge else k_gt) (compare_cells rt key b.lo kt) ≡ true)
  pub below :
      (b.hi.is_null ≡ true)
      ⊎ (op_holds (if b.hi_inclusive then k_le else k_lt) (compare_cells rt key b.hi kt) ≡ true)

-- Values of the same integer or of the same bytes compare alike with everything.
eq_of_ltz : (a b : ℤ) → sign_of (ltz a b) (ltz b a) ≡ same → a ≡ b
eq_of_ltz (pos m) (pos n) e = ap pos (ground arith)
eq_of_ltz (pos m) (negsuc n) e = ground arith
eq_of_ltz (negsuc m) (pos n) e = ground arith
eq_of_ltz (negsuc m) (negsuc n) e = ap negsuc (ground arith)

eq_of_compare_bytes : (s t : Bytes) → compare_bytes s t ≡ same → s ≡ t
unfolding compare_bytes
eq_of_compare_bytes [] [] e = refl
eq_of_compare_bytes [] (b ∷ t) e = cc
eq_of_compare_bytes (a ∷ s) [] e = cc
eq_of_compare_bytes (a ∷ s) (b ∷ t) e =
    let ih : compare_bytes s t ≡ same → s ≡ t = eq_of_compare_bytes s t in ground (arith, ih, e)

compare_cells_same :
    (rt : Runtime) (kt : DataType) (key v cur : ColumnValue)
    → is_float_class kt ≡ false
    → v.is_null ≡ false
    → cur.is_null ≡ false
    → compare_cells rt v cur kt ≡ same
    → compare_cells rt key v kt ≡ compare_cells rt key cur kt
unfolding compare_cells
compare_cells_same rt kt key v cur f n m e = elim (Bool-cases (is_int_class kt)) [
  | inl i ↦
      let q : v.int ≡ cur.int = eq_of_ltz v.int cur.int (rw (f, n, m, i) at e) in rw (f, n, m, i, q)
  | inr i ↦
      let q : v.bytes ≡ cur.bytes = eq_of_compare_bytes v.bytes cur.bytes (rw (f, n, m, i) at e) in
      rw (f, n, m, i, q)
]

-- A null literal is not coerced here, so what is coerced is no null.
coerce_literal-is_null :
    (rt : Runtime) (value v : ColumnValue) (key : Column)
    → value.is_null ≡ false
    → coerce_literal rt value key ≡ ok v
    → v.is_null ≡ false
unfolding coerce_literal
coerce_literal-is_null rt value v key n e = ground arith

op_holds-eq :
    (x : Sign) → op_holds k_eq x ≡ true → (op_holds k_ge x ≡ true) × (op_holds k_le x ≡ true)
unfolding op_holds
op_holds-eq same e = (refl, refl)
op_holds-eq less e = cc
op_holds-eq more e = cc

module _ (rt : Runtime) (kt : DataType) (key : ColumnValue) (fl : is_float_class kt ≡ false) where
  merge_bound-WithinBounds :
      (is_low : Bool) (v : ColumnValue) (incl : Bool) (b : KeyBounds)
      → v.is_null ≡ false
      → op_holds
          (if is_low then (if incl then k_ge else k_gt) else (if incl then k_le else k_lt))
          (compare_cells rt key v kt)
        ≡ true
      → WithinBounds rt kt key b
      → WithinBounds rt kt key (merge_bound rt is_low v incl kt b)
  unfolding merge_bound merged
  merge_bound-WithinBounds true v incl b n h w = record {
    above = ground (arith, w.above, compare_cells_same rt kt key v b.lo fl n);
    below = w.below;
  }
  merge_bound-WithinBounds false v incl b n h w = record {
    above = w.above;
    below = ground (arith, w.below, compare_cells_same rt kt key v b.hi fl n);
  }

  narrow-WithinBounds :
      (op : CompareOp) (v : ColumnValue) (b : KeyBounds)
      → v.is_null ≡ false
      → op_holds op (compare_cells rt key v kt) ≡ true
      → WithinBounds rt kt key b
      → WithinBounds rt kt key (narrow rt op v kt b)
  unfolding narrow
  narrow-WithinBounds k_eq v b n h w =
      let (ge, le) = op_holds-eq (compare_cells rt key v kt) h in
      merge_bound-WithinBounds false v true _ n le (merge_bound-WithinBounds true v true b n ge w)
  narrow-WithinBounds k_ne v b n h w = w
  narrow-WithinBounds k_lt v b n h w = merge_bound-WithinBounds false v false b n h w
  narrow-WithinBounds k_le v b n h w = merge_bound-WithinBounds false v true b n h w
  narrow-WithinBounds k_gt v b n h w = merge_bound-WithinBounds true v false b n h w
  narrow-WithinBounds k_ge v b n h w = merge_bound-WithinBounds true v true b n h w

-- A comparison with the first column that holds of a row.
eval_compare-key :
    (rt : Runtime) (key : Column) (cols : Schema) (row : Row) (column : Bytes) (op : CompareOp)
    (value v : ColumnValue)
    → bytes_eq key.name column ≡ true
    → value.is_null ≡ false
    → coerce_literal rt value key ≡ ok v
    → eval_compare rt (key ∷ cols) row column op value ≡ ok true
    → op_holds op (compare_cells rt (cell_at row 0) v key.type) ≡ true
unfolding eval_compare index_of
eval_compare-key rt key cols row column op value v b n c e = ground (arith, e, c, b, n)

-- A conjunction that has met a false part stays false.
eval_children-false :
    (rt : Runtime) (cols : Schema) (row : Row) (cs : Conditions)
    → eval_children rt cols row true false cs ≢ ok true
unfolding eval_children
eval_children-false rt cols row nil e = cc
eval_children-false rt cols row (cons c cs) e =
    eval_children-false rt cols row cs (>>=-eq-ok (eval_condition rt cols row c) _ e).2

eval_children-cons :
    (rt : Runtime) (cols : Schema) (row : Row) (c : Condition) (cs : Conditions)
    → eval_children rt cols row true true (cons c cs) ≡ ok true
    → (eval_condition rt cols row c ≡ ok true) × (eval_children rt cols row true true cs ≡ ok true)
unfolding eval_children
eval_children-cons rt cols row c cs e = elim (Result-cases (eval_condition rt cols row c)) [
  | inl (v, q) ↦ elim (Bool-cases v) [
    | inl t ↦ (q ∙ ap ok t, rw (q, t) at e)
    | inr f ↦ absurd (eval_children-false rt cols row cs (rw (q, f) at e))
  ]
  | inr (x, q) ↦ ground (arith, q, e)
]

module _ (rt : Runtime) (key : Column) (cols : Schema) (row : Row)
    (fl : is_float_class key.type ≡ false) where
  extract_compare-WithinBounds :
      (column : Bytes) (op : CompareOp) (value : ColumnValue) (b : KeyBounds)
      → eval_compare rt (key ∷ cols) row column op value ≡ ok true
      → WithinBounds rt key.type (cell_at row 0) b
      → WithinBounds rt key.type (cell_at row 0) (extract_compare rt key column op value b)
  unfolding extract_compare
  extract_compare-WithinBounds column op value b e w =
      elim (Bool-cases (bytes_eq key.name column)) [
        | inr f ↦ rw f w
        | inl t ↦ elim (Bool-cases value.is_null) [
          | inl y ↦ rw (t, y) w
          | inr n ↦ elim (Result-cases (coerce_literal rt value key)) [
            | inr (x, c) ↦ rw (t, c, n) w
            | inl (v, c) ↦
                rw (t, c, n)
                  (narrow-WithinBounds rt key.type (cell_at row 0) fl op v b
                    (coerce_literal-is_null rt value v key n c)
                    (eval_compare-key rt key cols row column op value v t n c e) w)
          ]
        ]
      ]

  mutual
    unfolding extract_key_bounds eval_condition

    extract_key_bounds-WithinBounds :
        (c : Condition) (b : KeyBounds)
        → eval_condition rt (key ∷ cols) row c ≡ ok true
        → WithinBounds rt key.type (cell_at row 0) b
        → WithinBounds rt key.type (cell_at row 0) (extract_key_bounds rt (key ∷ cols) c b)
    extract_key_bounds-WithinBounds (compare column op value) b e w =
        extract_compare-WithinBounds column op value b e w
    extract_key_bounds-WithinBounds (all_of cs) b e w = extract_children-WithinBounds cs b e w
    extract_key_bounds-WithinBounds (is_null column) b e w = w
    extract_key_bounds-WithinBounds (is_not_null column) b e w = w
    extract_key_bounds-WithinBounds (any_of cs) b e w = w
    extract_key_bounds-WithinBounds (not_of cs) b e w = w

    extract_children-WithinBounds :
        (cs : Conditions) (b : KeyBounds)
        → eval_children rt (key ∷ cols) row true true cs ≡ ok true
        → WithinBounds rt key.type (cell_at row 0) b
        → WithinBounds rt key.type (cell_at row 0) (extract_children rt (key ∷ cols) cs b)
    extract_children-WithinBounds nil b e w = w
    extract_children-WithinBounds (cons c cs) b e w =
        let (h, t) = eval_children-cons rt (key ∷ cols) row c cs e in
        extract_children-WithinBounds cs _ t (extract_key_bounds-WithinBounds c b h w)

-- The range that is taken from a WHERE clause loses no row: where the key column is not of a floating
-- type, the key of every row of which the clause holds lies within the range.
pub key_range_sound :
    (rt : Runtime) (key : Column) (cols : Schema) (row : Row) (c : Condition)
    → is_float_class key.type ≡ false
    → eval_condition rt (key ∷ cols) row c ≡ ok true
    → WithinBounds rt key.type (cell_at row 0) (extract_key_bounds rt (key ∷ cols) c no_bounds)
key_range_sound rt key cols row c fl e =
    extract_key_bounds-WithinBounds rt key cols row fl c no_bounds e
      (record { above = inl refl; below = inl refl })
