-- ===== src/Storage/Layout/Plan.antt =====
-- Where `PlanRowLayout` of src/storage/schema.hpp puts the columns.
use rtdb_common.Common.{
  ℕ, ◌+◌, ◌-◌, ◌*◌, ◌/◌, ◌%◌, ◌^◌, ◌≤◌, ◌<◌, ◌≡◌, refl, sym, ap, ◌∙◌, arith, List, [], ◌∷◌, true,
  not, ◌&&◌, ltb, ◌==◌, length, if◌then◌else◌, Bool-cases, inl, inr, All,
}
use mathlib.Core.Path.{subst}
use rtdb_common.Types.{
  k_invalid_argument, DataType, k_int8, k_int16, k_int32, k_int64, k_float32, k_float64, k_bool,
  k_utf8_var, k_bytes_var, k_unix_ts_ns, Result, ok, err, ◌>>=◌, >>=-eq-ok,
}
use rtdb_common.Storage.Layout.{
  ColumnDef, fixed_size_of, align_of, align_up_8, align_column, width_of, Placed, place_columns,
  RowLayoutPlan, plan_row_layout, is_var_type, describe, compute_nullmap_offset,
}

-- The columns stand in order, aligned, from `lo` on, none over another, and end at `end`.
abbrev pub Laid : ℕ → List ColumnDef → List ℕ → ℕ → Type 0
Laid lo [] [] end = lo ≡ end
Laid lo (c ∷ cs) (o ∷ os) end =
    (lo ≤ o) × (o % align_of c.type ≡ 0) × Laid (o + width_of c) cs os end
Laid lo _ _ end = ⊥

-- The most that the columns can take, with eight bytes for the alignment of each.
abbrev pub room_for : List ColumnDef → ℕ
room_for [] = 0
room_for (c ∷ cs) = width_of c + 8 + room_for cs

aligned :
    (off : ℕ) (t : DataType)
    → off + 8 < 2 ^ 32
    → (off ≤ align_column off (align_of t))
      × (align_column off (align_of t) < off + 8)
      × (align_column off (align_of t) % align_of t ≡ 0)
unfolding align_column align_of
aligned off k_int8 h = omega (arith, h)
aligned off k_int16 h = omega (arith, h)
aligned off k_int32 h = omega (arith, h)
aligned off k_int64 h = omega (arith, h)
aligned off k_float32 h = omega (arith, h)
aligned off k_float64 h = omega (arith, h)
aligned off k_bool h = omega (arith, h)
aligned off k_utf8_var h = omega (arith, h)
aligned off k_bytes_var h = omega (arith, h)
aligned off k_unix_ts_ns h = omega (arith, h)

-- Where all columns are placed, the further ones are, behind the first.
place_columns_steps :
    (c : ColumnDef) (cs : List ColumnDef) (off vars : ℕ) (p : Placed)
    → place_columns (c ∷ cs) off vars ≡ ok p
    → let at = align_column off (align_of c.type) in
      (vars' : ℕ) × (q : Placed) × (place_columns cs ((at + width_of c) % 2 ^ 32) vars' ≡ ok q)
      × (record q { offsets = at ∷ q.offsets } ≡ p)
unfolding place_columns
place_columns_steps c cs off vars p e =
    let fixed = fixed_size_of c.type in
    let at = align_column off (align_of c.type) in
    let vars' = if fixed == 0 then vars + 1 else vars in
    let rest = place_columns cs ((at + width_of c) % 2 ^ 32) vars' in
    elim (Bool-cases (not (fixed == 0) && not (c.len == 0) && ltb c.len fixed)) [
      | inl short ↦
          let refused : place_columns (c ∷ cs) off vars ≡ err k_invalid_argument = rw short refl in
          absurd (cc (e, refused))
      | inr fine ↦
          let go_on : Placed → Result Placed = λ q. ok (record q { offsets = at ∷ q.offsets }) in
          let step : place_columns (c ∷ cs) off vars ≡ (rest >>= go_on) = rw fine refl in
          let found = >>=-eq-ok rest go_on (sym step ∙ e) in (vars', found.0, found.1, cc found.2)
    ]

place_columns-Laid :
    (cs : List ColumnDef) (off vars : ℕ) (p : Placed)
    → place_columns cs off vars ≡ ok p
    → off + room_for cs < 2 ^ 32
    → Laid off cs p.offsets p.off × (p.off ≤ off + room_for cs)
unfolding place_columns
place_columns-Laid [] off vars p e small =
    let same : record { off = off; var_col_count = vars; offsets = [] } ≡ p = cc e in
    subst (λ q. Laid off [] q.offsets q.off × (q.off ≤ off + 0)) same (refl, omega arith)
place_columns-Laid (c ∷ cs) off vars p e small =
    let s = place_columns_steps c cs off vars p e in
    let at = align_column off (align_of c.type) in
    let here = aligned off c.type (omega (arith, small)) in
    let next : (at + width_of c) % 2 ^ 32 ≡ at + width_of c = omega (arith, small, here) in
    let rest =
      place_columns-Laid cs ((at + width_of c) % 2 ^ 32) s.0 s.1 s.2
        (omega (arith, small, here, next)) in
    subst (λ q. Laid off (c ∷ cs) q.offsets q.off × (q.off ≤ off + room_for (c ∷ cs))) s.3
      (
        (here.0, here.2, subst (λ l. Laid l cs s.1.offsets s.1.off) next rest.0),
        omega (arith, rest.1, next, here),
      )

-- The plan of columns that are placed.
abbrev planned : List ColumnDef → ℕ → Placed → RowLayoutPlan
planned cs row_cap p = record {
  rec_fixed_len = align_up_8 ((p.off + (length cs + 7) / 8) % 2 ^ 32) % 2 ^ 32;
  nullmap_offset = p.off;
  var_col_count = p.var_col_count;
  ver_array_bytes = row_cap * 8;
  tombmap_bytes = (row_cap + 7) / 8;
  offsets = p.offsets;
}

plan_row_layout_steps :
    (cs : List ColumnDef) (row_cap : ℕ) (plan : RowLayoutPlan)
    → plan_row_layout cs row_cap ≡ ok plan
    → (p : Placed) × (place_columns cs 0 0 ≡ ok p) × (planned cs row_cap p ≡ plan)
unfolding plan_row_layout
plan_row_layout_steps cs row_cap plan e = elim (Bool-cases (length cs == 0)) [
  | inl none ↦
      let refused : plan_row_layout cs row_cap ≡ err k_invalid_argument = rw none refl in
      absurd (cc (e, refused))
  | inr some ↦
      let go_on : Placed → Result RowLayoutPlan = λ p. ok (planned cs row_cap p) in
      let step : plan_row_layout cs row_cap ≡ (place_columns cs 0 0 >>= go_on) = rw some refl in
      let found = >>=-eq-ok (place_columns cs 0 0) go_on (sym step ∙ e) in
      (found.0, found.1, cc found.2)
]

abbrev pub IsSound : List ColumnDef → ℕ → RowLayoutPlan → Type 0
IsSound cs row_cap plan =
    Laid 0 cs plan.offsets plan.nullmap_offset
    × (length cs ≤ 8 * (plan.rec_fixed_len - plan.nullmap_offset))
    × (plan.nullmap_offset ≤ plan.rec_fixed_len)
    × (plan.rec_fixed_len % 8 ≡ 0)
    × (plan.ver_array_bytes ≡ 8 * row_cap)
    × (row_cap ≤ 8 * plan.tombmap_bytes)

-- A plan that `PlanRowLayout` makes of columns that take, with eight bytes more for each and the null
-- bitmap, less than 2^32 bytes: the columns stand in order, aligned as their types ask and none over
-- another, the null bitmap of one bit for each column follows them and ends within the row, the row is a
-- multiple of eight bytes, and there is a version of eight bytes and a bit for each of the rows.
pub plan_row_layout-IsSound :
    (cs : List ColumnDef) (row_cap : ℕ) (plan : RowLayoutPlan)
    → plan_row_layout cs row_cap ≡ ok plan
    → room_for cs + length cs + 16 < 2 ^ 32
    → IsSound cs row_cap plan
unfolding align_up_8
plan_row_layout-IsSound cs row_cap plan e small =
    let s = plan_row_layout_steps cs row_cap plan e in
    let laid = place_columns-Laid cs 0 0 s.0 s.1 (omega (arith, small)) in
    subst (λ plan. IsSound cs row_cap plan) s.2
      (
        laid.0,
        omega (arith, laid.1, small),
        omega (arith, laid.1, small),
        omega (arith, laid.1, small),
        omega arith,
        omega arith,
      )

-- No column of variable length has a length of its own, which `CreateTable` tests.
abbrev pub PlainVar : List ColumnDef → Type 0
PlainVar cs = All (λ c. is_var_type c.type ≡ true → c.len ≡ 0) cs

described_width :
    (t : DataType) (len : ℕ)
    → (is_var_type t ≡ true → len ≡ 0)
    → let len' = if not (len == 0) then len else if is_var_type t then 0 else fixed_size_of t in
      (if not (len' == 0) then len' else if ltb 0 (fixed_size_of t) then fixed_size_of t else 8)
      ≡ (if not (fixed_size_of t == 0) then if not (len == 0) then len else fixed_size_of t else 8)
unfolding fixed_size_of
described_width k_int8 len plain = ground arith
described_width k_int16 len plain = ground arith
described_width k_int32 len plain = ground arith
described_width k_int64 len plain = ground arith
described_width k_float32 len plain = ground arith
described_width k_float64 len plain = ground arith
described_width k_bool len plain = ground arith
described_width k_utf8_var len plain = ground (arith, plain refl)
described_width k_bytes_var len plain = ground (arith, plain refl)
described_width k_unix_ts_ns len plain = ground arith

place_columns-nullmap :
    (cs : List ColumnDef) (off vars : ℕ) (p : Placed)
    → PlainVar cs
    → place_columns cs off vars ≡ ok p
    → compute_nullmap_offset (describe cs p.offsets) off ≡ p.off
unfolding compute_nullmap_offset describe width_of place_columns
place_columns-nullmap [] off vars p plain e =
    let same : record { off = off; var_col_count = vars; offsets = [] } ≡ p = cc e in
    ap (λ q. q.off) same
place_columns-nullmap (c ∷ cs) off vars p plain e =
    let s = place_columns_steps c cs off vars p e in
    let at = align_column off (align_of c.type) in
    let rest = place_columns-nullmap cs ((at + width_of c) % 2 ^ 32) s.0 s.1 plain.1 s.2 in
    subst (λ q. compute_nullmap_offset (describe (c ∷ cs) q.offsets) off ≡ q.off) s.3
      (ap (λ w. compute_nullmap_offset (describe cs s.1.offsets) ((at + w) % 2 ^ 32))
          (described_width c.type c.len plain.0)
        ∙ rest)

-- A table's store finds the null bitmap where the plan has put it, in the descriptor that the catalog
-- writes for columns none of which gives a length for a type of variable length.
pub nullmap_found :
    (cs : List ColumnDef) (row_cap : ℕ) (plan : RowLayoutPlan)
    → plan_row_layout cs row_cap ≡ ok plan
    → PlainVar cs
    → compute_nullmap_offset (describe cs plan.offsets) 0 ≡ plan.nullmap_offset
nullmap_found cs row_cap plan e plain =
    let s = plan_row_layout_steps cs row_cap plan e in
    subst (λ plan. compute_nullmap_offset (describe cs plan.offsets) 0 ≡ plan.nullmap_offset) s.2
      (place_columns-nullmap cs 0 0 s.0 plain s.1)
