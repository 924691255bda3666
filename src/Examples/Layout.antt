-- ===== src/Examples/Layout.antt =====
-- Runs of the row layout.
use rtdb_common.Common.{◌-◌, ◌^◌, ◌≡◌, refl, arith, List, [], ◌∷◌, true, false}
use rtdb_common.Types.{ok, k_int64, k_int8, k_utf8_var}
use rtdb_common.Storage.Layout.{
  ColumnDef, RowLayoutPlan, plan_row_layout, place_columns, align_up_8, align_column, align_of,
  fixed_size_of, width_of, describe, compute_nullmap_offset,
}
use rtdb_common.Storage.Layout.Plan.{IsSound, plan_row_layout-IsSound, nullmap_found}

abbrev id_column : ColumnDef
id_column = record { name = []; type = k_int64; len = 0; nullable = false }

abbrev flag_column : ColumnDef
flag_column = record { name = []; type = k_int8; len = 0; nullable = true }

abbrev text_column : ColumnDef
text_column = record { name = []; type = k_utf8_var; len = 0; nullable = true }

abbrev three_columns : List ColumnDef
three_columns = id_column ∷ flag_column ∷ text_column ∷ []

abbrev three_plan : RowLayoutPlan
three_plan = record {
  rec_fixed_len = 32;
  nullmap_offset = 24;
  var_col_count = 1;
  ver_array_bytes = 800;
  tombmap_bytes = 13;
  offsets = 0 ∷ 8 ∷ 16 ∷ [];
}

three_columns_planned : plan_row_layout three_columns 100 ≡ ok three_plan
unfolding plan_row_layout place_columns align_up_8 align_column align_of fixed_size_of width_of
three_columns_planned = refl

plan_row_layout-IsSound_example : IsSound three_columns 100 three_plan
unfolding fixed_size_of width_of
plan_row_layout-IsSound_example =
    plan_row_layout-IsSound three_columns 100 three_plan three_columns_planned (omega arith)

nullmap_found_example : compute_nullmap_offset (describe three_columns (0 ∷ 8 ∷ 16 ∷ [])) 0 ≡ 24
nullmap_found_example =
    nullmap_found three_columns 100 three_plan three_columns_planned
      (λ var. refl, (λ var. refl, (λ var. refl, tt)))

-- A length that the wrapping sum of 32 bits hides: the row has eight bytes, all of them the first
-- column's, and the null bitmap stands on them.
wide_column_wraps :
    plan_row_layout (id_column ∷ record flag_column { len = 2 ^ 32 - 8 } ∷ []) 100
    ≡ ok (record {
      rec_fixed_len = 8;
      nullmap_offset = 0;
      var_col_count = 0;
      ver_array_bytes = 800;
      tombmap_bytes = 13;
      offsets = 0 ∷ 8 ∷ [];
    })
unfolding plan_row_layout place_columns align_up_8 align_column align_of fixed_size_of width_of
wide_column_wraps = refl
