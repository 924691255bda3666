-- ===== src/Storage/Layout.antt =====
-- The layout of a row (src/storage/schema.hpp): widths, alignments and `PlanRowLayout`, and the offset of
-- the null bitmap as src/storage/table_store.cpp computes it again from a table's descriptor. An unsigned
-- number of 32 bits wraps.
pub mod Plan
use rtdb_common.Common.{
  ℕ, ◌+◌, ◌-◌, ◌*◌, ◌/◌, ◌%◌, ◌^◌, List, [], ◌∷◌, Bool, true, false, not, ◌&&◌, ltb, ◌==◌, length,
  if◌then◌else◌,
}
use rtdb_common.Types.{
  Err, k_invalid_argument, DataType, k_int8, k_int16, k_int32, k_int64, k_float32, k_float64,
  k_bool, k_utf8_var, k_bytes_var, k_unix_ts_ns, Result, ok, err, ◌>>=◌, Bytes,
}

-- `ColumnDef`, without its default value.
pub record ColumnDef : Type 0 where
  pub name : Bytes
  pub type : DataType
  pub len : ℕ
  pub nullable : Bool

-- The members of `shm_ColDef` that the layout needs.
pub record ColDef : Type 0 where
  pub offset : ℕ
  pub len : ℕ
  pub type : DataType
  pub nullable : Bool

unfoldable pub fixed_size_of : DataType → ℕ
fixed_size_of k_int8 = 1
fixed_size_of k_int16 = 2
fixed_size_of k_int32 = 4
fixed_size_of k_int64 = 8
fixed_size_of k_float32 = 4
fixed_size_of k_float64 = 8
fixed_size_of k_bool = 1
fixed_size_of k_utf8_var = 0
fixed_size_of k_bytes_var = 0
fixed_size_of k_unix_ts_ns = 8

unfoldable pub align_of : DataType → ℕ
align_of k_int8 = 1
align_of k_bool = 1
align_of k_int16 = 2
align_of k_int32 = 4
align_of k_float32 = 4
align_of k_int64 = 8
align_of k_float64 = 8
align_of k_unix_ts_ns = 8
align_of k_utf8_var = 8
align_of k_bytes_var = 8

-- `AlignUp8`, on 64 bits.
unfoldable pub align_up_8 : ℕ → ℕ
align_up_8 v = (v + 7) % 2 ^ 64 / 8 * 8

-- `(off + align - 1) / align * align`
unfoldable pub align_column : ℕ → ℕ → ℕ
align_column off align = (off + align - 1) % 2 ^ 32 / align * align

-- The bytes that a column takes in the row.
unfoldable pub width_of : ColumnDef → ℕ
width_of c =
    if not (fixed_size_of c.type == 0)
    then if not (c.len == 0) then c.len else fixed_size_of c.type
    else 8

-- What the loop over the columns leaves: the end of the columns, the columns of variable length, and
-- where each column stands.
pub record Placed : Type 0 where
  pub off : ℕ
  pub var_col_count : ℕ
  pub offsets : List ℕ

unfoldable pub place_columns : List ColumnDef → ℕ → ℕ → Result Placed
place_columns [] off vars = ok (record { off = off; var_col_count = vars; offsets = [] })
place_columns (c ∷ cs) off vars =
    let fixed = fixed_size_of c.type in
    let at = align_column off (align_of c.type) in
    let rest =
      place_columns cs ((at + width_of c) % 2 ^ 32) (if fixed == 0 then vars + 1 else vars) in
    if not (fixed == 0) && not (c.len == 0) && ltb c.len fixed
    then err k_invalid_argument
    else (rest >>= λ p. ok (record p { offsets = at ∷ p.offsets }))

-- `RowLayoutPlan`, with the offsets.
pub record RowLayoutPlan : Type 0 where
  pub rec_fixed_len : ℕ
  pub nullmap_offset : ℕ
  pub var_col_count : ℕ
  pub ver_array_bytes : ℕ
  pub tombmap_bytes : ℕ
  pub offsets : List ℕ

unfoldable pub plan_row_layout : List ColumnDef → ℕ → Result RowLayoutPlan
plan_row_layout cols row_cap =
    if length cols == 0
    then err k_invalid_argument
    else (place_columns cols 0 0 >>= λ p. ok (record {
      rec_fixed_len = align_up_8 ((p.off + (length cols + 7) / 8) % 2 ^ 32) % 2 ^ 32;
      nullmap_offset = p.off;
      var_col_count = p.var_col_count;
      ver_array_bytes = row_cap * 8;
      tombmap_bytes = (row_cap + 7) / 8;
      offsets = p.offsets;
    }))

-- `ExtColRegionBytes`: an added column's header, slots and two bitmaps.
unfoldable pub ext_col_region_bytes : ℕ → ℕ → ℕ
ext_col_region_bytes row_cap slot_bytes = 88 + row_cap * slot_bytes + 2 * ((row_cap + 7) / 8)

abbrev pub is_var_type : DataType → Bool
is_var_type k_utf8_var = true
is_var_type k_bytes_var = true
is_var_type _ = false

-- The columns of a descriptor, as `Catalog::CreateTable` fills them in.
unfoldable pub describe : List ColumnDef → List ℕ → List ColDef
describe [] offsets = []
describe (c ∷ cs) [] = []
describe (c ∷ cs) (o ∷ os) =
    record {
      offset = o;
      len =
          if not (c.len == 0)
          then c.len
          else if is_var_type c.type
          then 0
          else fixed_size_of c.type;
      type = c.type;
      nullable = c.nullable;
    }
    ∷ describe cs os

-- `ComputeNullmapOffset`
unfoldable pub compute_nullmap_offset : List ColDef → ℕ → ℕ
compute_nullmap_offset [] off = off
compute_nullmap_offset (c ∷ cs) off = compute_nullmap_offset cs (
    (align_column off (align_of c.type)
      + (if not (c.len == 0)
          then c.len
          else if ltb 0 (fixed_size_of c.type)
          then fixed_size_of c.type
          else 8))
    % 2 ^ 32)
