-- ===== src/Sql/Values.antt =====
-- Literals and cells (src/sql/exec.cpp): conversion to a column's type, and comparison.
use rtdb_common.Common.{
  ℕ, [], ◌∷◌, Bool, true, false, not, ◌&&◌, ◌||◌, ℤ, pos, negsuc, ltz, eqz, ltb, length, ◌==◌,
  if◌then◌else◌, Option, none, some,
}
use rtdb_common.Types.{
  Bytes, Err, k_invalid_argument, Result, ok, err, ◌>>=◌, DataType, k_int8, k_int16, k_int32,
  k_bool, k_bytes_var, ColumnValue, null_value, int_of, real_value, text_value, bytes_value,
  is_int_class, is_float_class, is_var_class,
}

-- What the code takes from the language and its library: comparison and conversion of doubles, given
-- by their patterns, and `strtoll` and `strtod`, with `none` where a text is not read to its end or
-- is out of range.
pub record Runtime : Type 0 where
  pub real_lt : ℕ → ℕ → Bool
  pub real_of_int : ℤ → ℕ
  pub int_of_real : ℕ → ℤ
  pub strtoll : Bytes → Option ℤ
  pub strtod : Bytes → Option ℕ

-- What the executor reads of a `ColumnDef`.
pub record Column : Type 0 where
  pub name : Bytes
  pub type : DataType
  pub nullable : Bool

abbrev from_option {ℓ} : {A : Type ℓ} → Option A → Err → Result A
from_option none e = err e
from_option (some a) e = ok a

module _ (rt : Runtime) where
  unfoldable pub parse_int_text : Bytes → Option ℤ
  parse_int_text s = if length s == 0 then none else rt.strtoll s

  unfoldable pub parse_real_text : Bytes → Option ℕ
  parse_real_text s = if length s == 0 then none else rt.strtod s

  -- The integer that a literal stands for.
  unfoldable pub literal_int : ColumnValue → Result ℤ
  literal_int v =
      if is_int_class v.type
      then ok v.int
      else if is_float_class v.type
      then ok (rt.int_of_real v.real)
      else from_option (parse_int_text v.bytes) k_invalid_argument

  -- `v < -128 || v > 127`, and so on by the column's type.
  unfoldable pub int_fits : DataType → ℤ → Bool
  int_fits k_int8 v = not (ltz v (negsuc 127) || ltz (pos 127) v)
  int_fits k_int16 v = not (ltz v (negsuc 32767) || ltz (pos 32767) v)
  int_fits k_int32 v = not (ltz v (negsuc 2147483647) || ltz (pos 2147483647) v)
  int_fits k_bool v = eqz v (pos 0) || eqz v (pos 1)
  int_fits _ v = true

  unfoldable pub literal_real : ColumnValue → Result ℕ
  literal_real v =
      if is_int_class v.type
      then ok (rt.real_of_int v.int)
      else if is_float_class v.type
      then ok v.real
      else from_option (parse_real_text v.bytes) k_invalid_argument

  -- `CoerceLiteral`, without the text of its errors.
  unfoldable pub coerce_literal : ColumnValue → Column → Result ColumnValue
  coerce_literal v col =
      if v.is_null
      then (if col.nullable then ok null_value else err k_invalid_argument)
      else if is_int_class col.type
      then (do
        n ← literal_int v
        if int_fits col.type n then ok (int_of col.type n) else err k_invalid_argument)
      else if is_float_class col.type
      then (do d ← literal_real v; ok (real_value d))
      else if not (is_var_class v.type)
      then err k_invalid_argument
      else ok (elim col.type [ k_bytes_var ↦ bytes_value v.bytes | _ ↦ text_value v.bytes ])

-- The results -1, 0 and 1.
pub data Sign : Type 0 where
  less same more : Sign

abbrev pub sign_of : Bool → Bool → Sign
sign_of true gt = less
sign_of false true = more
sign_of false false = same

-- `std::string::compare`: by bytes, a prefix first.
unfoldable pub compare_bytes : Bytes → Bytes → Sign
compare_bytes [] [] = same
compare_bytes [] (b ∷ t) = less
compare_bytes (a ∷ s) [] = more
compare_bytes (a ∷ s) (b ∷ t) = elim (sign_of (ltb a b) (ltb b a)) [
  | less ↦ less
  | same ↦ compare_bytes s t
  | more ↦ more
]

-- `CompareCells`; a null is less than every other value.
unfoldable pub compare_cells : Runtime → ColumnValue → ColumnValue → DataType → Sign
compare_cells rt a b t =
    if a.is_null || b.is_null
    then (if a.is_null && b.is_null then same else if a.is_null then less else more)
    else if is_int_class t
    then sign_of (ltz a.int b.int) (ltz b.int a.int)
    else if is_float_class t
    then sign_of (rt.real_lt a.real b.real) (rt.real_lt b.real a.real)
    else compare_bytes a.bytes b.bytes
