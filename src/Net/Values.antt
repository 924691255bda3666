-- ===== src/Net/Values.antt =====
-- Values and rows on the wire (src/net/value_codec.cpp).
pub mod RoundTrip
use rtdb_common.Common.{
  ℕ, ◌+◌, ◌≤◌, List, [], ◌∷◌, ◌++◌, Bool, true, false, not, ◌&&◌, ◌||◌, ℤ, length, leb, ◌==◌,
  if◌then◌else◌, Option, none, some,
}
use rtdb_common.Types.{
  Bytes, Err, k_protocol_error, Result, ok, err, ◌>>=◌, DataType, k_int8, k_int16, k_int32, k_int64,
  k_float32, k_float64, k_bool, k_utf8_var, k_bytes_var, k_unix_ts_ns, type_code, ColumnValue,
  null_value, int_of, int_value, real_value, text_value, bytes_value, is_int_class, is_float_class,
  is_var_class,
}
use rtdb_common.Net.Writer
use rtdb_common.Net.Reader
use rtdb_common.Net.Reader.{Reader, poison}

-- `RTDB_VAL_*` of proto_v1.h
abbrev pub val_null : ℕ
val_null = 0

abbrev pub val_i64 : ℕ
val_i64 = 1

abbrev pub val_f64 : ℕ
val_f64 = 2

abbrev pub val_var : ℕ
val_var = 3

unfoldable pub write_value : Bytes → ColumnValue → Bytes
write_value w v =
    if v.is_null
    then Writer.u8 w val_null
    else if is_float_class v.type
    then Writer.f64 (Writer.u8 w val_f64) v.real
    else if is_var_class v.type
    then Writer.var (Writer.u8 w val_var) v.bytes
    else Writer.i64 (Writer.u8 w val_i64) v.int

-- The payload of an integer, a double or a text, once the tag has been read.
unfoldable pub read_int_as : DataType → Reader → ColumnValue × Reader
read_int_as t r = let (v, r') = Reader.i64 r in (int_of t v, r')

unfoldable pub read_real : Reader → ColumnValue × Reader
read_real r = let (v, r') = Reader.f64 r in (real_value v, r')

-- `if (!r.Var(&s)) return Null();`
unfoldable pub read_var_as : (Bytes → ColumnValue) → Reader → ColumnValue × Reader
read_var_as make r =
    let (s, r') = Reader.var r in (elim s [ none ↦ null_value | some b ↦ make b ], r')

unfoldable pub read_value_typed : Reader → DataType → ColumnValue × Reader
read_value_typed r t =
    let (tag, r1) = Reader.u8 r in
    if not r1.ok
    then (null_value, r1)
    else if tag == val_null
    then (null_value, r1)
    else if is_int_class t
    then (if tag == val_i64 then read_int_as t r1 else (null_value, poison r1))
    else if is_float_class t
    then (if tag == val_f64 then read_real r1 else (null_value, poison r1))
    else if is_var_class t
    then (if tag == val_var
        then read_var_as (elim t [ k_utf8_var ↦ text_value | _ ↦ bytes_value ]) r1
        else (null_value, poison r1))
    else (null_value, poison r1)

unfoldable pub read_value_generic : Reader → ColumnValue × Reader
read_value_generic r =
    let (tag, r1) = Reader.u8 r in
    if not r1.ok
    then (null_value, r1)
    else if tag == val_null
    then (null_value, r1)
    else if tag == val_i64
    then read_int_as k_int64 r1
    else if tag == val_f64
    then read_real r1
    else if tag == val_var
    then read_var_as text_value r1
    else (null_value, poison r1)

unfoldable pub write_row : Bytes → List ColumnValue → Bytes
write_row w [] = w
write_row w (v ∷ row) = write_row (write_value w v) row

-- The loop stops behind the first value that fails.
unfoldable pub read_row : Reader → List DataType → List ColumnValue × Reader
read_row r [] = ([], r)
read_row r (t ∷ ts) =
    let (v, r1) = read_value_typed r t in
    let (row, r2) = read_row r1 ts in if r1.ok then (v ∷ row, r2) else (v ∷ [], r1)
