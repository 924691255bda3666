-- ===== src/Net/Values/RoundTrip.antt =====
-- A row that was written is read back, by the types of its columns.
use rtdb_common.Common.{
  ℕ, ◌<◌, ◌^◌, List, [], ◌∷◌, ◌++◌, Bool, true, false, ℤ, length, ◌≡◌, refl, sym, ap, ◌∙◌, arith,
  append_assoc, InSigned, if◌then◌else◌, Bool-cases, inl, inr, ◌⊎◌, append-nil,
}
use rtdb_common.Types.{
  Bytes, DataType, k_float32, k_float64, k_utf8_var, k_bytes_var, ColumnValue, null_value, int_of,
  real_value, text_value, bytes_value, is_int_class, is_float_class, is_var_class,
}
use rtdb_common.Net.Writer
use rtdb_common.Net.Reader
use rtdb_common.Net.Reader.{Reader, open_reader}
use rtdb_common.Net.RoundTrip.{i64-i64, f64-f64, var-var, i64-append, f64-append, var-append}
use rtdb_common.Net.Values.{
  write_value, read_value_typed, read_int_as, read_real, read_var_as, write_row, read_row, val_i64,
  val_f64, val_var,
}

-- What a reader of a column of type `t` gets from a value: its payload under the column's type.
abbrev pub as_column : DataType → ColumnValue → ColumnValue
as_column t v = if v.is_null then null_value else elim t [
  | k_float32 ↦ real_value v.real
  | k_float64 ↦ real_value v.real
  | k_utf8_var ↦ text_value v.bytes
  | k_bytes_var ↦ bytes_value v.bytes
  | other ↦ int_of other v.int
]

-- A value that is no null can stand in a column of type `t`: both types are of one class, and the payload is in
-- the range of its C++ type.
pub record FitsColumn (t : DataType) (v : ColumnValue) : Type 0 where
  pub float_class : is_float_class v.type ≡ is_float_class t
  pub var_class : is_var_class v.type ≡ is_var_class t
  pub int_range : InSigned (2 ^ 63) v.int
  pub real_range : v.real < 2 ^ 64
  pub bytes_range : length v.bytes < 2 ^ 32

abbrev pub RowFits : List DataType → List ColumnValue → Type 0
RowFits [] [] = Unit
RowFits [] (v ∷ row) = ⊥
RowFits (t ∷ ts) [] = ⊥
RowFits (t ∷ ts) (v ∷ row) = ((v.is_null ≡ true) ⊎ FitsColumn t v) × RowFits ts row

abbrev pub as_columns : List DataType → List ColumnValue → List ColumnValue
as_columns [] row = []
as_columns (t ∷ ts) [] = []
as_columns (t ∷ ts) (v ∷ row) = as_column t v ∷ as_columns ts row

pub write_value-append :
    (buf : Bytes) (v : ColumnValue) → write_value buf v ≡ buf ++ write_value [] v
unfolding write_value Writer.u8
write_value-append buf v = elim (Bool-cases v.is_null) [
  | inl n ↦ simp n
  | inr n ↦ simp n (elim (Bool-cases (is_float_class v.type)) [
    | inl f ↦ rw f (
        f64-append _ v.real ∙ append_assoc buf _ _ ∙ ap (λ l. buf ++ l) (sym (f64-append _ v.real)))
    | inr f ↦ rw f (elim (Bool-cases (is_var_class v.type)) [
      | inl g ↦ rw g (
          var-append _ v.bytes
          ∙ append_assoc buf _ _
          ∙ ap (λ l. buf ++ l) (sym (var-append _ v.bytes)))
      | inr g ↦ rw g (
          i64-append _ v.int ∙ append_assoc buf _ _ ∙ ap (λ l. buf ++ l) (sym (i64-append _ v.int)))
    ])
  ])
]

u8-cons : (b : ℕ) (rest : Bytes) → Reader.u8 (open_reader (b ∷ rest)) ≡ (b, open_reader rest)
unfolding Reader.u8
u8-cons b rest = ground arith

module _ (t vt : DataType) (z : ℤ) (d : ℕ) (b rest : Bytes) where
  abbrev value : ColumnValue
  value = record { type = vt; is_null = false; int = z; real = d; bytes = b }

  -- The bytes of a value, by the class of its type.
  write_int :
      is_float_class vt ≡ false
      → is_var_class vt ≡ false
      → write_value [] value ++ rest ≡ val_i64 ∷ (Writer.i64 [] z ++ rest)
  unfolding write_value Writer.u8
  write_int f g = rw (f, g, i64-append)

  write_real :
      is_float_class vt ≡ true → write_value [] value ++ rest ≡ val_f64 ∷ (Writer.f64 [] d ++ rest)
  unfolding write_value Writer.u8
  write_real f = rw (f, f64-append)

  write_var :
      is_float_class vt ≡ false
      → is_var_class vt ≡ true
      → write_value [] value ++ rest ≡ val_var ∷ (Writer.var [] b ++ rest)
  unfolding write_value Writer.u8
  write_var f g = rw (f, g, var-append)

  read_int :
      is_int_class t ≡ true
      → InSigned (2 ^ 63) z
      → read_value_typed (open_reader (val_i64 ∷ (Writer.i64 [] z ++ rest))) t
        ≡ (int_of t z, open_reader rest)
  unfolding read_value_typed read_int_as
  read_int c h = rw (u8-cons, c, i64-i64 z rest h)

  read_float :
      is_int_class t ≡ false
      → is_float_class t ≡ true
      → d < 2 ^ 64
      → read_value_typed (open_reader (val_f64 ∷ (Writer.f64 [] d ++ rest))) t
        ≡ (real_value d, open_reader rest)
  unfolding read_value_typed read_real
  read_float c f h = rw (u8-cons, c, f, f64-f64 d rest h)

module _ (b rest : Bytes) (h : length b < 2 ^ 32) where
  read_utf8 :
      read_value_typed (open_reader (val_var ∷ (Writer.var [] b ++ rest))) k_utf8_var
      ≡ (text_value b, open_reader rest)
  unfolding read_value_typed read_var_as
  read_utf8 = rw (u8-cons, var-var b rest h)

  read_bytes :
      read_value_typed (open_reader (val_var ∷ (Writer.var [] b ++ rest))) k_bytes_var
      ≡ (bytes_value b, open_reader rest)
  unfolding read_value_typed read_var_as
  read_bytes = rw (u8-cons, var-var b rest h)

read_null :
    (t : DataType) (v : ColumnValue) (rest : Bytes)
    → v.is_null ≡ true
    → read_value_typed (open_reader (write_value [] v ++ rest)) t ≡ (null_value, open_reader rest)
unfolding read_value_typed write_value Writer.u8
read_null t v rest n = simp (n, u8-cons)

null_column : (t : DataType) (v : ColumnValue) → v.is_null ≡ true → as_column t v ≡ null_value
null_column t v n = simp n

read_value_core :
    (t vt : DataType) (z : ℤ) (d : ℕ) (b rest : Bytes)
    → FitsColumn t (value t vt z d b rest)
    → read_value_typed (open_reader (write_value [] (value t vt z d b rest) ++ rest)) t
      ≡ (as_column t (value t vt z d b rest), open_reader rest)
read_value_core k_float32 vt z d b rest h =
    rw (write_real k_float32 vt z d b rest h.float_class)
      (read_float k_float32 vt z d b rest refl refl h.real_range)
read_value_core k_float64 vt z d b rest h =
    rw (write_real k_float64 vt z d b rest h.float_class)
      (read_float k_float64 vt z d b rest refl refl h.real_range)
read_value_core k_utf8_var vt z d b rest h =
    rw (write_var k_utf8_var vt z d b rest h.float_class h.var_class)
      (read_utf8 b rest h.bytes_range)
read_value_core k_bytes_var vt z d b rest h =
    rw (write_var k_bytes_var vt z d b rest h.float_class h.var_class)
      (read_bytes b rest h.bytes_range)
read_value_core t vt z d b rest h =
    rw (write_int t vt z d b rest h.float_class h.var_class)
      (read_int t vt z d b rest refl h.int_range)

read_value_by_null :
    (t vt : DataType) (n : Bool) (z : ℤ) (d : ℕ) (b rest : Bytes)
    → let v : ColumnValue = record { type = vt; is_null = n; int = z; real = d; bytes = b } in
      FitsColumn t v
      → read_value_typed (open_reader (write_value [] v ++ rest)) t
        ≡ (as_column t v, open_reader rest)
read_value_by_null t vt true z d b rest h = read_null t _ rest refl
read_value_by_null t vt false z d b rest h = read_value_core t vt z d b rest h

-- A null, or a value that fits the column, is read back as the same payload under the column's type (a null as
-- the null value), and the reader stands behind it, not poisoned.
pub read_value-write_value :
    (t : DataType) (v : ColumnValue) (rest : Bytes)
    → (v.is_null ≡ true) ⊎ FitsColumn t v
    → read_value_typed (open_reader (write_value [] v ++ rest)) t
      ≡ (as_column t v, open_reader rest)
read_value-write_value t v rest (inl missing) =
    read_null t v rest missing ∙ ap (λ w. (w, open_reader rest)) (sym (null_column t v missing))
read_value-write_value t v rest (inr h) =
    read_value_by_null t v.type v.is_null v.int v.real v.bytes rest h

write_row-append :
    (buf : Bytes) (row : List ColumnValue) → write_row buf row ≡ buf ++ write_row [] row
unfolding write_row
write_row-append buf [] = sym (append-nil buf)
write_row-append buf (v ∷ row) =
    write_row-append (write_value buf v) row
    ∙ ap (λ l. l ++ write_row [] row) (write_value-append buf v)
    ∙ append_assoc buf _ _
    ∙ ap (λ l. buf ++ l) (sym (write_row-append (write_value [] v) row))

-- A row of nulls, in columns of every type, and of values that fit their columns is read back as the same
-- values under the columns' types, the nulls as the null value, and the reader stands behind the row, not poisoned.
pub read_row-write_row :
    (ts : List DataType) (row : List ColumnValue) (rest : Bytes)
    → RowFits ts row
    → read_row (open_reader (write_row [] row ++ rest)) ts ≡ (as_columns ts row, open_reader rest)
unfolding read_row write_row
read_row-write_row [] [] rest h = refl
read_row-write_row [] (v ∷ row) rest h = absurd h
read_row-write_row (t ∷ ts) [] rest h = absurd h
read_row-write_row (t ∷ ts) (v ∷ row) rest h =
    rw (write_row-append (write_value [] v) row, append_assoc)
      (rw (read_value-write_value t v (write_row [] row ++ rest) h.0)
        (rw (read_row-write_row ts row rest h.1)))
