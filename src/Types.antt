-- ===== src/Types.antt =====
-- The value types of include/rtdb: error codes (err.hpp), column types (table_def.hpp) and column
-- values (column_value.hpp). Texts are lists of bytes, a double is its 64-bit IEEE pattern.
use rtdb_common.Common.{
  ◌≡◌, refl, ◌⊎◌, inl, inr, ℕ, List, [], Bool, true, false, ℤ, pos, if◌then◌else◌,
}

abbrev pub Bytes : Type 0
Bytes = List ℕ

-- `enum class Err : int16_t`
pub data Err : Type 0 where
  k_ok k_invalid_argument k_not_found k_already_exists k_io_error k_unsupported : Err
  k_out_of_memory k_timeout : Err
  k_bad_super_block k_version_mismatch k_incompatible_layout k_read_only_handle k_corruption : Err
  k_poisoned k_table_exists k_table_not_found k_schema_mismatch k_batch_aborted : Err
  k_limit_exceeded k_sql_syntax : Err
  k_not_implemented k_network_error k_cursor_overflow k_protocol_error k_too_many_sessions : Err
  k_auth_failed k_token_expired k_permission_denied k_internal : Err

-- The numbers of the enumerators.
unfoldable pub err_code : Err → ℕ
err_code k_ok = 0
err_code k_invalid_argument = 101
err_code k_not_found = 102
err_code k_already_exists = 103
err_code k_io_error = 104
err_code k_unsupported = 105
err_code k_out_of_memory = 106
err_code k_timeout = 107
err_code k_bad_super_block = 201
err_code k_version_mismatch = 202
err_code k_incompatible_layout = 203
err_code k_read_only_handle = 204
err_code k_corruption = 205
err_code k_poisoned = 301
err_code k_table_exists = 302
err_code k_table_not_found = 303
err_code k_schema_mismatch = 304
err_code k_batch_aborted = 305
err_code k_limit_exceeded = 306
err_code k_sql_syntax = 307
err_code k_not_implemented = 400
err_code k_network_error = 401
err_code k_cursor_overflow = 402
err_code k_protocol_error = 403
err_code k_too_many_sessions = 404
err_code k_auth_failed = 501
err_code k_token_expired = 502
err_code k_permission_denied = 503
err_code k_internal = 999

-- `IsOk`
abbrev pub is_ok : Err → Bool
is_ok k_ok = true
is_ok _ = false

-- `Result<T>`: a value or an error code.
pub data Result {ℓ} (A : Type ℓ) : Type ℓ where
  ok : A → Result A
  err : Err → Result A

-- A step that needs the value of an earlier one, a step behind one without a value, and
-- `if (!test) return Fail(e);`.
abbrev pub ◌>>=◌ {ℓ₁ ℓ₂} :
    {Found : Type ℓ₁} {Next : Type ℓ₂} → Result Found → (Found → Result Next) → Result Next
done >>= next = elim done [ ok value ↦ next value | err code ↦ err code ]

abbrev pub ◌>>◌ {ℓ₂} : {Next : Type ℓ₂} → Result (Unit {0}) → Result Next → Result Next
done >> rest = done >>= λ nothing. rest

infixl 5 ◌>>=◌ ◌>>◌
abbrev pub guard : Bool → Err → Result (Unit {0})
guard test code = if test then ok tt else err code

-- `enum class DataType : uint8_t`
pub data DataType : Type 0 where
  k_int8 k_int16 k_int32 k_int64 k_float32 k_float64 k_bool k_utf8_var k_bytes_var : DataType
  k_unix_ts_ns : DataType

unfoldable pub type_code : DataType → ℕ
type_code k_int8 = 1
type_code k_int16 = 2
type_code k_int32 = 3
type_code k_int64 = 4
type_code k_float32 = 5
type_code k_float64 = 6
type_code k_bool = 7
type_code k_utf8_var = 8
type_code k_bytes_var = 9
type_code k_unix_ts_ns = 10

-- `ColumnValue`: the members stand side by side, the type says which one counts.
pub record ColumnValue : Type 0 where
  pub type : DataType
  pub is_null : Bool
  pub int : ℤ
  pub real : ℕ
  pub bytes : Bytes

abbrev pub null_value : ColumnValue
null_value = record { type = k_int64; is_null = true; int = pos 0; real = 0; bytes = [] }

abbrev pub int_of : DataType → ℤ → ColumnValue
int_of t v = record { type = t; is_null = false; int = v; real = 0; bytes = [] }

abbrev pub int_value : ℤ → ColumnValue
int_value v = int_of k_int64 v

abbrev pub real_value : ℕ → ColumnValue
real_value d = record { type = k_float64; is_null = false; int = pos 0; real = d; bytes = [] }

abbrev pub bool_value : Bool → ColumnValue
bool_value b = int_of k_bool (if b then pos 1 else pos 0)

abbrev pub text_value : Bytes → ColumnValue
text_value s = record { type = k_utf8_var; is_null = false; int = pos 0; real = 0; bytes = s }

abbrev pub bytes_value : Bytes → ColumnValue
bytes_value s = record { type = k_bytes_var; is_null = false; int = pos 0; real = 0; bytes = s }

-- `IsIntClass`, `IsFloatClass`, `IsVarClass`
abbrev pub is_int_class : DataType → Bool
is_int_class k_int8 = true
is_int_class k_int16 = true
is_int_class k_int32 = true
is_int_class k_int64 = true
is_int_class k_bool = true
is_int_class k_unix_ts_ns = true
is_int_class _ = false

abbrev pub is_float_class : DataType → Bool
is_float_class k_float32 = true
is_float_class k_float64 = true
is_float_class _ = false

abbrev pub is_var_class : DataType → Bool
is_var_class k_utf8_var = true
is_var_class k_bytes_var = true
is_var_class _ = false

-- Where a chain succeeds, so does its first step.
pub >>=-eq-ok {ℓ₁ ℓ₂} :
    {Found : Type ℓ₁} {Next : Type ℓ₂} (first : Result Found) (next : Found → Result Next)
    {result : Next}
    → (first >>= next) ≡ ok result
    → (found : Found) × (first ≡ ok found) × (next found ≡ ok result)
>>=-eq-ok (err code) next whole = cc
>>=-eq-ok (ok found) next whole = (found, refl, whole)

pub Result-cases {ℓ} :
    {A : Type ℓ} (r : Result A) → ((a : A) × (r ≡ ok a)) ⊎ ((e : Err) × (r ≡ err e))
Result-cases (ok a) = inl (a, refl)
Result-cases (err e) = inr (e, refl)
