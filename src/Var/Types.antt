-- ===== src/Var/Types.antt =====
-- The types of a variable: `dpiVar__validateTypes`, and the choices that `dpiVar__getValue`,
-- `dpiVar__setValue` and `dpiVar__copyData` of odpi/src/dpiVar.c make by type. What is chosen is named
-- by the C function that is called, or by the member of the buffers that is copied.
use godror.Base.{ℕ, Bool, not, [], ◌∷◌, ◌==◌, if◌then◌else◌, Result, ok, err, unhandled_conversion}
use godror.OracleTypes.Numbers.{
  type_varchar, type_nvarchar, type_char, type_nchar, type_rowid, type_raw, type_native_double,
  type_native_int, type_number, type_date, type_timestamp, type_timestamp_tz, type_timestamp_ltz,
  type_clob, type_nclob, type_blob, type_bfile, type_long_varchar, type_long_raw, type_native_uint,
  type_long_nvarchar, type_xmltype, native_int64, native_uint64, native_float, native_double,
  native_bytes, native_timestamp, native_interval_ds, native_interval_ym, native_lob, native_object,
  native_stmt, native_boolean, native_rowid, native_json, native_vector,
}
use godror.OracleTypes.Convert.{is_one_of}

-- `dpiVar__validateTypes`
unfoldable pub validate_types : ℕ → ℕ → Result (Unit {0})
validate_types num native =
    if is_one_of num (type_date ∷ type_timestamp ∷ type_timestamp_tz ∷ type_timestamp_ltz ∷ [])
    then (if native == native_double then ok tt else err unhandled_conversion)
    else if num == type_number
    then (if is_one_of native (native_int64 ∷ native_uint64 ∷ native_bytes ∷ [])
        then ok tt
        else err unhandled_conversion)
    else err unhandled_conversion

-- How a value is passed between the buffers and a `dpiData`: by one of the functions
-- `dpiDataBuffer__fromOracle...`, `dpiDataBuffer__toOracle...` named for what they convert, or as it is.
-- `bytes_in_place` is the bytes of the buffer with their length, `bytes_of_lob` those read from a LOB;
-- `nothing` is a value that is not touched.
pub data Transfer : Type 0 where
  int64_as_is uint64_as_is float_as_is double_as_is boolean_as_is : Transfer
  number_as_integer number_as_unsigned_integer number_as_double number_as_text : Transfer
  date_as_double date_as_timestamp interval_ds_converted interval_ym_converted : Transfer
  timestamp_as_double : Transfer
  timestamp_converted : Bool → Transfer
  bytes_in_place bytes_of_lob object_reference stmt_reference nothing : Transfer

-- the labels of `switch` statements in both functions
abbrev pub is_timestamp : ℕ → Bool
is_timestamp num = is_one_of num (type_timestamp ∷ type_timestamp_tz ∷ type_timestamp_ltz ∷ [])

abbrev pub is_integer_native : ℕ → Bool
is_integer_native native = is_one_of native (native_int64 ∷ native_uint64 ∷ [])

abbrev pub integer_transfer : ℕ → ℕ → Transfer
integer_transfer native num =
    if num == type_native_int
    then int64_as_is
    else if num == type_native_uint
    then uint64_as_is
    else if num == type_number
    then (if native == native_int64 then number_as_integer else number_as_unsigned_integer)
    else nothing

abbrev pub double_transfer : ℕ → Transfer
double_transfer num =
    if num == type_number
    then number_as_double
    else if num == type_native_double
    then double_as_is
    else if num == type_date
    then date_as_double
    else if is_timestamp num
    then timestamp_as_double
    else nothing

abbrev pub get_bytes_transfer : ℕ → Transfer
get_bytes_transfer num =
    if is_one_of num (
      type_varchar ∷ type_nvarchar ∷ type_char ∷ type_nchar ∷ type_rowid ∷ type_raw
      ∷ type_long_varchar ∷ type_long_nvarchar ∷ type_long_raw ∷ type_xmltype ∷ [])
    then bytes_in_place
    else if is_one_of num (type_clob ∷ type_nclob ∷ type_blob ∷ type_bfile ∷ [])
    then bytes_of_lob
    else if num == type_number
    then number_as_text
    else nothing

-- the `switch` of `dpiVar__getValue`
unfoldable pub get_transfer : ℕ → ℕ → Transfer
get_transfer native num =
    if is_integer_native native
    then integer_transfer native num
    else if native == native_double
    then double_transfer num
    else if native == native_bytes
    then get_bytes_transfer num
    else if native == native_float
    then float_as_is
    else if native == native_timestamp
    then (if num == type_date
        then date_as_timestamp
        else timestamp_converted (not (num == type_timestamp)))
    else if native == native_interval_ds
    then interval_ds_converted
    else if native == native_interval_ym
    then interval_ym_converted
    else if native == native_object
    then object_reference
    else if native == native_stmt
    then stmt_reference
    else if native == native_boolean
    then boolean_as_is
    else nothing

abbrev pub set_timestamp_transfer : ℕ → Transfer
set_timestamp_transfer num =
    if num == type_date
    then date_as_timestamp
    else if num == type_timestamp
    then timestamp_converted Bool.false
    else if is_one_of num (type_timestamp_tz ∷ type_timestamp_ltz ∷ [])
    then timestamp_converted Bool.true
    else nothing

-- the `switch` of `dpiVar__setValue`
unfoldable pub set_transfer : ℕ → ℕ → Transfer
set_transfer native num =
    if is_integer_native native
    then integer_transfer native num
    else if native == native_float
    then float_as_is
    else if native == native_double
    then double_transfer num
    else if native == native_bytes
    then (if num == type_number then number_as_text else bytes_in_place)
    else if native == native_timestamp
    then set_timestamp_transfer num
    else if native == native_interval_ds
    then interval_ds_converted
    else if native == native_interval_ym
    then interval_ym_converted
    else if native == native_boolean
    then boolean_as_is
    else if native == native_stmt
    then stmt_reference
    else nothing

-- which functions the values of a native type are stored by, in `dpiVar__copyData`
pub data Copy : Type 0 where
  from_bytes from_json from_lob from_object from_stmt from_rowid from_vector whole_data : Copy

unfoldable pub copy_by : ℕ → Copy
copy_by native =
    if native == native_bytes
    then from_bytes
    else if native == native_json
    then from_json
    else if native == native_lob
    then from_lob
    else if native == native_object
    then from_object
    else if native == native_stmt
    then from_stmt
    else if native == native_rowid
    then from_rowid
    else if native == native_vector
    then from_vector
    else whole_data
