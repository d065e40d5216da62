-- ===== src/OracleTypes/Table.antt =====
-- The table of the Oracle types, `dpiAllOracleTypes` of odpi/src/dpiOracleType.c, and the lookup in it.
use godror.Base.{
  ℕ, ◌+◌, ◌-◌, Bool, true, false, ◌&&◌, List, [], ◌∷◌, ◌++◌, ltb, if◌then◌else◌, get_or, Result, ok,
  err, invalid_oracle_type,
}
use godror.Number.Size.{oci_number_size}
use godror.OracleTypes.Numbers.{
  type_none, type_varchar, type_nvarchar, type_char, type_nchar, type_rowid, type_raw,
  type_native_float, type_native_double, type_native_int, type_number, type_date, type_timestamp,
  type_timestamp_tz, type_timestamp_ltz, type_interval_ds, type_interval_ym, type_clob, type_nclob,
  type_blob, type_bfile, type_stmt, type_boolean, type_object, type_long_varchar, type_long_raw,
  type_native_uint, type_json, type_json_object, type_json_array, type_urowid, type_long_nvarchar,
  type_xmltype, type_vector, type_max, native_int64, native_uint64, native_float, native_double,
  native_bytes, native_timestamp, native_interval_ds, native_interval_ym, native_lob, native_object,
  native_stmt, native_boolean, native_rowid, native_json, native_json_object, native_json_array,
  native_vector, sqlt_chr, charset_implicit, charset_nchar, sqlt_int, sqlt_vnu, sqlt_bfloat,
  sqlt_bdouble, sqlt_bin, sqlt_uin, sqlt_afc, sqlt_rdd, sqlt_nty, sqlt_clob, sqlt_blob, sqlt_bfile,
  sqlt_rset, sqlt_json, sqlt_vec, sqlt_odt, sqlt_timestamp, sqlt_timestamp_tz, sqlt_interval_ym,
  sqlt_interval_ds, sqlt_timestamp_ltz, sqlt_bol,
}

-- the C types whose sizes the table names
pub data CType : Type 0 where
  pointer float double int int64 uint64 oci_date json_object json_array : CType

-- `sizeInBytes`, 0 where the size of the values varies
pub data Size : Type 0 where
  variable_size : Size
  bytes : ℕ → Size
  size_of : CType → Size

-- dpiOracleType
pub record OracleType : Type 0 where
  pub oracle_type_num : ℕ
  pub default_native_type_num : ℕ
  pub oracle_type : ℕ
  pub charset_form : ℕ
  pub size_in_bytes : Size
  pub is_character_data : Bool
  pub can_be_in_array : Bool
  pub requires_pre_fetch : Bool

abbrev entry : ℕ → ℕ → ℕ → ℕ → Size → Bool → Bool → Bool → OracleType
entry num native code form size character in_array pre_fetch = record {
  oracle_type_num = num;
  default_native_type_num = native;
  oracle_type = code;
  charset_form = form;
  size_in_bytes = size;
  is_character_data = character;
  can_be_in_array = in_array;
  requires_pre_fetch = pre_fetch;
}

-- DPI_MAX_BASIC_BUFFER_SIZE
abbrev pub max_basic_buffer_size : ℕ
max_basic_buffer_size = 32767

-- the entries from `type_varchar` on
abbrev pub scalar_types : List OracleType
scalar_types =
    entry type_varchar native_bytes sqlt_chr charset_implicit variable_size true true false
    ∷ entry type_nvarchar native_bytes sqlt_chr charset_nchar variable_size true true false
    ∷ entry type_char native_bytes sqlt_afc charset_implicit variable_size true true false
    ∷ entry type_nchar native_bytes sqlt_afc charset_nchar variable_size true true false
    ∷ entry type_rowid native_rowid sqlt_rdd charset_implicit (size_of pointer) true true true
    ∷ entry type_raw native_bytes sqlt_bin charset_implicit variable_size false true false
    ∷ entry type_native_float native_float sqlt_bfloat charset_implicit (size_of float) false true
        false
    ∷ entry type_native_double native_double sqlt_bdouble charset_implicit (size_of double) false
        true false
    ∷ entry type_native_int native_int64 sqlt_int charset_implicit (size_of int64) false true false
    ∷ entry type_number native_double sqlt_vnu charset_implicit (bytes oci_number_size) false true
        false
    ∷ entry type_date native_timestamp sqlt_odt charset_implicit (size_of oci_date) false true false
    ∷ entry type_timestamp native_timestamp sqlt_timestamp charset_implicit (size_of pointer) false
        true false
    ∷ entry type_timestamp_tz native_timestamp sqlt_timestamp_tz charset_implicit (size_of pointer)
        false true false
    ∷ entry type_timestamp_ltz native_timestamp sqlt_timestamp_ltz charset_implicit
        (size_of pointer) false true false
    ∷ []

-- the entries from `type_interval_ds` on
abbrev pub large_types : List OracleType
large_types =
    entry type_interval_ds native_interval_ds sqlt_interval_ds charset_implicit (size_of pointer)
      false true false
    ∷ entry type_interval_ym native_interval_ym sqlt_interval_ym charset_implicit (size_of pointer)
        false true false
    ∷ entry type_clob native_lob sqlt_clob charset_implicit (size_of pointer) true false true
    ∷ entry type_nclob native_lob sqlt_clob charset_nchar (size_of pointer) true false true
    ∷ entry type_blob native_lob sqlt_blob charset_implicit (size_of pointer) false false true
    ∷ entry type_bfile native_lob sqlt_bfile charset_implicit (size_of pointer) false false true
    ∷ entry type_stmt native_stmt sqlt_rset charset_implicit (size_of pointer) false false true
    ∷ entry type_boolean native_boolean sqlt_bol charset_implicit (size_of int) false false false
    ∷ entry type_object native_object sqlt_nty charset_implicit (size_of pointer) false false true
    ∷ entry type_long_varchar native_bytes sqlt_chr charset_implicit
        (bytes (max_basic_buffer_size + 1)) true false false
    ∷ entry type_long_raw native_bytes sqlt_bin charset_implicit (bytes (max_basic_buffer_size + 1))
        false false false
    ∷ entry type_native_uint native_uint64 sqlt_uin charset_implicit (size_of uint64) false true
        false
    ∷ []

-- the entries from `type_json` on
abbrev pub later_types : List OracleType
later_types =
    entry type_json native_json sqlt_json charset_implicit (size_of pointer) false false true
    ∷ entry type_json_object native_json_object 0 charset_implicit (size_of json_object) false false
        false
    ∷ entry type_json_array native_json_array 0 charset_implicit (size_of json_array) false false
        false
    ∷ entry type_urowid native_rowid sqlt_rdd charset_implicit (size_of pointer) true true true
    ∷ entry type_long_nvarchar native_bytes sqlt_chr charset_nchar
        (bytes (max_basic_buffer_size + 1)) true false false
    ∷ entry type_xmltype native_bytes sqlt_chr charset_implicit (bytes (max_basic_buffer_size + 1))
        true false false
    ∷ entry type_vector native_vector sqlt_vec charset_implicit (size_of pointer) false false true
    ∷ []

abbrev pub all_oracle_types : List OracleType
all_oracle_types = scalar_types ++ large_types ++ later_types

-- what the array holds beyond the entries that are written: it is static
abbrev pub zero_type : OracleType
zero_type = entry 0 0 0 0 variable_size false false false

-- `dpiOracleType__getFromNum`
unfoldable pub get_from_num : ℕ → Result OracleType
get_from_num num =
    if ltb type_none num && ltb num type_max
    then ok (get_or all_oracle_types (num - type_none - 1) zero_type)
    else err invalid_oracle_type
