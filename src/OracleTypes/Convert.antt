-- ===== src/OracleTypes/Convert.antt =====
-- The type of an OCI type code: `dpiOracleType__convertFromOracle` of odpi/src/dpiOracleType.c.
use godror.Base.{ℕ, Bool, false, ◌||◌, List, [], ◌∷◌, ◌==◌, if◌then◌else◌}
use godror.OracleTypes.Numbers.{
  charset_nchar, sqlt_afc, sqlt_bdouble, sqlt_bfile, sqlt_bfloat, sqlt_bin, sqlt_blob, sqlt_bol,
  sqlt_chr, sqlt_clob, sqlt_dat, sqlt_date, sqlt_flt, sqlt_ibdouble, sqlt_ibfloat, sqlt_int,
  sqlt_interval_ds, sqlt_interval_ym, sqlt_json, sqlt_lbi, sqlt_lng, sqlt_lvb, sqlt_nco, sqlt_nty,
  sqlt_num, sqlt_odt, sqlt_pdn, sqlt_rdd, sqlt_rec, sqlt_rset, sqlt_timestamp, sqlt_timestamp_ltz,
  sqlt_timestamp_tz, sqlt_vcs, sqlt_vec, sqlt_vnu, type_bfile, type_blob, type_boolean, type_char,
  type_clob, type_date, type_interval_ds, type_interval_ym, type_json, type_long_raw,
  type_long_varchar, type_native_double, type_native_float, type_native_int, type_nchar, type_nclob,
  type_number, type_nvarchar, type_object, type_raw, type_rowid, type_stmt, type_timestamp,
  type_timestamp_ltz, type_timestamp_tz, type_varchar, type_vector, typecode_binary_integer,
  typecode_long, typecode_long_raw, typecode_pls_integer, typecode_rowid, typecode_smallint,
}

-- the labels of a case
abbrev pub is_one_of : ℕ → List ℕ → Bool
is_one_of code [] = false
is_one_of code (label ∷ labels) = code == label || is_one_of code labels

-- `dpiOracleType__convertFromOracle`; 0 for a code that is not supported
unfoldable pub convert_from_oracle : ℕ → ℕ → ℕ
convert_from_oracle code form =
    if is_one_of code (sqlt_chr ∷ sqlt_vcs ∷ [])
    then (if form == charset_nchar then type_nvarchar else type_varchar)
    else if is_one_of code (
        sqlt_int ∷ sqlt_flt ∷ sqlt_num ∷ sqlt_pdn ∷ sqlt_vnu ∷ sqlt_bfloat ∷ sqlt_bdouble
        ∷ typecode_smallint ∷ [])
    then type_number
    else if is_one_of code (sqlt_dat ∷ sqlt_odt ∷ [])
    then type_date
    else if is_one_of code (sqlt_bin ∷ sqlt_lvb ∷ [])
    then type_raw
    else if is_one_of code (sqlt_afc ∷ [])
    then (if form == charset_nchar then type_nchar else type_char)
    else if is_one_of code (typecode_binary_integer ∷ typecode_pls_integer ∷ [])
    then type_native_int
    else if is_one_of code (sqlt_ibfloat ∷ [])
    then type_native_float
    else if is_one_of code (sqlt_ibdouble ∷ [])
    then type_native_double
    else if is_one_of code (sqlt_date ∷ sqlt_timestamp ∷ [])
    then type_timestamp
    else if is_one_of code (sqlt_timestamp_tz ∷ [])
    then type_timestamp_tz
    else if is_one_of code (sqlt_timestamp_ltz ∷ [])
    then type_timestamp_ltz
    else if is_one_of code (sqlt_nty ∷ sqlt_rec ∷ sqlt_nco ∷ [])
    then type_object
    else if is_one_of code (sqlt_bol ∷ [])
    then type_boolean
    else if is_one_of code (sqlt_clob ∷ [])
    then (if form == charset_nchar then type_nclob else type_clob)
    else if is_one_of code (sqlt_blob ∷ [])
    then type_blob
    else if is_one_of code (sqlt_bfile ∷ [])
    then type_bfile
    else if is_one_of code (sqlt_rdd ∷ typecode_rowid ∷ [])
    then type_rowid
    else if is_one_of code (sqlt_rset ∷ [])
    then type_stmt
    else if is_one_of code (sqlt_interval_ds ∷ [])
    then type_interval_ds
    else if is_one_of code (sqlt_interval_ym ∷ [])
    then type_interval_ym
    else if is_one_of code (sqlt_lng ∷ typecode_long ∷ [])
    then type_long_varchar
    else if is_one_of code (sqlt_lbi ∷ typecode_long_raw ∷ [])
    then type_long_raw
    else if is_one_of code (sqlt_json ∷ [])
    then type_json
    else if is_one_of code (sqlt_vec ∷ [])
    then type_vector
    else 0
