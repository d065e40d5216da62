-- ===== src/OracleTypes/Describe.antt =====
-- The description of a column up to its default native type: the first half of
-- `dpiOracleType__populateTypeInfo` of odpi/src/dpiOracleType.c.
use godror.Base.{
  ℕ, ◌+◌, ◌-◌, ◌%◌, Bool, ◌&&◌, ◌||◌, not, Option, none, some, [], ◌∷◌, ◌==◌, ltb, leb,
  if◌then◌else◌, ℤ, pos, pos_part, neg_part, Result, ok, err, ◌>>=◌, oci,
}
use godror.OracleTypes.Numbers.{
  sqlt_chr, sqlt_afc, sqlt_vcs, sqlt_clob, charset_implicit, type_number, native_double,
  native_float, native_int64, native_timestamp, native_interval_ym, native_interval_ds,
}
use godror.OracleTypes.Table.{get_from_num}
use godror.OracleTypes.Convert.{is_one_of, convert_from_oracle}

-- The attributes of the descriptor that are asked for, `none` where OCI gives an error: the type
-- code, the charset form, the scale, which is an `int8_t`, and the precision, which is an `int16_t`
-- that is taken not to be negative.
pub record Descriptor : Type 0 where
  pub data_type : Option ℕ
  pub charset_form : Option ℕ
  pub scale : Option ℤ
  pub precision : Option ℕ

-- the fields of a `dpiDataTypeInfo` that are filled first
pub record TypeInfo : Type 0 where
  pub oci_type_code : ℕ
  pub oracle_type_num : ℕ
  pub default_native_type_num : ℕ
  pub precision : ℕ
  pub fs_precision : ℕ
  pub scale : ℤ

-- `dpiOci__attrGet`
abbrev pub attr_get {ℓ} : {A : Type ℓ} → Option A → Result A
attr_get none = err oci
attr_get (some a) = ok a

-- `charsetForm`
unfoldable pub charset_form_of : ℕ → Descriptor → Result ℕ
charset_form_of code d =
    if not (is_one_of code (sqlt_chr ∷ sqlt_afc ∷ sqlt_vcs ∷ sqlt_clob ∷ []))
    then ok charset_implicit
    else attr_get d.charset_form

-- `info->defaultNativeTypeNum` as the table has it
unfoldable pub native_type_of : ℕ → Result ℕ
native_type_of num =
    if num == 0 then ok 0 else get_from_num num >>= λ t. ok (t.default_native_type_num)

-- the `switch` on the native type: whether precision and scale are asked for
unfoldable pub has_scale : ℕ → Bool
has_scale native = is_one_of native (
    native_double ∷ native_float ∷ native_int64 ∷ native_timestamp ∷ native_interval_ym
    ∷ native_interval_ds ∷ [])

-- the native types whose scale is a precision of fractional seconds
unfoldable pub has_fs_precision : ℕ → Bool
has_fs_precision native = native == native_timestamp || native == native_interval_ds

-- `(uint8_t) info->scale`
abbrev pub to_uint8 : ℤ → ℕ
to_uint8 n = (pos_part n + (256 - neg_part n)) % 256

-- DPI_MAX_INT64_PRECISION
abbrev pub max_int64_precision : ℕ
max_int64_precision = 18

-- the scale is 0
abbrev pub is_zero : ℤ → Bool
is_zero n = pos_part n == 0 && neg_part n == 0

-- the change of the default type to integer
unfoldable pub fits_int64 : ℕ → ℤ → ℕ → Bool
fits_int64 num scale precision =
    num == type_number && is_zero scale && ltb 0 precision && leb precision max_int64_precision

abbrev pub type_info : ℕ → ℕ → ℕ → ℕ → ℕ → ℤ → TypeInfo
type_info code num native precision fs_precision scale = record {
  oci_type_code = code;
  oracle_type_num = num;
  default_native_type_num = if fits_int64 num scale precision then native_int64 else native;
  precision = precision;
  fs_precision = fs_precision;
  scale = scale;
}

-- `dpiOracleType__populateTypeInfo` up to the default native type; `info` is the `fsPrecision` that
-- the structure holds before, which is kept for the native types that have a scale of their own
unfoldable pub populate_type_info : Descriptor → ℕ → Result TypeInfo
populate_type_info d info = do
  code ← attr_get d.data_type
  form ← charset_form_of code d
  let num = convert_from_oracle code form
  native ← native_type_of num
  if not (has_scale native) then ok (type_info code num native 0 0 (pos 0)) else do
    scale ← attr_get d.scale
    precision ← attr_get d.precision
    if has_fs_precision native
        then ok (type_info code num native precision (to_uint8 scale) (pos 0))
        else ok (type_info code num native precision info scale)
