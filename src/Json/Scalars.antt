-- ===== src/Json/Scalars.antt =====
-- `dpiJsonNode__fromOracleScalarToNative` of odpi/src/dpiJson.c. The conversions to a `double` are calls
-- of the Oracle client library and of C, and parameters.
use godror.Base.{
  ℕ, ◌/◌, ◌%◌, Bool, true, false, List, ◌∷◌, ◌==◌, if◌then◌else◌, length, Result, err, ltb,
  unhandled_json_scalar_type,
}
use godror.OracleTypes.Numbers.{
  type_none, type_varchar, type_raw, type_json_id, type_number, type_date, type_timestamp,
  type_interval_ds, type_interval_ym, type_boolean, type_vector,
}
use godror.Json.Tree.{Node, node, Value, Scalar, Timestamp, bytes}
use godror.Json.Buffers.{Encoding, Action, ◌>>=◌, give, lift, undefined, from_number_as_text}

-- `dpiDataBuffer__fromOracleNumberAsDouble`, `dpiDataBuffer__fromOracleDateAsDouble` and the addition
-- of an integer to a `double`
pub record Doubles : Type 0 where
  pub number_as_double : List ℕ → Result ℕ
  pub date_as_double : Timestamp → Result ℕ
  pub add_to_double : ℕ → ℕ → ℕ

-- What a reader is given: the memory, the encoding, the conversions, `env->context->useJsonId` and the options of
-- the caller.
pub record Reader : Type 0 where
  pub found : ℕ → Bool
  pub encoding : Encoding
  pub doubles : Doubles
  pub use_json_id : Bool
  pub options : ℕ

-- DPI_JSON_OPT_NUMBER_AS_STRING and DPI_JSON_OPT_DATE_AS_DOUBLE
abbrev pub number_as_string : ℕ → Bool
number_as_string options = options % 2 == 1

abbrev pub date_as_double : ℕ → Bool
date_as_double options = options / 2 % 2 == 1

-- an OCINumber
unfoldable pub read_number : Reader → List ℕ → Action Node
read_number r number =
    if number_as_string r.options
    then (do
      text ← from_number_as_text r.found r.encoding number
      give (node type_number (bytes text.bytes)))
    else (do d ← lift (r.doubles.number_as_double number); give (node type_number (Value.double d)))

-- a date or a timestamp, by the number of its type
unfoldable pub read_date : Reader → ℕ → Timestamp → Action Node
read_date r type t =
    if date_as_double r.options
    then (do
      d ← lift (r.doubles.date_as_double t)
      give (node type (Value.double (r.doubles.add_to_double d (t.fsecond / 1000000)))))
    else give (node type (Value.timestamp t))

-- the bytes of a number put behind their length in `asJsonNumber`, which has 22 bytes
unfoldable pub read_short_number : Reader → List ℕ → Action Node
unfolding read_number
read_short_number r number =
    if ltb 21 (length number) then undefined else read_number r ((length number % 256) ∷ number)

unfoldable pub read_scalar : Reader → Scalar → Action Node
unfolding read_number read_date read_short_number
read_scalar r (Scalar.string_val b) = give (node type_varchar (bytes b))
read_scalar r (Scalar.binary_val b) = give (node type_raw (bytes b))
read_scalar r (Scalar.id_val b) =
    give (node (if r.use_json_id then type_json_id else type_raw) (bytes b))
read_scalar r (Scalar.float_val f) = give (node type_number (Value.float f))
read_scalar r (Scalar.double_val d) = give (node type_number (Value.double d))
read_scalar r (Scalar.number_val number) = read_number r number
read_scalar r (Scalar.short_number_val number) = read_short_number r number
read_scalar r (Scalar.date_val t) = read_date r type_date t
read_scalar r (Scalar.timestamp_val t) = read_date r type_timestamp t
read_scalar r (Scalar.timestamptz_val t) = read_date r type_timestamp t
read_scalar r (Scalar.daysecond_val i) = give (node type_interval_ds (Value.interval_ds i))
read_scalar r (Scalar.yearmonth_val i) = give (node type_interval_ym (Value.interval_ym i))
read_scalar r Scalar.false_val = give (node type_boolean (Value.boolean false))
read_scalar r Scalar.true_val = give (node type_boolean (Value.boolean true))
read_scalar r Scalar.null_val = give (node type_none Value.null)
read_scalar r (Scalar.vector_val b) = give (node type_vector (bytes b))
read_scalar r (Scalar.other_val n) = lift (err unhandled_json_scalar_type)
