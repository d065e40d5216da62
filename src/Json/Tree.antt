-- ===== src/Json/Tree.antt =====
-- The data of odpi/src/dpiJson.c: `dpiJsonNode`, `dpiJsonArray`, `dpiJsonObject` and the structures of
-- dates and intervals of odpi/include/dpi.h, `dpiJznDomScalar` with `dpiJsonOciVal` of
-- odpi/src/dpiImpl.h. A `float` or a `double` is the number that its bits make.
use godror.Base.{ℕ, ℤ, Bool, List}

-- dpiTimestamp, and `asJsonDateTime`
pub record Timestamp : Type 0 where
  pub year : ℤ
  pub month : ℕ
  pub day : ℕ
  pub hour : ℕ
  pub minute : ℕ
  pub second : ℕ
  pub fsecond : ℕ
  pub tz_hour_offset : ℤ
  pub tz_minute_offset : ℤ

-- dpiIntervalDS, and `asJsonDayInterval`
pub record IntervalDs : Type 0 where
  pub days : ℤ
  pub hours : ℤ
  pub minutes : ℤ
  pub seconds : ℤ
  pub fseconds : ℤ

-- dpiIntervalYM, and `asJsonYearInterval`
pub record IntervalYm : Type 0 where
  pub years : ℤ
  pub months : ℤ

-- A `dpiJsonNode` is the number of its Oracle type and its value; the number of the native type tells
-- which member of `dpiDataBuffer` holds the value, and both make one constructor. Bytes are those that
-- the pointer leads to. `other` is a native type that JSON has no use for.
mutual
  pub data Node : Type 0 where
    node : ℕ → Value → Node

  pub data Value : Type 0 where
    null : Value
    boolean : Bool → Value
    bytes : List ℕ → Value
    float double : ℕ → Value
    int64 : ℤ → Value
    uint64 : ℕ → Value
    timestamp : Timestamp → Value
    interval_ds : IntervalDs → Value
    interval_ym : IntervalYm → Value
    json_array : Elements → Value
    json_object : Fields → Value
    other : ℕ → Value

  pub data Elements : Type 0 where
    nil : Elements
    cons : Node → Elements → Elements

  -- the name of a field with its node
  pub data Fields : Type 0 where
    end : Fields
    field : List ℕ → Node → Fields → Fields

-- What `fnGetScalarInfoOci` tells of a scalar, by its `valueType`: the bytes of DPI_JZNVAL_STRING,
-- BINARY, ID and VECTOR, the numbers of ORA_NUMBER, and those of ORA_SIGNED_INT, ORA_SIGNED_LONG and
-- ORA_DECIMAL128, which have no byte for the length.
pub data Scalar : Type 0 where
  string_val binary_val id_val vector_val : List ℕ → Scalar
  float_val double_val : ℕ → Scalar
  number_val short_number_val : List ℕ → Scalar
  date_val timestamp_val timestamptz_val : Timestamp → Scalar
  daysecond_val : IntervalDs → Scalar
  yearmonth_val : IntervalYm → Scalar
  false_val true_val null_val : Scalar
  other_val : ℕ → Scalar
