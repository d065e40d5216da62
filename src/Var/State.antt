-- ===== src/Var/State.antt =====
-- The state of a variable: `dpiVar` and `dpiVarBuffer` of odpi/src/dpiImpl.h. An array is the empty
-- list where the pointer to it is NULL.
use godror.Base.{ℕ, Bool, Option, true, List, []}
use godror.Version.{VersionInfo}
use godror.OracleTypes.Table.{OracleType, CType, Size, variable_size, bytes, size_of}
use godror.Var.Chunks.{DynamicBytes}

-- the fields of dpiEnv that variables use, and the sizes of the C types on the platform
pub record Env : Type 0 where
  pub max_bytes_per_character : ℕ
  pub nmax_bytes_per_character : ℕ
  pub is_utf16 : Bool
  pub version_info : VersionInfo
  pub c_size : CType → ℕ

-- What the value of a dpiData is: where `value.asBytes.ptr` points, from some byte on in `data` or
-- `tempBuffer` or to the first chunk of its dynamic bytes, or a handle.
pub data Place : Type 0 where
  nowhere first_chunk : Place
  in_data in_temp : ℕ → Place
  handle : ℕ → Place

-- dpiData, with the length of bytes
pub record Data : Type 0 where
  pub is_null : Bool
  pub place : Place
  pub length : ℕ

-- dpiVarBuffer; `data` is its bytes, `indicator` tells where DPI_OCI_IND_NULL stands, and a reference is
-- the number of a handle
pub record Buffer : Type 0 where
  pub max_array_size : ℕ
  pub actual_array_size : ℕ
  pub indicator : List Bool
  pub return_code : List ℕ
  pub actual_length16 : List ℕ
  pub actual_length32 : List ℕ
  pub references : List (Option ℕ)
  pub dynamic_bytes : List DynamicBytes
  pub temp_buffer : List ℕ
  pub external_data : List Data
  pub memory : List ℕ

-- dpiVar
pub record Var : Type 0 where
  pub type : OracleType
  pub native_type_num : ℕ
  pub requires_pre_fetch : Bool
  pub is_array : Bool
  pub size_in_bytes : ℕ
  pub is_dynamic : Bool
  pub buffer : Buffer

-- `type->sizeInBytes`
abbrev pub type_size : Env → Size → ℕ
type_size env variable_size = 0
type_size env (bytes n) = n
type_size env (size_of c) = env.c_size c

-- the buffer of zeroes
abbrev pub empty_buffer : ℕ → ℕ → Buffer
empty_buffer max_size actual_size = record {
  max_array_size = max_size;
  actual_array_size = actual_size;
  indicator = [];
  return_code = [];
  actual_length16 = [];
  actual_length32 = [];
  references = [];
  dynamic_bytes = [];
  temp_buffer = [];
  external_data = [];
  memory = [];
}

abbrev pub null_data : Data
null_data = record { is_null = true; place = nowhere; length = 0 }
