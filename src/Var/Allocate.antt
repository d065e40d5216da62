-- ===== src/Var/Allocate.antt =====
-- A variable is made: `dpiVar__allocate` and `dpiVar__initBuffer` of odpi/src/dpiVar.c.
use godror.Base.{
  ℕ, suc, ◌*◌, ◌%◌, Bool, true, false, ◌&&◌, ◌||◌, not, Option, none, some, List, [], ◌∷◌, ◌==◌,
  ltb, if◌then◌else◌, pos, negsuc, replicate, Result, ok, err, ◌>>=◌, ◌>>◌, fail_if, no_memory,
  not_supported, array_size_zero, array_size_too_big, no_object_type,
}
use godror.Version.{check_client_version}
use godror.Number.Parse.{number_as_text_chars}
use godror.OracleTypes.Numbers.{
  type_boolean, type_number, type_object, type_clob, type_nclob, type_blob, type_bfile, type_stmt,
  type_json, type_vector, native_bytes, charset_implicit,
}
use godror.OracleTypes.Convert.{is_one_of}
use godror.OracleTypes.Table.{OracleType, get_from_num, max_basic_buffer_size}
use godror.Gen.Types.{object_type}
use godror.Gen.Handle.{Base, check_handle, set_ref_count}
use godror.Var.Types.{validate_types}
use godror.Var.Chunks.{DynamicBytes}
use godror.Var.State.{
  Env, Place, in_data, in_temp, Data, Buffer, Var, type_size, empty_buffer, null_data,
}

-- the arguments of `dpiVar__allocate` but for the handles
pub record Request : Type 0 where
  pub oracle_type_num : ℕ
  pub native_type_num : ℕ
  pub max_array_size : ℕ
  pub size : ℕ
  pub size_is_bytes : Bool
  pub is_array : Bool

-- What the platform gives: whether memory is found, first for the values and then for the rest, what
-- `n` bytes or numbers of memory hold that is not cleared, and the result of the calls for descriptors:
-- for the types that `dpiVar__extendedPreFetch` prepares, the references that it leaves.
pub record Platform : Type 0 where
  pub var_found : Bool
  pub values_found : Bool
  pub rest_found : Bool
  pub fresh : ℕ → List ℕ
  pub descriptors : Result (List (Option ℕ))

-- `if (!array) allocate it`
abbrev pub unless_there {ℓ} : {A : Type ℓ} → List A → List A → List A
unless_there [] new = new
unless_there (a ∷ old) new = a ∷ old

abbrev pub is_there {ℓ} : {A : Type ℓ} → List A → Bool
is_there [] = false
is_there (a ∷ old) = true

-- the size of the text of a number, where values are passed as text
unfoldable pub temp_size : Env → Var → ℕ
temp_size env v =
    if v.type.oracle_type_num == type_number && v.native_type_num == native_bytes
    then (if env.is_utf16 then number_as_text_chars * 2 else number_as_text_chars)
    else 0

-- `asBytes.ptr` of the value at a position; the offsets are `uint32_t`
unfoldable pub place_of : Env → Var → Buffer → ℕ → Place → Place
place_of env v b i old =
    if is_there b.temp_buffer
    then in_temp (i * temp_size env v % 4294967296)
    else if not v.is_dynamic && not (is_there b.dynamic_bytes)
    then in_data (i * v.size_in_bytes % 4294967296)
    else old

-- the loop over the values that sets their pointers, from a position on
abbrev pub set_places : (ℕ → Place → Place) → ℕ → List Data → List Data
set_places place i [] = []
set_places place i (d ∷ ds) = record d { place = place i d.place } ∷ set_places place (suc i) ds

-- the largest `int`
abbrev pub int_max : ℕ
int_max = 2147483647

abbrev pub empty_dynamic_bytes : DynamicBytes
empty_dynamic_bytes = record { num_chunks = 0; allocated_chunks = 0; chunks = [] }

-- the memory for the values
unfoldable pub init_values : Platform → Var → Buffer → Result Buffer
init_values p v b =
    if v.is_dynamic
    then fail_if (not p.values_found) no_memory
      >> ok (record b { dynamic_bytes = replicate b.max_array_size empty_dynamic_bytes })
    else fail_if (ltb int_max (b.max_array_size * v.size_in_bytes)) array_size_too_big
      >> fail_if (not p.values_found) no_memory
      >> ok (record b { memory = p.fresh (b.max_array_size * v.size_in_bytes) })

-- The actual lengths; `is_main` tells that the buffer is that of the variable, and not one for the rows
-- that a statement returns.
unfoldable pub init_lengths : Env → Bool → Var → Buffer → Buffer
init_lengths env is_main v b =
    if not v.is_dynamic && not (is_there b.actual_length16) && not (is_there b.actual_length32)
    then (if ltb env.version_info.version_num 12 && is_main
        then record b { actual_length16 = replicate b.max_array_size (v.size_in_bytes % 65536) }
        else record b { actual_length32 = replicate b.max_array_size v.size_in_bytes })
    else b

-- the arrays beside the values
unfoldable pub init_arrays : Env → Platform → Bool → Var → Buffer → Buffer
init_arrays env p is_main v b₀ =
    let b =
      init_lengths env is_main v
        (record b₀ { indicator = unless_there b₀.indicator (replicate b₀.max_array_size true) }) in
    record b {
      return_code =
          if v.type.default_native_type_num == native_bytes && not v.is_dynamic
          then unless_there b.return_code (p.fresh b.max_array_size)
          else b.return_code;
      temp_buffer =
          if v.type.oracle_type_num == type_number && v.native_type_num == native_bytes
          then unless_there b.temp_buffer (p.fresh (b.max_array_size * temp_size env v))
          else b.temp_buffer;
      external_data = unless_there b.external_data (replicate b.max_array_size null_data);
    }

-- the pointers of the values and the references
unfoldable pub init_pointers : Env → Var → List (Option ℕ) → Buffer → Buffer
init_pointers env v made b = record b {
  external_data =
      if v.native_type_num == native_bytes
      then set_places (place_of env v b) 0 b.external_data
      else b.external_data;
  references = if v.type.requires_pre_fetch && not v.is_dynamic then made else b.references;
}

-- `dpiVar__initBuffer`; the last argument tells whether the variable has an object type
unfoldable pub init_buffer : Env → Platform → Bool → Bool → Var → Buffer → Result Buffer
init_buffer env p is_main has_object_type v b₀ = do
  b₁ ← init_values p v b₀
  fail_if (not p.rest_found) no_memory
  fail_if (v.type.oracle_type_num == type_object && not has_object_type) no_object_type
  made ← p.descriptors
  ok (init_pointers env v made (init_arrays env p is_main v b₁))

-- the checks of the arguments against the type, and that of the types against each other
unfoldable pub check_type : Env → Request → OracleType → Result (Unit {0})
check_type env r type = do
  fail_if (r.max_array_size == 0) array_size_zero
  fail_if (r.is_array && not type.can_be_in_array) not_supported
  if r.oracle_type_num == type_boolean then check_client_version env.version_info 12 1 else ok tt

unfoldable pub check_native : Request → OracleType → Result (Unit {0})
check_native r type =
    if r.native_type_num == type.default_native_type_num
    then ok tt
    else validate_types type.oracle_type_num r.native_type_num

-- the checks of the arguments
unfoldable pub check_request : Env → Request → Result OracleType
check_request env r = get_from_num r.oracle_type_num >>= λ type.
    check_type env r type >>= λ checked. check_native r type >> ok type

-- the size of a value
unfoldable pub value_size : Env → Request → OracleType → ℕ
value_size env r type =
    let size = if r.size == 0 then 1 else r.size in
    if not (type_size env type.size_in_bytes == 0)
    then type_size env type.size_in_bytes
    else if r.size_is_bytes || not type.is_character_data
    then size
    else if type.charset_form == charset_implicit
    then size * env.max_bytes_per_character % 4294967296
    else size * env.nmax_bytes_per_character % 4294967296

-- the variable before its buffers are made
unfoldable pub new_var : Env → Request → OracleType → Var
new_var env r type =
    let size = value_size env r type in
    let is_large = ltb max_basic_buffer_size size in
    record {
      type = type;
      native_type_num = r.native_type_num;
      requires_pre_fetch = is_large;
      is_array = r.is_array;
      size_in_bytes = if is_large then 0 else size;
      is_dynamic = is_large;
      buffer = empty_buffer r.max_array_size (if r.is_array then 0 else r.max_array_size);
    }

-- the result of a call, with the connection and the object type after it
pub record Made : Type 0 where
  pub result : Result Var
  pub conn : Base
  pub object_type : Option Base

-- `dpiVar__free` on a variable whose object type is set only where it is given
abbrev pub give_back : Option Base → Option Base
give_back none = none
give_back (some value) = some (set_ref_count value (negsuc 0))

abbrev pub hold : Option Base → Option Base
hold none = none
hold (some value) = some (set_ref_count value (pos 1))

abbrev pub has_value {ℓ} : {A : Type ℓ} → Option A → Bool
has_value none = false
has_value (some a) = true

-- `objType` is checked where it is given
abbrev pub check_object_type : Option Base → Result (Unit {0})
check_object_type none = ok tt
check_object_type (some value) = check_handle (some value) object_type

-- the positions that refer to a handle
abbrev pub count_kept : List (Option ℕ) → ℕ
count_kept [] = 0
count_kept (none ∷ refs) = count_kept refs
count_kept (some h ∷ refs) = suc (count_kept refs)

-- The handles that `dpiVar__extendedPreFetch` has made and that hold the connection: `dpiLob__allocate`,
-- `dpiStmt__allocate`, `dpiJson__allocate` and `dpiVector__allocate` each add a reference to it.
abbrev pub conn_holders : Var → Buffer → ℕ
conn_holders v b =
    if is_one_of v.type.oracle_type_num
      (type_clob ∷ type_nclob ∷ type_blob ∷ type_bfile ∷ type_stmt ∷ type_json ∷ type_vector ∷ [])
    then count_kept b.references
    else 0

-- `dpiVar__allocate` once the variable is there; where it fails, the handles that were made for it are
-- freed, with their references to the connection
unfoldable pub fill_var : Env → Platform → Base → Option Base → Var → Made
fill_var env p conn given v =
    let held = set_ref_count conn (pos 1) in
    elim (check_object_type given) [
      | err e ↦ record { result = err e; conn = set_ref_count held (negsuc 0); object_type = given }
      | ok done ↦ elim (init_buffer env p true (has_value given) v v.buffer) [
        | err e ↦ record {
          result = err e;
          conn = set_ref_count held (negsuc 0);
          object_type = give_back (hold given);
        }
        | ok b ↦ record {
          result = ok (record v { buffer = b });
          conn = set_ref_count held (pos (conn_holders v b));
          object_type = hold given;
        }
      ]
    ]

-- `dpiVar__allocate`
unfoldable pub allocate_var : Env → Platform → Base → Option Base → Request → Made
allocate_var env p conn given r = elim (check_request env r) [
  | err e ↦ record { result = err e; conn = conn; object_type = given }
  | ok type ↦
      if p.var_found
      then fill_var env p conn given (new_var env r type)
      else record { result = err no_memory; conn = conn; object_type = given }
]
