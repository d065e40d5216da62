-- ===== src/Var/Tests.antt =====
-- Small variables, and the theorems applied to them.
use godror.Base.{
  ℕ, ◌<◌, ◌≡◌, ◌⊎◌, refl, true, false, none, some, List, [], ◌∷◌, zero, suc, ◌≤◌, length, get_or,
  replicate, length-replicate, ok, err, no_memory, buffer_size_too_small, arith,
}
use godror.OracleTypes.Numbers.{type_varchar, type_clob, native_lob, native_bytes, native_json}
use godror.OracleTypes.Table.{OracleType, all_oracle_types, zero_type, get_from_num}
use godror.Gen.Types.{json, var, type_check_int}
use godror.Gen.Handle.{Base, set_ref_count, add_count}
use godror.Var.State.{Env, in_data, Data, Var, empty_buffer}
use godror.Var.Allocate.{
  Request, Platform, allocate_var, check_request, check_type, check_native, new_var, value_size,
  fill_var, init_buffer, init_values, init_arrays, init_lengths, init_pointers, place_of, temp_size,
}
use godror.Var.Conversions.{IsCovered, check_request-IsCovered}
use godror.Var.Bounds.{IsBytesInPlace, allocate_var-IsBytesInPlace}
use godror.Var.Store.{LobCalls, set_from_bytes}
use godror.Var.Kept.{KeepsValue, set_from_bytes-KeepsValue}
use godror.Var.Chunks.{DynamicBytes}
use godror.Var.Dynamic.{StoresValue, set_dynamic-StoresValue}
use godror.Var.Receive.{Reads, receive-Reads}
use godror.Var.References.{public_set, set_reference}
use godror.Var.Counted.{IsCounted, IsCountedCall, public_set-IsCountedCall}
use godror.Var.Returning.{Returning, Supply, out_bind_callback}
use godror.Var.Returned.{out_bind_callback_faults}

abbrev no_bytes : DynamicBytes
no_bytes = record { num_chunks = 0; allocated_chunks = 0; chunks = [] }

set_dynamic-StoresValue_example : StoresValue (7 ∷ 8 ∷ 9 ∷ []) no_bytes
set_dynamic-StoresValue_example =
    set_dynamic-StoresValue (7 ∷ 8 ∷ 9 ∷ []) no_bytes (omega arith)
      (record { counted = refl; sound = tt })

receive-Reads_example : Reads ((1 ∷ 2 ∷ []) ∷ (3 ∷ []) ∷ []) no_bytes
receive-Reads_example =
    receive-Reads 65536 (1 ∷ 2 ∷ []) ((3 ∷ []) ∷ []) no_bytes (omega arith) (omega arith)
      (record { counted = refl; allocated = refl; held = tt }) (omega arith, (omega arith, tt))

abbrev env : Env
env = record {
  max_bytes_per_character = 4;
  nmax_bytes_per_character = 2;
  is_utf16 = false;
  version_info = record { version_num = 19; release_num = 3 };
  c_size = λ c. 8;
}

abbrev names : Request
names = record {
  oracle_type_num = type_varchar;
  native_type_num = native_bytes;
  max_array_size = 3;
  size = 2;
  size_is_bytes = true;
  is_array = false;
}

abbrev varchar : OracleType
varchar = get_or all_oracle_types 0 zero_type

abbrev platform : Platform
platform = record {
  var_found = true;
  values_found = true;
  rest_found = true;
  fresh = λ n. replicate n 0;
  descriptors = ok [];
}

abbrev name_data : ℕ → Data
name_data offset = record { is_null = true; place = in_data offset; length = 0 }

abbrev name_var : Var
name_var = record {
  type = varchar;
  native_type_num = native_bytes;
  requires_pre_fetch = false;
  is_array = false;
  size_in_bytes = 2;
  is_dynamic = false;
  buffer = record (empty_buffer 3 3) {
    indicator = replicate 3 true;
    return_code = replicate 3 0;
    actual_length32 = replicate 3 2;
    external_data = name_data 0 ∷ name_data 2 ∷ name_data 4 ∷ [];
    memory = replicate 6 0;
  };
}

-- a handle with one reference
abbrev one_held : Base
one_held = record {
  type_def = json;
  check_int = type_check_int json;
  ref_count = 1;
  has_env = true;
  frees = 0;
}

names_checked : check_request env names ≡ ok varchar
unfolding check_request check_type check_native get_from_num
names_checked = refl

check_request-IsCovered_example :
    IsCovered native_bytes varchar × (varchar.oracle_type_num ≡ type_varchar)
check_request-IsCovered_example =
    check_request-IsCovered env names varchar (λ e. absurd (omega arith)) refl names_checked

names_made : (allocate_var env platform one_held none names).result ≡ ok name_var
unfolding allocate_var check_request check_type check_native get_from_num fill_var new_var
    value_size init_buffer init_values init_arrays init_lengths init_pointers place_of temp_size
names_made = refl

allocate_var-IsBytesInPlace_example : IsBytesInPlace name_var
allocate_var-IsBytesInPlace_example =
    allocate_var-IsBytesInPlace env platform one_held none names name_var
      (λ n. length-replicate n 0) names_made refl refl (λ e. absurd (omega arith)) refl

-- a variable of two LOBs, which hold the connection with it
abbrev lobs : Request
lobs = record names {
  oracle_type_num = type_clob;
  native_type_num = native_lob;
  max_array_size = 2;
  size = 0;
}

abbrev lob_platform : Platform
lob_platform = record platform { descriptors = ok (some 0 ∷ some 1 ∷ []) }

lobs_hold_conn : (allocate_var env lob_platform one_held none lobs).conn.ref_count ≡ 4
unfolding allocate_var check_request check_type check_native get_from_num fill_var new_var
    value_size init_buffer init_values init_arrays init_lengths init_pointers place_of temp_size
    set_ref_count add_count
lobs_hold_conn = refl

abbrev no_lob : LobCalls
no_lob = record { trim = ok tt; write_lob = λ value. ok tt }

set_from_bytes-KeepsValue_example :
    (length {A = ℕ} (5 ∷ 6 ∷ []) ≤ 2) × KeepsValue env true true no_lob name_var 1 2 (5 ∷ 6 ∷ [])
    ⊎ (2 < length {A = ℕ} (5 ∷ 6 ∷ []))
      × (set_from_bytes env true true no_lob name_var 1 (5 ∷ 6 ∷ [])
          ≡ some (err buffer_size_too_small, name_var))
set_from_bytes-KeepsValue_example =
    set_from_bytes-KeepsValue env true true no_lob name_var 1 2 (5 ∷ 6 ∷ [])
      (allocate_var-IsBytesInPlace env platform one_held none names name_var
        (λ n. length-replicate n 0) names_made refl refl (λ e. absurd (omega arith)) refl)
      (omega arith) (λ e. absurd (omega arith))

-- a quarter of 2^32 and one more characters
abbrev large : Request
large = record names { size = 1073741825; size_is_bytes = false }

abbrev var_base : Base
var_base = record one_held { type_def = var; check_int = type_check_int var }

abbrev json_var : Var
json_var = record name_var {
  native_type_num = native_json;
  buffer = record (empty_buffer 2 2) { references = some 0 ∷ none ∷ [] };
}

abbrev two_handles : List Base
two_handles = one_held ∷ one_held ∷ []

-- the second handle is owed to its creator
abbrev owed_second : ℕ → ℕ
owed_second zero = 0
owed_second (suc zero) = 1
owed_second (suc (suc h)) = 0

two-IsCounted : IsCounted owed_second two_handles (some 0 ∷ none ∷ [])
two-IsCounted zero = (refl, omega arith)
two-IsCounted (suc zero) = (refl, omega arith)
two-IsCounted (suc (suc h)) = (ground arith, ground arith)

public_set-IsCountedCall_example : IsCountedCall owed_second two_handles json_var 1 1 (
    public_set native_json
      (set_reference json (ok tt))
      (ok tt)
      (some var_base)
      two_handles
      json_var
      1
      1)
public_set-IsCountedCall_example =
    public_set-IsCountedCall native_json json (ok tt) (ok tt) (some var_base) owed_second
      two_handles json_var 1 1 two-IsCounted refl (omega arith) (omega arith)

-- long values of a variable of one position, for the rows that a statement returns
abbrev long_values : Returning
long_values = record {
  var = record name_var { size_in_bytes = 0; is_dynamic = true; buffer = empty_buffer 1 1 };
  buffers = empty_buffer 0 0 ∷ [];
  handles = [];
}

abbrev plenty : Supply
plenty = record {
  buffers_found = true;
  chunks_found = true;
  chunk_found = true;
  lengths_found = true;
  platform = platform;
}

abbrev no_values : Supply
no_values = record plenty { platform = record platform { values_found = false } }

out_bind_callback_faults_example :
    (s : Returning) × (out_bind_callback env no_values false (ok 2) true long_values 0 0
      ≡ some (err no_memory, s))
    × (out_bind_callback env plenty false (ok 1) true s 0 0 ≡ none)
out_bind_callback_faults_example =
    out_bind_callback_faults env no_values plenty false true true 2 1 long_values 0 refl
      (omega arith) (omega arith) refl (omega arith)
