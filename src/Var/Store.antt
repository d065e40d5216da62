-- ===== src/Var/Store.antt =====
-- Byte strings in a variable: `dpiVar_setFromBytes` with `dpiVar__checkArraySize` and
-- `dpiVar__setFromBytes`, and the parts of `dpiVar__setValue` and `dpiVar__getValue` of
-- odpi/src/dpiVar.c for them, with `dpiLob__setFromBytes` of odpi/src/dpiLob.c.
use godror.Base.{
  ℕ, ◌+◌, ◌*◌, ◌%◌, Bool, true, false, ◌&&◌, ◌||◌, not, Option, none, some, List, [], ◌∷◌, ◌++◌,
  ◌==◌, ltb, leb, if◌then◌else◌, length, get_or, set, take, drop, Result, ok, err, ◌>>◌, fail_if,
  buffer_size_too_small, buffer_size_too_large, invalid_array_position, not_supported, column_fetch,
}
use godror.Number.Parse.{number_as_text_chars}
use godror.OracleTypes.Numbers.{native_bytes, native_lob}
use godror.Gen.Types.{var}
use godror.Gen.Handle.{Base, start_public_fn}
use godror.Var.Chunks.{set_dynamic}
use godror.Var.State.{
  Env, Place, nowhere, first_chunk, in_data, in_temp, handle, Data, Buffer, Var, type_size,
  null_data,
}
use godror.Var.Allocate.{is_there, empty_dynamic_bytes}

-- `dpiOci__lobTrim2` to nothing and `dpiOci__lobWrite2` at the start of the LOB of a position
pub record LobCalls : Type 0 where
  pub trim : Result (Unit {0})
  pub write_lob : List ℕ → Result (Unit {0})

-- `dpiLob__setFromBytes`
unfoldable pub lob_set_from_bytes : LobCalls → List ℕ → Result (Unit {0})
lob_set_from_bytes lob value = lob.trim >> (if is_there value then lob.write_lob value else ok tt)

-- `memcpy` of a value into memory: `none` where it does not fit, which is undefined
unfoldable pub write_at : ℕ → List ℕ → List ℕ → Option (List ℕ)
write_at offset value memory =
    if ltb (length memory) (offset + length value)
    then none
    else some (take offset memory ++ (value ++ drop (offset + length value) memory))

-- whether the target refuses the value for its length
unfoldable pub is_too_long : Env → Var → ℕ → Bool
is_too_long env v n =
    let has_temp = is_there v.buffer.temp_buffer in
    has_temp && env.is_utf16 && ltb (number_as_text_chars * 2) n
    || has_temp && not env.is_utf16 && ltb number_as_text_chars n
    || not (is_there v.buffer.dynamic_bytes) && not has_temp && ltb v.size_in_bytes n

-- `if (buffer->...) buffer->...[pos] = n`: an array that is NULL stays so
abbrev pub set_length : ℕ → ℕ → Buffer → Buffer
set_length pos n b =
    if is_there b.actual_length32
    then record b { actual_length32 = set b.actual_length32 pos n }
    else record b { actual_length16 = set b.actual_length16 pos (n % 65536) }

-- the value copied to where `bytes->ptr` points
unfoldable pub copy_to : Place → List ℕ → Buffer → Option Buffer
copy_to place [] b = some b
copy_to nowhere (x ∷ value) b = none
copy_to first_chunk (x ∷ value) b = none
copy_to (handle h) (x ∷ value) b = none
copy_to (in_data offset) (x ∷ value) b = elim (write_at offset (x ∷ value) b.memory) [
  | none ↦ none
  | some memory ↦ some (record b { memory = memory })
]
copy_to (in_temp offset) (x ∷ value) b = elim (write_at offset (x ∷ value) b.temp_buffer) [
  | none ↦ none
  | some memory ↦ some (record b { temp_buffer = memory })
]

-- the value stored where space has been allocated before
unfoldable pub set_in_place : Env → Var → ℕ → List ℕ → Option Var
set_in_place env v pos value =
    let old = get_or v.buffer.external_data pos null_data in
    elim (copy_to old.place value v.buffer) [
      | none ↦ none
      | some copied ↦
          let b =
            if type_size env v.type.size_in_bytes == 0
            then set_length pos (length value) copied
            else copied in
          some (record v {
            buffer = record b {
              return_code = set b.return_code pos 0;
              external_data =
                  set b.external_data pos
                    (record { is_null = false; place = old.place; length = length value });
            };
          })
    ]

-- the value stored in dynamic bytes, given whether memory is found
unfoldable pub set_in_chunks : Bool → Bool → Var → ℕ → List ℕ → Option (Result (Unit {0}) × Var)
set_in_chunks chunks_found found v pos value =
    elim (set_dynamic chunks_found found value
      (get_or v.buffer.dynamic_bytes pos empty_dynamic_bytes)) [
        | none ↦ none
        | some (r, d) ↦
            let b = record v.buffer { dynamic_bytes = set v.buffer.dynamic_bytes pos d } in
            elim r [
              | err e ↦ some (err e, record v { buffer = b })
              | ok done ↦ some (
                ok tt,
                record v {
                  buffer = record b {
                    external_data =
                        set b.external_data pos
                          (record { is_null = false; place = first_chunk; length = length value });
                  };
                },
              )
            ]
      ]

abbrev pub succeeds : Option Var → Option (Result (Unit {0}) × Var)
succeeds none = none
succeeds (some v) = some (ok tt, v)

-- `dpiVar__setFromBytes`: `none` where the behaviour is undefined
unfoldable pub set_from_bytes :
    Env → Bool → Bool → LobCalls → Var → ℕ → List ℕ → Option (Result (Unit {0}) × Var)
set_from_bytes env chunks_found found lob v pos value =
    if is_there v.buffer.references
    then (let old = get_or v.buffer.external_data pos null_data in
        some (
          lob_set_from_bytes lob value,
          record v {
            buffer = record v.buffer {
              external_data = set v.buffer.external_data pos (record old { is_null = false });
            };
          },
        ))
    else if is_too_long env v (length value)
    then some (err buffer_size_too_small, v)
    else if is_there v.buffer.dynamic_bytes
    then set_in_chunks chunks_found found v pos value
    else succeeds (set_in_place env v pos value)

-- DPI_MAX_VAR_BUFFER_SIZE
abbrev pub max_var_buffer_size : ℕ
max_var_buffer_size = 1073741822

-- `dpiVar__checkArraySize`; `base` is the base of the handle
unfoldable pub check_array_size : Result (Unit {0}) → Option Base → Var → ℕ → Result (Unit {0})
check_array_size init base v pos =
    start_public_fn init base var
    >> fail_if (leb v.buffer.max_array_size pos) invalid_array_position

-- the checks of `dpiVar_setFromBytes`
unfoldable pub check_set_from_bytes :
    Result (Unit {0}) → Option Base → Var → ℕ → ℕ → Result (Unit {0})
check_set_from_bytes init base v pos n =
    check_array_size init base v pos
    >> fail_if (not (v.native_type_num == native_bytes) && not (v.native_type_num == native_lob))
        not_supported
    >> fail_if (ltb max_var_buffer_size n) buffer_size_too_large

-- `dpiVar_setFromBytes`
unfoldable pub public_set_from_bytes :
    Result (Unit {0})
    → Option Base
    → Env
    → Bool
    → Bool
    → LobCalls
    → Var
    → ℕ
    → List ℕ
    → Option (Result (Unit {0}) × Var)
public_set_from_bytes init base env chunks_found found lob v pos value =
    elim (check_set_from_bytes init base v pos (length value)) [
      | err e ↦ some (err e, v)
      | ok done ↦ set_from_bytes env chunks_found found lob v pos value
    ]

-- `dpiVar__setValue` of bytes that are not the text of a number
unfoldable pub set_value_bytes : Var → ℕ → Var
set_value_bytes v pos =
    let old = get_or v.buffer.external_data pos null_data in
    let b = record v.buffer { indicator = set v.buffer.indicator pos old.is_null } in
    if old.is_null then record v { buffer = b } else record v {
      buffer = record (set_length pos old.length b) { return_code = set b.return_code pos 0 };
    }

-- for 11g
abbrev pub narrow_length : ℕ → Buffer → Buffer
narrow_length pos b =
    if is_there b.actual_length16 && is_there b.actual_length32
    then record b {
      actual_length16 = set b.actual_length16 pos (get_or b.actual_length32 pos 0 % 65536);
    }
    else b

-- the length of bytes in place
abbrev pub actual_length : ℕ → Buffer → ℕ
actual_length pos b =
    if is_there b.actual_length16
    then get_or b.actual_length16 pos 0
    else get_or b.actual_length32 pos 0

abbrev pub set_data : ℕ → Data → Buffer → Buffer
set_data pos new b = record b { external_data = set b.external_data pos new }

-- `dpiVar__getValue` of bytes in place
unfoldable pub get_value_bytes : Var → ℕ → Result (Unit {0}) × Var
get_value_bytes v pos =
    let old = get_or v.buffer.external_data pos null_data in
    let is_null = get_or v.buffer.indicator pos true in
    let b = set_data pos (record old { is_null = is_null }) v.buffer in
    if is_null
    then (ok tt, record v { buffer = b })
    else if is_there b.return_code && not (get_or b.return_code pos 0 == 0)
    then (err column_fetch, record v { buffer = b })
    else (let c = narrow_length pos b in
        (
          ok tt,
          record v {
            buffer =
                set_data pos
                  (record { is_null = false; place = old.place; length = actual_length pos c }) c;
          },
        ))

-- the bytes that `ptr` and `length` of a position give, where they are in place
abbrev pub bytes_at : Place → ℕ → Buffer → List ℕ
bytes_at nowhere n b = []
bytes_at first_chunk n b = []
bytes_at (handle h) n b = []
bytes_at (in_data offset) n b = take n (drop offset b.memory)
bytes_at (in_temp offset) n b = take n (drop offset b.temp_buffer)

unfoldable pub value_of : Var → ℕ → List ℕ
value_of v pos =
    let old = get_or v.buffer.external_data pos null_data in bytes_at old.place old.length v.buffer
