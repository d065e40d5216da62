-- ===== src/Var/Returning.antt =====
-- The rows that a statement returns into a variable of bytes: `dpiVar__outBindCallback`, with
-- `dpiVar__finalizeBuffer`, and `dpiVar_getReturnedData` of odpi/src/dpiVar.c.
use godror.Base.{
  ℕ, Bool, false, ◌&&◌, Option, none, some, List, [], ◌==◌, ltb, if◌then◌else◌, length, get_or, set,
  replicate, Result, ok, err, ◌>>◌, no_memory,
}
use godror.Gen.Handle.{Base}
use godror.Var.Chunks.{define_callback}
use godror.Var.State.{Env, Data, Buffer, Var, empty_buffer}
use godror.Var.Allocate.{
  Platform, is_there, empty_dynamic_bytes, init_buffer, init_values, init_arrays,
}
use godror.Var.Store.{set_value_bytes, check_array_size}
use godror.Var.References.{release_references}

-- a variable with `dynBindBuffers`, empty for NULL, and the handles that there are
pub record Returning : Type 0 where
  pub var : Var
  pub buffers : List Buffer
  pub handles : List Base

-- `dpiVar__finalizeBuffer`, which leaves every pointer NULL
unfoldable pub finalize_buffer : Buffer → Buffer
finalize_buffer b = empty_buffer b.max_array_size b.actual_array_size

unfoldable pub finalize_handles : List Base → Buffer → List Base
finalize_handles handles b = release_references handles b.references

-- What `dpiVar__initBuffer` leaves where it fails: the first of the arrays beside the values is the one
-- that memory is not found for.
unfoldable pub init_left : Env → Platform → Var → Buffer → Buffer
init_left env p v b = elim (init_values p v b) [
  | err e ↦ b
  | ok with_values ↦ if p.rest_found then init_arrays env p false v with_values else with_values
]

-- What the platform gives to a call: whether memory is found for the buffers, for an array of chunks, for
-- a chunk and for an array of lengths, and what there is for `dpiVar__initBuffer`.
pub record Supply : Type 0 where
  pub buffers_found : Bool
  pub chunks_found : Bool
  pub chunk_found : Bool
  pub lengths_found : Bool
  pub platform : Platform

-- `none` for undefined access to memory, and otherwise the result and what there is after the call
abbrev pub Called : Type 0
Called = Option (Result (Unit {0}) × Returning)

abbrev pub with_buffer : ℕ → Buffer → Returning → Returning
with_buffer i b s = record s { buffers = set s.buffers i b }

-- The buffer of an iteration made large enough for the rows, at the first of them.
unfoldable pub resize :
    Env → Supply → Bool → Result ℕ → Returning → ℕ → Result (Unit {0}) × Returning
resize env supply has_object_type (err e) s iter = (err e, s)
resize env supply has_object_type (ok rows) s iter =
    let b = get_or s.buffers iter (empty_buffer 0 0) in
    if ltb b.max_array_size rows
    then (let larger = record (finalize_buffer b) { max_array_size = rows } in
        let released = record s { handles = finalize_handles s.handles b } in
        elim (init_buffer env supply.platform false has_object_type s.var larger) [
          | err e ↦ (err e, with_buffer iter (init_left env supply.platform s.var larger) released)
          | ok made ↦ (ok tt, with_buffer iter (record made { actual_array_size = rows }) released)
        ])
    else (ok tt, with_buffer iter (record b { actual_array_size = rows }) s)

-- A chunk for a piece of the value of a row, with its indicator: the first piece, or the only one, starts
-- over.
unfoldable pub offer_piece : Supply → Bool → Returning → ℕ → ℕ → Called
offer_piece supply one_piece s iter index =
    let b = get_or s.buffers iter (empty_buffer 0 0) in
    if ltb index (length b.dynamic_bytes) && ltb index (length b.indicator)
    then (let d = get_or b.dynamic_bytes index empty_dynamic_bytes in
        let (r, after) =
          define_callback supply.chunks_found supply.chunk_found
            (if one_piece then record d { num_chunks = 0 } else d) in
        some (r, with_buffer iter (record b { dynamic_bytes = set b.dynamic_bytes index after }) s))
    else none

-- the lengths that OCI may write
unfoldable pub offer_length : Supply → ℕ → ℕ → Buffer → Result (Unit {0}) × Buffer
offer_length supply index size b =
    if is_there b.actual_length32
    then (ok tt, record b { actual_length32 = set b.actual_length32 index size })
    else if is_there b.actual_length16
    then (if supply.lengths_found
        then (ok tt, record b { actual_length32 = set (replicate b.max_array_size 0) index size })
        else (err no_memory, b))
    else (ok tt, b)

-- The place of the value of a row, for values whose memory is there: the value that stands there is set.
unfoldable pub offer_place : Supply → Returning → ℕ → ℕ → Called
offer_place supply s iter index =
    let b = get_or s.buffers iter (empty_buffer 0 0) in
    if ltb index (length b.external_data) && ltb index (length b.indicator)
    then (let v = set_value_bytes (record s.var { buffer = b }) index in
        let (r, after) = offer_length supply index s.var.size_in_bytes v.buffer in
        some (r, with_buffer iter after s))
    else none

-- the buffers for all iterations
unfoldable pub make_buffers : Supply → Returning → Result (Unit {0}) × Returning
make_buffers supply s =
    if is_there s.buffers
    then (ok tt, s)
    else if supply.buffers_found
    then (ok tt, record s { buffers = replicate s.var.buffer.max_array_size (empty_buffer 0 0) })
    else (err no_memory, s)

-- the rest of the function, once the buffer has its size
unfoldable pub offer : Supply → Bool → Returning → ℕ → ℕ → Called
offer supply one_piece s iter index =
    if s.var.is_dynamic
    then offer_piece supply one_piece s iter index
    else offer_place supply s iter index

abbrev pub then_offer : Supply → Bool → ℕ → ℕ → Result (Unit {0}) × Returning → Called
then_offer supply one_piece iter index (err e, s) = some (err e, s)
then_offer supply one_piece iter index (ok done, s) = offer supply one_piece s iter index

abbrev pub then_resize :
    Env → Supply → Bool → Result ℕ → Bool → ℕ → ℕ → Result (Unit {0}) × Returning → Called
then_resize env supply has_object_type rows one_piece iter index (err e, s) = some (err e, s)
then_resize env supply has_object_type rows one_piece iter index (ok done, s) =
    if ltb iter (length s.buffers)
    then then_offer supply one_piece iter index
        (if index == 0 then resize env supply has_object_type rows s iter else (ok tt, s))
    else none

-- `dpiVar__outBindCallback`; `rows` is what OCI tells of the number of rows
unfoldable pub out_bind_callback :
    Env → Supply → Bool → Result ℕ → Bool → Returning → ℕ → ℕ → Called
out_bind_callback env supply has_object_type rows one_piece s iter index =
    then_resize env supply has_object_type rows one_piece iter index (make_buffers supply s)

-- `dpiVar_getReturnedData`: the number of rows and the `dpiData` of them
unfoldable pub get_returned_data :
    Result (Unit {0}) → Option Base → Returning → ℕ → Result (ℕ × List Data)
get_returned_data init base s i =
    check_array_size init base s.var i
    >> (if is_there s.buffers
        then (let b = get_or s.buffers i (empty_buffer 0 0) in
            ok (b.actual_array_size, b.external_data))
        else ok (0, []))
