-- ===== src/Var/Chunks.antt =====
-- The dynamic bytes of a variable, for values of unknown or large size: `dpiDynamicBytes` of
-- odpi/src/dpiImpl.h, and `dpiVar__allocateChunks`, `dpiVar__allocateDynamicBytes`,
-- `dpiVar__defineCallback`, `dpiVar__setBytesFromDynamicBytes` and the use of dynamic bytes in
-- `dpiVar__setFromBytes` of odpi/src/dpiVar.c. Whether an allocation succeeds is an argument.
use godror.Base.{
  ℕ, zero, suc, ◌+◌, ◌-◌, ◌*◌, ◌/◌, ◌%◌, Bool, true, false, not, Option, none, some, List, [], ◌∷◌,
  ◌++◌, ◌==◌, ltb, if◌then◌else◌, length, get_or, set, take, drop, replicate, Result, ok, err,
  no_memory,
}

-- Memory that was allocated: its size, and what has been written from its start on.
pub record Block : Type 0 where
  pub capacity : ℕ
  pub bytes : List ℕ

-- dpiDynamicBytesChunk
pub record Chunk : Type 0 where
  pub ptr : Option Block
  pub length : ℕ
  pub allocated_length : ℕ

-- dpiDynamicBytes; the array of chunks is empty where the pointer to it is NULL
pub record DynamicBytes : Type 0 where
  pub num_chunks : ℕ
  pub allocated_chunks : ℕ
  pub chunks : List Chunk

-- zeroed memory
abbrev pub empty_chunk : Chunk
empty_chunk = record { ptr = none; length = 0; allocated_length = 0 }

abbrev pub empty_block : ℕ → Block
empty_block n = record { capacity = n; bytes = [] }

-- DPI_DYNAMIC_BYTES_CHUNK_SIZE
abbrev pub chunk_size : ℕ
chunk_size = 65536

-- `memcpy` to the start of a buffer: `none` where the buffer is NULL or too small, which is undefined
abbrev pub write : Option Block → List ℕ → Option (Option Block)
write ptr [] = some ptr
write none (b ∷ value) = none
write (some block) (b ∷ value) =
    if ltb block.capacity (length (b ∷ value))
    then none
    else some (some (record block { bytes = (b ∷ value) ++ drop (length (b ∷ value)) block.bytes }))

-- What a function does with dynamic bytes: `none` where its behaviour is undefined, and otherwise
-- its result and the dynamic bytes after it.
abbrev pub Run : Type 0 → Type 0
Run A = Option (Result A × DynamicBytes)

abbrev pub then_run : {A B : Type 0} → Run A → (A → DynamicBytes → Run B) → Run B
then_run none f = none
then_run (some (err e, d)) f = some (err e, d)
then_run (some (ok a, d)) f = f a d

-- `dpiVar__allocateChunks`
unfoldable pub allocate_chunks : Bool → DynamicBytes → Result (Unit {0}) × DynamicBytes
allocate_chunks found d =
    if found
    then (
      ok tt,
      record d {
        allocated_chunks = d.allocated_chunks + 8;
        chunks =
            take d.num_chunks d.chunks
            ++ replicate (d.allocated_chunks + 8 - d.num_chunks) empty_chunk;
      },
    )
    else (err no_memory, d)

-- `(size + DPI_DYNAMIC_BYTES_CHUNK_SIZE - 1) & ~(DPI_DYNAMIC_BYTES_CHUNK_SIZE - 1)` on `uint32_t`
unfoldable pub round_up : ℕ → ℕ
round_up size = (size + 65535) % 4294967296 / chunk_size * chunk_size

-- the first chunk made large enough, in `dpiVar__allocateDynamicBytes`
unfoldable pub allocate_first : Bool → ℕ → DynamicBytes → Run (Unit {0})
allocate_first found size d = elim d.chunks [
  | [] ↦ none
  | chunk ∷ rest ↦
      if ltb chunk.allocated_length size
      then some (
        if found then ok tt else err no_memory,
        record d {
          chunks =
              record chunk {
                ptr = if found then some (empty_block (round_up size)) else none;
                allocated_length = round_up size;
              }
              ∷ rest;
        },
      )
      else some (ok tt, d)
]

-- `dpiVar__allocateDynamicBytes`
unfoldable pub allocate_dynamic_bytes : Bool → Bool → ℕ → DynamicBytes → Run (Unit {0})
allocate_dynamic_bytes chunks_found found size d =
    let d₀ = record d { num_chunks = 0 } in
    then_run
      (if d.allocated_chunks == 0 then some (allocate_chunks chunks_found d₀) else some (ok tt, d₀))
      (λ done d₁. allocate_first found size d₁)

-- the value stored in the first chunk, in `dpiVar__setFromBytes`
unfoldable pub fill_first : List ℕ → DynamicBytes → Run (Unit {0})
fill_first value d = elim d.chunks [
  | [] ↦ none
  | chunk ∷ rest ↦ elim (write chunk.ptr value) [
    | none ↦ none
    | some ptr ↦ some (
      ok tt,
      record d {
        num_chunks = 1;
        chunks = record chunk { ptr = ptr; length = length value } ∷ rest;
      },
    )
  ]
]

-- `dpiVar__setFromBytes` on a variable with dynamic bytes
unfoldable pub set_dynamic : Bool → Bool → List ℕ → DynamicBytes → Run (Unit {0})
set_dynamic chunks_found found value d =
    then_run (allocate_dynamic_bytes chunks_found found (length value) d)
      (λ done d₁. fill_first value d₁)

-- a chunk as it is handed to OCI, in `dpiVar__defineCallback`
abbrev pub offered : Bool → Option Block → Chunk → Result (Unit {0}) × Chunk
offered found (some block) c = (ok tt, record c { length = c.allocated_length })
offered true none c = (
  ok tt,
  record {
    ptr = some (empty_block chunk_size);
    length = chunk_size;
    allocated_length = chunk_size;
  },
)
offered false none c = (err no_memory, record c { allocated_length = chunk_size })

abbrev pub one_more : Result (Unit {0}) → ℕ → ℕ
one_more (ok done) n = n + 1
one_more (err e) n = n

-- the chunk at `numChunks`
unfoldable pub offer_chunk : Bool → DynamicBytes → Result (Unit {0}) × DynamicBytes
offer_chunk found d =
    let chunk = get_or d.chunks d.num_chunks empty_chunk in
    let (r, c) = offered found chunk.ptr chunk in
    (r, record d { num_chunks = one_more r d.num_chunks; chunks = set d.chunks d.num_chunks c })

-- `dpiVar__defineCallback`
unfoldable pub define_callback : Bool → Bool → DynamicBytes → Result (Unit {0}) × DynamicBytes
define_callback chunks_found found d =
    if d.num_chunks == d.allocated_chunks
    then (let (r, d₁) = allocate_chunks chunks_found d in
        elim r [ err e ↦ (err e, d₁) | ok done ↦ offer_chunk found d₁ ])
    else offer_chunk found d

-- the bytes that a chunk holds
abbrev pub chunk_bytes : Chunk → List ℕ
chunk_bytes chunk = elim chunk.ptr [ none ↦ [] | some block ↦ take chunk.length block.bytes ]

-- the first `n` chunks copied one behind the other, and the sum of their allocated lengths
abbrev pub joined : ℕ → List Chunk → List ℕ
joined zero chunks = []
joined (suc n) [] = []
joined (suc n) (chunk ∷ chunks) = chunk_bytes chunk ++ joined n chunks

abbrev pub total_allocated : ℕ → List Chunk → ℕ
total_allocated zero chunks = 0
total_allocated (suc n) [] = 0
total_allocated (suc n) (chunk ∷ chunks) =
    (chunk.allocated_length + total_allocated n chunks) % 4294967296

-- the chunks behind the first, cleared
abbrev pub cleared : ℕ → List Chunk → List Chunk
cleared zero chunks = chunks
cleared (suc n) [] = []
cleared (suc n) (chunk ∷ chunks) = empty_chunk ∷ cleared n chunks

-- `dpiVar__setBytesFromDynamicBytes`, whose result is the bytes that `ptr` and `length` give
unfoldable pub set_bytes_from_dynamic_bytes : Bool → DynamicBytes → Run (List ℕ)
set_bytes_from_dynamic_bytes found d =
    let bytes = joined d.num_chunks d.chunks in
    let total = total_allocated d.num_chunks d.chunks in
    elim d.chunks [
      | [] ↦ if found then none else some (err no_memory, d)
      | chunk ∷ rest ↦
          if d.num_chunks == 1
          then some (ok (chunk_bytes chunk), d)
          else if not found
          then some (err no_memory, d)
          else if ltb total (length bytes)
          then none
          else some (
            ok bytes,
            record d {
              num_chunks = 1;
              chunks =
                  record {
                    ptr = some (record { capacity = total; bytes = bytes });
                    length = length bytes;
                    allocated_length = total;
                  }
                  ∷ cleared (d.num_chunks - 1) rest;
            },
          )
    ]
