-- ===== src/Var/Dynamic.antt =====
-- A byte string set in dynamic bytes: `dpiVar__setFromBytes`, read by `dpiVar__setBytesFromDynamicBytes`.
use godror.Base.{
  ℕ, suc, ◌≤◌, ◌<◌, ◌≡◌, refl, ap, subst, sym, Bool, true, false, Bool-cases, inl, inr, Option,
  none, some, List, [], ◌∷◌, ◌++◌, ◌==◌, ltb, lt→ltb, length, drop, take_append, All, replicate, ok,
  err, no_memory, arith,
}
use godror.Var.Chunks.{
  Block, Chunk, DynamicBytes, empty_chunk, write, Run, then_run, allocate_chunks, round_up,
  allocate_first, allocate_dynamic_bytes, fill_first, set_dynamic, chunk_bytes,
  set_bytes_from_dynamic_bytes,
}

-- A chunk has the memory that its allocated length tells.
abbrev pub SoundPtr : Option Block → ℕ → Type 0
SoundPtr none n = n ≡ 0
SoundPtr (some block) n = block.capacity ≡ n

abbrev pub SoundChunk : Chunk → Type 0
SoundChunk c = SoundPtr c.ptr c.allocated_length

pub record IsSound (d : DynamicBytes) : Type 0 where
  pub counted : d.allocated_chunks ≡ length d.chunks
  pub sound : All SoundChunk d.chunks

pub round_up_bounds :
    (size : ℕ) → size ≤ 1073741822 → (size ≤ round_up size) × (round_up size < 4294967296)
unfolding round_up
round_up_bounds size h = omega arith

-- what was written can be read
pub write_lem :
    (ptr : Option Block) (n : ℕ) (value : List ℕ)
    → SoundPtr ptr n
    → length value ≤ n
    → (q : Option Block) × (write ptr value ≡ some q)
      × SoundPtr q n
      × (chunk_bytes (record { ptr = q; length = length value; allocated_length = n }) ≡ value)
write_lem none n [] h le = (none, refl, h, refl)
write_lem (some block) n [] h le = (some block, refl, h, refl)
write_lem none n (b ∷ value) h le = absurd (omega arith)
write_lem (some block) n (b ∷ value) h le =
    let fits : ltb block.capacity (suc (length value)) ≡ false = ground arith in
    rw fits (
      some (record block { bytes = b ∷ (value ++ drop (suc (length value)) block.bytes) }),
      refl,
      h,
      take_append (b ∷ value) (drop (suc (length value)) block.bytes),
    )

-- the dynamic bytes with a value of `n` bytes in the first chunk
abbrev holding : Option Block → ℕ → ℕ → List Chunk → DynamicBytes
holding ptr n allocated rest = record {
  num_chunks = 1;
  allocated_chunks = suc (length rest);
  chunks = record { ptr = ptr; length = n; allocated_length = allocated } ∷ rest;
}

-- the first chunk after the value is stored, and the rest as it was
record Stored (value : List ℕ) (rest : List Chunk) (r : Run (Unit {0})) : Type 0 where
  ptr : Option Block
  allocated : ℕ
  result : r ≡ some (ok tt, holding ptr (length value) allocated rest)
  sound : SoundPtr ptr allocated
  reads :
      chunk_bytes (record { ptr = ptr; length = length value; allocated_length = allocated })
      ≡ value

fill_first-Stored :
    (c : Chunk) (rest : List Chunk) (value : List ℕ)
    → SoundChunk c
    → length value ≤ c.allocated_length
    → Stored value rest (
        fill_first value
          (record { num_chunks = 0; allocated_chunks = suc (length rest); chunks = c ∷ rest }))
unfolding fill_first
fill_first-Stored c rest value h le =
    let (q, stores, sound, reads) = write_lem c.ptr c.allocated_length value h le in
    record {
      ptr = q;
      allocated = c.allocated_length;
      result = rw (fill_first, stores) refl;
      sound = sound;
      reads = reads;
    }

allocate_first-Stored :
    (c : Chunk) (rest : List Chunk) (value : List ℕ)
    → length value ≤ 1073741822
    → SoundChunk c
    → Stored value rest (
        then_run
          (allocate_first true
            (length value)
            (record { num_chunks = 0; allocated_chunks = suc (length rest); chunks = c ∷ rest }))
          (λ done d. fill_first value d))
unfolding allocate_first
allocate_first-Stored c rest value bound h =
    elim (Bool-cases (ltb c.allocated_length (length value))) [
      | inl small ↦
          rw small (fill_first-Stored _ rest value refl (round_up_bounds (length value) bound).0)
      | inr large ↦ rw large (fill_first-Stored c rest value h (ground arith))
    ]

set_dynamic-Stored :
    (num : ℕ) (cs : List Chunk) (value : List ℕ)
    → length value ≤ 1073741822
    → All SoundChunk cs
    → (rest : List Chunk) × Stored value rest (
        set_dynamic true true value
          (record { num_chunks = num; allocated_chunks = length cs; chunks = cs }))
      × All SoundChunk rest
unfolding set_dynamic allocate_dynamic_bytes allocate_chunks
set_dynamic-Stored num [] value bound h = (
  replicate 7 empty_chunk,
  allocate_first-Stored empty_chunk (replicate 7 empty_chunk) value bound refl,
  ground arith,
)
set_dynamic-Stored num (c ∷ rest) value bound h =
    let some_chunks : (suc (length rest) == 0) ≡ false = ground arith in
    (rest, rw some_chunks (allocate_first-Stored c rest value bound h.0), h.1)

-- `set_dynamic` stores the value and keeps the dynamic bytes sound, and reading gives the value back
pub record StoresValue (value : List ℕ) (d : DynamicBytes) : Type 0 where
  pub after : DynamicBytes
  pub stored : set_dynamic true true value d ≡ some (ok tt, after)
  pub read : (found : Bool) → set_bytes_from_dynamic_bytes found after ≡ some (ok value, after)
  pub sound : IsSound after

stored_fields :
    (num : ℕ) (cs : List Chunk) (value : List ℕ)
    → length value ≤ 1073741822
    → All SoundChunk cs
    → StoresValue value (record { num_chunks = num; allocated_chunks = length cs; chunks = cs })
unfolding set_bytes_from_dynamic_bytes
stored_fields num cs value bound h =
    let (rest, s, hr) = set_dynamic-Stored num cs value bound h in
    let after = holding s.ptr (length value) s.allocated rest in
    record {
      after = after;
      stored = s.result;
      read = λ found. ap (λ (bytes : List ℕ). some (ok bytes, after)) s.reads;
      sound = record { counted = refl; sound = (s.sound, hr) };
    }

-- Where the dynamic bytes are sound and memory is found, setting a value of at most the largest size
-- that the public function lets through writes within the memory of a chunk, reading gives
-- that value back, and the dynamic bytes stay sound.
pub set_dynamic-StoresValue :
    (value : List ℕ) (d : DynamicBytes)
    → length value ≤ 1073741822
    → IsSound d
    → StoresValue value d
set_dynamic-StoresValue value d bound h =
    subst
      (λ n.
        StoresValue value
          (record { num_chunks = d.num_chunks; allocated_chunks = n; chunks = d.chunks }))
      (sym h.counted) (stored_fields d.num_chunks d.chunks value bound h.sound)

-- Where memory is not found for a value that is longer than the first chunk, setting it fails with
-- `no_memory`, and setting any value after that which is no longer, and not empty, is undefined: it is
-- copied to NULL.
pub set_dynamic_faults :
    (num : ℕ) (c : Chunk) (rest : List Chunk) (value : List ℕ) (b : ℕ) (bs : List ℕ)
    (chunks_found found : Bool)
    → length value ≤ 1073741822
    → c.allocated_length < length value
    → length (b ∷ bs) ≤ length value
    → (d : DynamicBytes) × (set_dynamic true false value
          (record { num_chunks = num; allocated_chunks = suc (length rest); chunks = c ∷ rest })
        ≡ some (err no_memory, d))
      × (set_dynamic chunks_found found (b ∷ bs) d ≡ none)
unfolding set_dynamic allocate_dynamic_bytes allocate_first fill_first
set_dynamic_faults num c rest value b bs chunks_found found bound small le =
    let some_chunks : (suc (length rest) == 0) ≡ false = ground arith in
    let short : ltb c.allocated_length (length value) ≡ true = lt→ltb _ _ small in
    let fits : ltb (round_up (length value)) (suc (length bs)) ≡ false =
      ground (arith, round_up_bounds (length value) bound) in
    rw (some_chunks, short)
      (
        record {
          num_chunks = 0;
          allocated_chunks = suc (length rest);
          chunks =
              record { ptr = none; length = c.length; allocated_length = round_up (length value) }
              ∷ rest;
        },
        refl,
        rw (some_chunks, fits) refl,
      )
