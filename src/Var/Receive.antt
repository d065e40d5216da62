-- ===== src/Var/Receive.antt =====
-- A value that arrives in pieces: `dpiVar__defineCallback` offers a chunk for each, and
-- `dpiVar__setBytesFromDynamicBytes` joins them.
use godror.Base.{
  ℕ, suc, ◌+◌, ◌-◌, ◌*◌, ◌≤◌, ◌<◌, ◌≡◌, refl, ap, ap₂, subst, sym, ◌∙◌, true, false, Bool-cases,
  inl, inr, Option, none, some, List, [], ◌∷◌, ◌++◌, append-nil, append_assoc, ◌==◌, ltb, length,
  length-append, length-set, get_or, get_or-set_self, set, set-set, take, take_all, All, replicate,
  Result, ok, arith,
}
use godror.Var.Chunks.{
  Block, Chunk, DynamicBytes, empty_chunk, empty_block, chunk_size, write, allocate_chunks, offered,
  offer_chunk, define_callback, total_allocated, set_bytes_from_dynamic_bytes,
}
use godror.Var.Dynamic.{write_lem}
use godror.Var.Matches.{
  concat, OfferedPtr, Matches, Holds, Matches-le, Matches-get, Matches-set, Matches-append,
  Matches-joined, total_bounds,
}

abbrev pub put_piece : Option (Option Block) → ℕ → ℕ → Chunk → DynamicBytes → Option DynamicBytes
put_piece none n i chunk d = none
put_piece (some ptr) n i chunk d =
    some (record d { chunks = set d.chunks i (record chunk { ptr = ptr; length = n }) })

abbrev pub fill_at : ℕ → List ℕ → DynamicBytes → Option DynamicBytes
fill_at i piece d =
    let chunk = get_or d.chunks i empty_chunk in
    put_piece (write chunk.ptr piece) (length piece) i chunk d

-- OCI writes a piece of a value into the chunk that it was offered last, and its length to `alenpp`:
-- `none` where the chunk is too small.
unfoldable pub fill_last : List ℕ → DynamicBytes → Option DynamicBytes
fill_last piece d = fill_at (d.num_chunks - 1) piece d

-- The pieces of a value as OCI delivers them, each into a chunk of its own, with memory found.
unfoldable pub receive : List (List ℕ) → DynamicBytes → Option DynamicBytes
receive [] d = some d
receive (piece ∷ pieces) d =
    let rest = λ (d₁ : DynamicBytes). receive pieces d₁ in
    elim (fill_last piece (define_callback true true d).1) [ none ↦ none | some d₁ ↦ rest d₁ ]

-- a chunk that was offered
record Offered (m : ℕ) (r : Result (Unit {0}) × Chunk) : Type 0 where
  block : Block
  size : ℕ
  len : ℕ
  result : r ≡ (ok tt, record { ptr = some block; length = len; allocated_length = size })
  capacity : block.capacity ≡ size
  large : chunk_size ≤ size
  small : size ≤ m

offered-Offered :
    (m : ℕ) (ptr : Option Block) (len size : ℕ)
    → chunk_size ≤ m
    → OfferedPtr m ptr size
    → Offered m (offered true ptr (record { ptr = ptr; length = len; allocated_length = size }))
offered-Offered m none len size le h = record {
  block = empty_block chunk_size;
  size = chunk_size;
  len = chunk_size;
  result = refl;
  capacity = refl;
  large = omega arith;
  small = le;
}
offered-Offered m (some block) len size le h = record {
  block = block;
  size = size;
  len = size;
  result = refl;
  capacity = h.0;
  large = h.1;
  small = h.2;
}

-- the chunk filled that was offered
filled-Holds :
    (m : ℕ) (ps : List (List ℕ)) (cs : List Chunk) (p : List ℕ)
    → chunk_size ≤ m
    → Matches m ps cs
    → length ps < length cs
    → length p ≤ chunk_size
    → (d' : DynamicBytes) × (fill_last p
          (offer_chunk true
            (record { num_chunks = length ps; allocated_chunks = length cs; chunks = cs })).1
        ≡ some d')
      × Holds m (ps ++ p ∷ []) d'
unfolding fill_last offer_chunk
filled-Holds m ps cs p le h lt small =
    let n = length ps in
    let old = get_or cs n empty_chunk in
    let o = offered-Offered m old.ptr old.length old.allocated_length le (Matches-get m ps cs h) in
    let c : Chunk = record { ptr = some o.block; length = o.len; allocated_length = o.size } in
    let (q, stores, sound, reads) =
      write_lem (some o.block) o.size p o.capacity (omega (arith, o.large)) in
    let c' : Chunk = record { ptr = q; length = length p; allocated_length = o.size } in
    let i : n + 1 - 1 ≡ n = omega arith in
    let got : get_or (set cs n c) n empty_chunk ≡ c = get_or-set_self cs n c empty_chunk lt in
    let d : DynamicBytes = record {
      num_chunks = n + 1;
      allocated_chunks = length cs;
      chunks = set cs n c;
    } in
    let filled : fill_at n p d ≡ put_piece (some q) (length p) n c d = rw (got, stores) refl in
    rw o.result (
      record { num_chunks = n + 1; allocated_chunks = length cs; chunks = set cs n c' },
      ap (λ k. fill_at k p d) i ∙ filled ∙ rw (set-set cs n c c') refl,
      record {
        counted = omega (arith, length-append {0} ps (p ∷ []));
        allocated = sym (length-set cs n c');
        held = Matches-set m ps cs p c' h lt reads (omega (arith, o.large)) o.small;
      },
    )

received_one :
    (m : ℕ) (ps : List (List ℕ)) (cs : List Chunk) (p : List ℕ)
    → chunk_size ≤ m
    → Matches m ps cs
    → length p ≤ chunk_size
    → (d' : DynamicBytes) × (fill_last p
          (define_callback true true
            (record { num_chunks = length ps; allocated_chunks = length cs; chunks = cs })).1
        ≡ some d')
      × Holds m (ps ++ p ∷ []) d'
unfolding define_callback allocate_chunks
received_one m ps cs p le h small = elim (Bool-cases (length ps == length cs)) [
  | inl full ↦
      let same : length ps ≡ length cs = ground arith in
      let more = cs ++ replicate 8 empty_chunk in
      let more_length = length-append {0} cs (replicate 8 empty_chunk) in
      let taken : take (length ps) cs ≡ cs = rw same (take_all cs) in
      let eight : length cs + 8 - length ps ≡ 8 = omega (arith, same) in
      let sum : length cs + 8 ≡ length more = omega (arith, more_length) in
      rw (full, taken, eight, sum)
        (filled-Holds m ps more p le
          (Matches-append m ps cs (replicate 8 empty_chunk) h (ground arith))
          (omega (arith, same, more_length)) small)
  | inr room ↦ rw room (filled-Holds m ps cs p le h (ground (arith, Matches-le m ps cs h)) small)
]

-- one piece, for any dynamic bytes
received_piece :
    (m : ℕ) (ps : List (List ℕ)) (d : DynamicBytes) (p : List ℕ)
    → chunk_size ≤ m
    → Holds m ps d
    → length p ≤ chunk_size
    → (d' : DynamicBytes) × (fill_last p (define_callback true true d).1 ≡ some d')
      × Holds m (ps ++ p ∷ []) d'
received_piece m ps d p le h small =
    subst
      (λ e.
        (d' : DynamicBytes) × (fill_last p (define_callback true true e).1 ≡ some d')
        × Holds m (ps ++ p ∷ []) d')
      (ap₂
        (λ (n a : ℕ).
          let e : DynamicBytes = record {
            num_chunks = n;
            allocated_chunks = a;
            chunks = d.chunks;
          } in
          e)
        (sym h.counted) (sym h.allocated))
      (received_one m ps d.chunks p le h.held small)

receive-Holds :
    (m : ℕ) (qs ps : List (List ℕ)) (d : DynamicBytes)
    → chunk_size ≤ m
    → Holds m ps d
    → All (λ p. length p ≤ chunk_size) qs
    → (d' : DynamicBytes) × (receive qs d ≡ some d') × Holds m (ps ++ qs) d'
unfolding receive
receive-Holds m [] ps d le h small = (d, refl, rw (append-nil ps) h)
receive-Holds m (q ∷ qs) ps d le h small =
    let (d₁, filled, h₁) = received_piece m ps d q le h small.0 in
    let (d₂, rest, h₂) = receive-Holds m qs (ps ++ q ∷ []) d₁ le h₁ small.1 in
    (d₂, rw (receive, filled) rest, rw (← append_assoc ps (q ∷ []) qs) h₂)

joined_fields :
    (m : ℕ) (p : List ℕ) (ps : List (List ℕ)) (a : ℕ) (cs : List Chunk)
    → suc (length ps) * m < 4294967296
    → Matches m (p ∷ ps) cs
    → (d : DynamicBytes) × (set_bytes_from_dynamic_bytes true
          (record { num_chunks = suc (length ps); allocated_chunks = a; chunks = cs })
        ≡ some (ok (concat (p ∷ ps)), d))
unfolding set_bytes_from_dynamic_bytes
joined_fields m p ps a [] bound h = absurd h
joined_fields m p [] a (c ∷ cs) bound h =
    let d : DynamicBytes = record { num_chunks = 1; allocated_chunks = a; chunks = c ∷ cs } in
    (d, ap (λ (bytes : List ℕ). some (ok bytes, d)) (h.0 ∙ sym (append-nil p)))
joined_fields m p (q ∷ ps) a (c ∷ cs) bound h =
    let several : (suc (suc (length ps)) == 1) ≡ false = ground arith in
    let j = Matches-joined m (p ∷ q ∷ ps) (c ∷ cs) h in
    let fits : ltb (total_allocated (suc (suc (length ps))) (c ∷ cs)) (length (concat (p ∷ q ∷ ps)))
        ≡ false =
      ground (arith, (total_bounds m (p ∷ q ∷ ps) (c ∷ cs) h bound).0) in
    rw (several, j, fits) (_, refl)

-- what is read after the pieces have been received
pub record Reads (pieces : List (List ℕ)) (d : DynamicBytes) : Type 0 where
  pub filled : DynamicBytes
  pub after : DynamicBytes
  pub received : receive pieces d ≡ some filled
  pub read : set_bytes_from_dynamic_bytes true filled ≡ some (ok (concat pieces), after)

-- Where dynamic bytes are emptied and their chunks have no memory or between 65536 bytes and `m`, and
-- memory is found, the pieces of a value, at least one and each of at most 65536 bytes, are received
-- within the memory of the chunks, and the bytes that are read are the pieces joined. The pieces
-- times `m` must stay below 2^32.
pub receive-Reads :
    (m : ℕ) (piece : List ℕ) (pieces : List (List ℕ)) (d : DynamicBytes)
    → chunk_size ≤ m
    → length (piece ∷ pieces) * m < 4294967296
    → Holds m [] d
    → All (λ p. length p ≤ chunk_size) (piece ∷ pieces)
    → Reads (piece ∷ pieces) d
receive-Reads m piece pieces d le bound h small =
    let (d₁, received, h₁) = receive-Holds m (piece ∷ pieces) [] d le h small in
    let (d₂, joins) = joined_fields m piece pieces d₁.allocated_chunks d₁.chunks bound h₁.held in
    record {
      filled = d₁;
      after = d₂;
      received = received;
      read =
          subst
            (λ n.
              set_bytes_from_dynamic_bytes true (record {
                num_chunks = n;
                allocated_chunks = d₁.allocated_chunks;
                chunks = d₁.chunks;
              })
              ≡ some (ok (concat (piece ∷ pieces)), d₂))
            (sym h₁.counted) joins;
    }
