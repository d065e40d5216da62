-- ===== src/Var/Matches.antt =====
-- The chunks that hold the pieces of a value, in order.
use godror.Base.{
  ℕ, suc, ◌+◌, ◌*◌, ◌≤◌, ◌<◌, ◌≡◌, refl, ap₂, Option, none, some, List, [], ◌∷◌, ◌++◌, length,
  length-append, get_or, set, All, All-append, arith,
}
use godror.Var.Chunks.{
  Block, Chunk, DynamicBytes, empty_chunk, chunk_size, chunk_bytes, joined, total_allocated,
}

abbrev pub concat : List (List ℕ) → List ℕ
concat [] = []
concat (piece ∷ pieces) = piece ++ concat pieces

-- a chunk that can be offered: it has no memory yet, or at least as much as a new one, and at most `m`
abbrev pub OfferedPtr : ℕ → Option Block → ℕ → Type 0
OfferedPtr m none n = Unit
OfferedPtr m (some block) n = (block.capacity ≡ n) × (chunk_size ≤ n) × (n ≤ m)

abbrev pub IsOffered : ℕ → Chunk → Type 0
IsOffered m c = OfferedPtr m c.ptr c.allocated_length

-- The first chunks hold the pieces, and the others can be offered.
abbrev pub Matches : ℕ → List (List ℕ) → List Chunk → Type 0
Matches m [] cs = All (IsOffered m) cs
Matches m (p ∷ ps) [] = ⊥
Matches m (p ∷ ps) (c ∷ cs) =
    (chunk_bytes c ≡ p)
    × (length p ≤ c.allocated_length)
    × (c.allocated_length ≤ m)
    × Matches m ps cs

pub record Holds (m : ℕ) (pieces : List (List ℕ)) (d : DynamicBytes) : Type 0 where
  pub counted : d.num_chunks ≡ length pieces
  pub allocated : d.allocated_chunks ≡ length d.chunks
  pub held : Matches m pieces d.chunks

pub Matches-le :
    (m : ℕ) (ps : List (List ℕ)) (cs : List Chunk) → Matches m ps cs → length ps ≤ length cs
Matches-le m [] cs h = omega arith
Matches-le m (p ∷ ps) [] h = absurd h
Matches-le m (p ∷ ps) (c ∷ cs) (e, l, b, h) = omega (arith, Matches-le m ps cs h)

pub Matches-get :
    (m : ℕ) (ps : List (List ℕ)) (cs : List Chunk)
    → Matches m ps cs
    → IsOffered m (get_or cs (length ps) empty_chunk)
Matches-get m [] [] h = tt
Matches-get m [] (c ∷ cs) h = h.0
Matches-get m (p ∷ ps) [] h = absurd h
Matches-get m (p ∷ ps) (c ∷ cs) (e, l, b, h) = Matches-get m ps cs h

pub Matches-set :
    (m : ℕ) (ps : List (List ℕ)) (cs : List Chunk) (p : List ℕ) (c' : Chunk)
    → Matches m ps cs
    → length ps < length cs
    → chunk_bytes c' ≡ p
    → length p ≤ c'.allocated_length
    → c'.allocated_length ≤ m
    → Matches m (ps ++ p ∷ []) (set cs (length ps) c')
Matches-set m [] [] p c' h lt e l b = absurd (omega arith)
Matches-set m [] (c ∷ cs) p c' h lt e l b = (e, l, b, h.1)
Matches-set m (q ∷ ps) [] p c' h lt e l b = absurd h
Matches-set m (q ∷ ps) (c ∷ cs) p c' (e₁, l₁, b₁, h) lt e l b =
    (e₁, l₁, b₁, Matches-set m ps cs p c' h (omega arith) e l b)

pub Matches-append :
    (m : ℕ) (ps : List (List ℕ)) (cs ds : List Chunk)
    → Matches m ps cs
    → All (IsOffered m) ds
    → Matches m ps (cs ++ ds)
Matches-append m [] cs ds h k = All-append (IsOffered m) cs ds h k
Matches-append m (p ∷ ps) [] ds h k = absurd h
Matches-append m (p ∷ ps) (c ∷ cs) ds (e, l, b, h) k = (e, l, b, Matches-append m ps cs ds h k)

pub Matches-joined :
    (m : ℕ) (ps : List (List ℕ)) (cs : List Chunk)
    → Matches m ps cs
    → joined (length ps) cs ≡ concat ps
Matches-joined m [] cs h = refl
Matches-joined m (p ∷ ps) [] h = absurd h
Matches-joined m (p ∷ ps) (c ∷ cs) (e, l, b, h) = ap₂ (λ x y. x ++ y) e (Matches-joined m ps cs h)

-- The memory that is allocated for the joined value is large enough for it.
pub total_bounds :
    (m : ℕ) (ps : List (List ℕ)) (cs : List Chunk)
    → Matches m ps cs
    → length ps * m < 4294967296
    → (length (concat ps) ≤ total_allocated (length ps) cs)
      × (total_allocated (length ps) cs ≤ length ps * m)
total_bounds m [] cs h lt = omega arith
total_bounds m (p ∷ ps) [] h lt = absurd h
total_bounds m (p ∷ ps) (c ∷ cs) (e, l, b, h) lt =
    let unfold_mul : suc (length ps) * m ≡ m + length ps * m = grind arith in
    let ih = total_bounds m ps cs h (omega (arith, unfold_mul)) in
    omega (arith, unfold_mul, ih, length-append p (concat ps))
