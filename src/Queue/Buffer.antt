-- ===== src/Queue/Buffer.antt =====
-- The memory of the buffer of a queue: `dpiQueueBuffer` of odpi/src/dpiImpl.h, `dpiQueue__freeBuffer` and
-- `dpiQueue__allocateBuffer` of odpi/src/dpiQueue.c. A pointer is the number of a block of memory. `none`
-- stands for a block that is freed again.
use godror.Base.{
  ℕ, ◌+◌, Bool, true, false, Option, none, some, List, [], ◌∷◌, ◌++◌, ◌==◌, if◌then◌else◌,
  replicate, Result, ok, err, no_memory,
}

-- The blocks that are allocated, the number of the next one, and for how many elements a block was
-- allocated.
pub record Memory : Type 0 where
  pub live : List ℕ
  pub next : ℕ
  pub sizes : ℕ → ℕ

abbrev pub remove : ℕ → List ℕ → List ℕ
remove p [] = []
remove p (q ∷ qs) = if p == q then qs else q ∷ remove p qs

abbrev pub is_live : ℕ → List ℕ → Bool
is_live p [] = false
is_live p (q ∷ qs) = if p == q then true else is_live p qs

-- `dpiUtils__freeMemory`
unfoldable pub free : ℕ → Memory → Option Memory
free p m = if is_live p m.live then some (record m { live = remove p m.live }) else none

-- `if (ptr) dpiUtils__freeMemory(ptr)`
unfoldable pub free_pointer : Option ℕ → Memory → Option Memory
unfolding free
free_pointer none m = some m
free_pointer (some p) m = free p m

-- dpiQueueBuffer; `props` holds the message properties, by their handles
pub record QueueBuffer : Type 0 where
  pub num_elements : ℕ
  pub props : Option ℕ
  pub held : List (Option ℕ)
  pub handles : Option ℕ
  pub instances : Option ℕ
  pub indicators : Option ℕ
  pub scalar_indicators : Option ℕ
  pub msg_ids : Option ℕ

-- The buffer with the memory, and the message properties of which a reference was released.
pub record Space : Type 0 where
  pub buffer : QueueBuffer
  pub memory : Memory
  pub released : List ℕ

abbrev pub then_some {ℓ κ} : {A : Type ℓ} {B : Type κ} → Option A → (A → Option B) → Option B
then_some none f = none
then_some (some a) f = f a

-- the message properties that there are
abbrev pub present : List (Option ℕ) → List ℕ
present [] = []
present (none ∷ ps) = present ps
present (some p ∷ ps) = p ∷ present ps

-- the references that the array of message properties holds released
unfoldable pub release_held : Space → Space
release_held s = elim s.buffer.props [
  | none ↦ s
  | some p ↦ record s {
    buffer = record s.buffer { held = [] };
    released = s.released ++ present s.buffer.held;
  }
]

-- The arrays freed. What the scalar indicators are freed for, another pointer is set to NULL.
unfoldable pub free_arrays : Space → Option Space
unfolding free_pointer
free_arrays r =
    let b = r.buffer in
    then_some (free_pointer b.props r.memory) λ m₁. then_some (free_pointer b.handles m₁) λ m₂.
      then_some (free_pointer b.instances m₂) λ m₃. then_some (free_pointer b.indicators m₃) λ m₄.
        then_some (free_pointer b.scalar_indicators m₄) λ m₅.
          then_some (free_pointer b.msg_ids m₅) λ m₆. some (record r {
            memory = m₆;
            buffer = record b {
              props = none;
              handles = none;
              instances = none;
              indicators = none;
              msg_ids = none;
            };
          })

-- `dpiQueue__freeBuffer`
unfoldable pub free_buffer : Space → Option Space
unfolding release_held free_arrays
free_buffer s = free_arrays (release_held s)

-- `dpiUtils__allocateMemory` for a number of elements, given whether memory is found
abbrev pub new_block : Bool → ℕ → Memory → Option ℕ × Memory
new_block false n m = (none, m)
new_block true n m = (
  some m.next,
  record m {
    live = m.next ∷ m.live;
    next = m.next + 1;
    sizes = λ p. if p == m.next then n else m.sizes p;
  },
)

abbrev pub outcome : Option ℕ → Result (Unit {0})
outcome none = err no_memory
outcome (some p) = ok tt

-- One array of the buffer allocated, whose pointer `put` sets: what follows is done where memory was
-- found.
abbrev pub allocate_array :
    Bool
    → ℕ
    → (Option ℕ → QueueBuffer → QueueBuffer)
    → (Space → Result (Unit {0}) × Space)
    → Space
    → Result (Unit {0}) × Space
allocate_array found n put next s =
    let (p, m) = new_block found n s.memory in
    let s' = record s { buffer = put p s.buffer; memory = m } in
    elim p [ none ↦ (err no_memory, s') | some q ↦ next s' ]

-- whether memory is found for each of the arrays
pub record Found : Type 0 where
  pub props : Bool
  pub handles : Bool
  pub instances : Bool
  pub indicators : Bool
  pub scalar_indicators : Bool
  pub msg_ids : Bool

abbrev pub put_props : ℕ → Option ℕ → QueueBuffer → QueueBuffer
put_props n none b = record b { props = none }
put_props n (some p) b = record b { props = some p; held = replicate n none }

-- the arrays of a buffer that holds no pointers, for a queue with a payload type or without
unfoldable pub allocate_arrays : Found → Bool → ℕ → Space → Result (Unit {0}) × Space
allocate_arrays found has_payload_type n = allocate_array found.props n (put_props n) (
    allocate_array found.handles n (λ p b. record b { handles = p })
      (allocate_array found.instances n (λ p b. record b { instances = p })
        (allocate_array found.indicators n (λ p b. record b { indicators = p })
          (if has_payload_type
            then allocate_array found.msg_ids n (λ p b. record b { msg_ids = p }) (λ s. (ok tt, s))
            else allocate_array found.scalar_indicators n
                (λ p b. record b { scalar_indicators = p })
                (allocate_array found.msg_ids n (λ p b. record b { msg_ids = p })
                  (λ s. (ok tt, s)))))))

-- `dpiQueue__allocateBuffer`
unfoldable pub allocate_buffer : Found → Bool → ℕ → Space → Option (Result (Unit {0}) × Space)
unfolding free_buffer allocate_arrays
allocate_buffer found has_payload_type n s = then_some (free_buffer s) λ s'. some (
    allocate_arrays found has_payload_type n
      (record s' { buffer = record s'.buffer { num_elements = n } }))
