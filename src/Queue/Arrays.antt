-- ===== src/Queue/Arrays.antt =====
-- How the buffer of a queue is freed and allocated again, in odpi/src/dpiQueue.c.
use godror.Base.{
  append-nil, ℕ, zero, suc, ◌+◌, ◌<◌, ◌≡◌, refl, ap, ◌∙◌, subst, Bool, true, false, Bool-cases,
  Option-cases, inl, inr, Option, none, some, List, [], ◌∷◌, ◌++◌, ◌==◌, All, Result, ok, err,
  no_memory, replicate, arith,
}
use godror.Queue.Buffer.{
  free_arrays, Memory, Space, Found, remove, is_live, free, free_pointer, then_some, present,
  release_held, free_buffer, allocate_arrays, allocate_buffer,
}

-- no block twice
abbrev pub AreDistinct : List ℕ → Type 0
AreDistinct [] = Unit
AreDistinct (p ∷ ps) = (is_live p ps ≡ false) × AreDistinct ps

dead-remove : (p q : ℕ) (ps : List ℕ) → is_live p ps ≡ false → is_live p (remove q ps) ≡ false
dead-remove p q [] h = refl
dead-remove p q (r ∷ rs) h = ground (arith, dead-remove p q rs)

AreDistinct-remove : (q : ℕ) (ps : List ℕ) → AreDistinct ps → AreDistinct (remove q ps)
AreDistinct-remove q [] h = tt
AreDistinct-remove q (r ∷ rs) h = elim (Bool-cases (q == r)) [
  | inl same ↦ rw same h.1
  | inr other ↦ rw other (dead-remove r q rs h.0, AreDistinct-remove q rs h.1)
]

remove-gone : (p : ℕ) (ps : List ℕ) → AreDistinct ps → is_live p (remove p ps) ≡ false
remove-gone p [] h = refl
remove-gone p (r ∷ rs) h = elim (Bool-cases (p == r)) [
  | inl same ↦ rw same (ground (arith, h.0))
  | inr other ↦ rw (other, other) (remove-gone p rs h.1)
]

then_some-some {ℓ κ} :
    {A : Type ℓ} {B : Type κ} (o : Option A) (f : A → Option B) (b : B)
    → then_some o f ≡ some b
    → (a : A) × (o ≡ some a) × (f a ≡ some b)
then_some-some none f b h = absurd (cc)
then_some-some (some a) f b h = (a, refl, h)

free-live : (p : ℕ) (m k : Memory) → free p m ≡ some k → k.live ≡ remove p m.live
unfolding free
free-live p m k h = elim (Bool-cases (is_live p m.live)) [
  | inl there ↦ ground arith
  | inr dead ↦ ground arith
]

pointer-AreDistinct :
    (o : Option ℕ) (m k : Memory)
    → free_pointer o m ≡ some k
    → AreDistinct m.live
    → AreDistinct k.live
unfolding free_pointer
pointer-AreDistinct none m k h d = let e : m ≡ k = cc in subst (λ x. AreDistinct x.live) e d
pointer-AreDistinct (some p) m k h d = rw (free-live p m k h) (AreDistinct-remove p m.live d)

pointer-dead :
    (o : Option ℕ) (p : ℕ) (m k : Memory)
    → free_pointer o m ≡ some k
    → is_live p m.live ≡ false
    → is_live p k.live ≡ false
unfolding free_pointer
pointer-dead none p m k h d = let e : m ≡ k = cc in subst (λ x. is_live p x.live ≡ false) e d
pointer-dead (some q) p m k h d = rw (free-live q m k h) (dead-remove p q m.live d)

freed-dead :
    (p : ℕ) (m k : Memory)
    → free_pointer (some p) m ≡ some k
    → AreDistinct m.live
    → is_live p k.live ≡ false
unfolding free_pointer
freed-dead p m k h d = rw (free-live p m k h) (remove-gone p m.live d)

some-inj {ℓ} : {A : Type ℓ} (a b : A) → some a ≡ some b → a ≡ b
some-inj a b h = cc

-- What freeing the buffer leaves: no pointers but that to the scalar indicators, which are gone.
pub record IsFreed (s t : Space) : Type 0 where
  pub no_props : t.buffer.props ≡ none
  pub no_handles : t.buffer.handles ≡ none
  pub no_instances : t.buffer.instances ≡ none
  pub no_indicators : t.buffer.indicators ≡ none
  pub no_msg_ids : t.buffer.msg_ids ≡ none
  pub dangling : t.buffer.scalar_indicators ≡ s.buffer.scalar_indicators
  pub gone : (p : ℕ) → s.buffer.scalar_indicators ≡ some p → is_live p t.memory.live ≡ false
  pub distinct : AreDistinct t.memory.live

free_arrays-IsFreed :
    (s t : Space) → AreDistinct s.memory.live → free_arrays s ≡ some t → IsFreed s t
unfolding free_arrays
free_arrays-IsFreed s t d h =
    let b = s.buffer in
    let (m₁, e₁, h₁) = then_some-some (free_pointer b.props s.memory) _ t h in
    let (m₂, e₂, h₂) = then_some-some (free_pointer b.handles m₁) _ t h₁ in
    let (m₃, e₃, h₃) = then_some-some (free_pointer b.instances m₂) _ t h₂ in
    let (m₄, e₄, h₄) = then_some-some (free_pointer b.indicators m₃) _ t h₃ in
    let (m₅, e₅, h₅) = then_some-some (free_pointer b.scalar_indicators m₄) _ t h₄ in
    let (m₆, e₆, h₆) = then_some-some (free_pointer b.msg_ids m₅) _ t h₅ in
    let d₁ = pointer-AreDistinct b.props s.memory m₁ e₁ d in
    let d₂ = pointer-AreDistinct b.handles m₁ m₂ e₂ d₁ in
    let d₃ = pointer-AreDistinct b.instances m₂ m₃ e₃ d₂ in
    let d₄ = pointer-AreDistinct b.indicators m₃ m₄ e₄ d₃ in
    let d₅ = pointer-AreDistinct b.scalar_indicators m₄ m₅ e₅ d₄ in
    subst (IsFreed s) (some-inj _ t h₆) (record {
      no_props = refl;
      no_handles = refl;
      no_instances = refl;
      no_indicators = refl;
      no_msg_ids = refl;
      dangling = refl;
      gone = λ p e.
          pointer-dead b.msg_ids p m₅ m₆ e₆
            (freed-dead p m₄ m₅ (subst (λ o. free_pointer o m₄ ≡ some m₅) e e₅) d₄);
      distinct = pointer-AreDistinct b.msg_ids m₅ m₆ e₆ d₅;
    })

released-memory : (s : Space) → (release_held s).memory ≡ s.memory
unfolding release_held
released-memory s = elim (Option-cases s.buffer.props) [
  | inl null ↦ rw (null, release_held) refl
  | inr (p, there) ↦ rw (there, release_held) refl
]

released-scalar :
    (s : Space) → (release_held s).buffer.scalar_indicators ≡ s.buffer.scalar_indicators
unfolding release_held
released-scalar s = elim (Option-cases s.buffer.props) [
  | inl null ↦ rw (null, release_held) refl
  | inr (p, there) ↦ rw (there, release_held) refl
]

-- A pointer to the scalar indicators that is left when they are gone is freed again.
free_again :
    (p : ℕ) (u : Space)
    → u.buffer.props ≡ none
    → u.buffer.handles ≡ none
    → u.buffer.instances ≡ none
    → u.buffer.indicators ≡ none
    → u.buffer.scalar_indicators ≡ some p
    → is_live p u.memory.live ≡ false
    → free_buffer u ≡ none
unfolding free_buffer free
free_again p u e₁ e₂ e₃ e₄ e₅ dead = rw (e₁, release_held) (rw (e₁, e₂, e₃, e₄, e₅, dead) refl)

-- Where the buffer of a queue of RAW or JSON messages has been in use, and memory is not found for a larger
-- one, the call fails with `no_memory`, and freeing the buffer after that, as the next call and the release
-- of the queue do, frees the block of the scalar indicators again.
pub allocate_buffer_faults :
    (found : Found) (has_payload_type : Bool) (n p : ℕ) (s t : Space)
    → AreDistinct s.memory.live
    → s.buffer.scalar_indicators ≡ some p
    → free_buffer s ≡ some t
    → found.props ≡ false
    → (u : Space) × (allocate_buffer found has_payload_type n s ≡ some (err no_memory, u))
      × (free_buffer u ≡ none)
unfolding allocate_buffer
allocate_buffer_faults found has_payload_type n p s t d scalar freed lacking =
    let f = free_arrays-IsFreed (release_held s) t (rw (released-memory s) d) freed in
    let u = record t { buffer = record t.buffer { num_elements = n; props = none } } in
    (
      u,
      rw (freed, lacking) refl,
      free_again p u refl f.no_handles f.no_instances f.no_indicators
          (f.dangling ∙ released-scalar s ∙ scalar) (f.gone p (released-scalar s ∙ scalar)),
    )

-- A block that was allocated before others is freed.
is_live-last : (p : ℕ) (qs ps : List ℕ) → is_live p (qs ++ (p ∷ ps)) ≡ true
is_live-last p [] ps = ground arith
is_live-last p (q ∷ qs) ps = ground (arith, is_live-last p qs ps)

remove-last : (p : ℕ) (qs ps : List ℕ) → All (λ q. p < q) qs → remove p (qs ++ (p ∷ ps)) ≡ qs ++ ps
remove-last p [] ps h = ground arith
remove-last p (q ∷ qs) ps h = ground (arith, h.0, remove-last p qs ps h.1)

free-last :
    (p k : ℕ) (sizes : ℕ → ℕ) (qs ps : List ℕ)
    → All (λ q. p < q) qs
    → free p (record { live = qs ++ (p ∷ ps); next = k; sizes = sizes })
      ≡ some (record { live = qs ++ ps; next = k; sizes = sizes })
unfolding free
free-last p k sizes qs ps h = rw (is_live-last p qs ps, remove-last p qs ps h) refl

-- An array of the buffer: a pointer to a block that is allocated, for `n` elements.
pub record IsArray (n : ℕ) (m : Memory) (pointer : Option ℕ) : Type 0 where
  pub block : ℕ
  pub points : pointer ≡ some block
  pub live : is_live block m.live ≡ true
  pub size : m.sizes block ≡ n

-- a buffer of six arrays, each for `n` elements
pub record HasArrays (n : ℕ) (u : Space) : Type 0 where
  pub props : IsArray n u.memory u.buffer.props
  pub handles : IsArray n u.memory u.buffer.handles
  pub instances : IsArray n u.memory u.buffer.instances
  pub indicators : IsArray n u.memory u.buffer.indicators
  pub scalar_indicators : IsArray n u.memory u.buffer.scalar_indicators
  pub msg_ids : IsArray n u.memory u.buffer.msg_ids

-- A buffer that was allocated for `n` messages: its arrays are there, the places of the message
-- properties are empty, and freeing it leaves what there was.
pub data IsReady (n : ℕ) (t : Space) : Option (Result (Unit {0}) × Space) → Type 0 where
  ready :
      (u v : Space)
      → u.buffer.num_elements ≡ n
      → u.buffer.held ≡ replicate n none
      → HasArrays n u
      → u.released ≡ t.released
      → free_buffer u ≡ some v
      → v.memory.live ≡ t.memory.live
      → v.released ≡ t.released
      → IsReady n t (some (ok tt, u))

abbrev pub all_found : Found
all_found = record {
  props = true;
  handles = true;
  instances = true;
  indicators = true;
  scalar_indicators = true;
  msg_ids = true;
}

present-replicate : (n : ℕ) → present (replicate n none) ≡ []
present-replicate zero = refl
present-replicate (suc n) = present-replicate n

free_six :
    (n k : ℕ) (sizes : ℕ → ℕ) (t : Space)
    → let u : Space = record {
      buffer = record {
        num_elements = n;
        props = some k;
        held = replicate n none;
        handles = some (k + 1);
        instances = some (k + 1 + 1);
        indicators = some (k + 1 + 1 + 1);
        scalar_indicators = some (k + 1 + 1 + 1 + 1);
        msg_ids = some (k + 1 + 1 + 1 + 1 + 1);
      };
      memory = record {
        live =
            (k + 1 + 1 + 1 + 1 + 1)
            ∷ (k + 1 + 1 + 1 + 1)
            ∷ (k + 1 + 1 + 1)
            ∷ (k + 1 + 1)
            ∷ (k + 1)
            ∷ k
            ∷ t.memory.live;
        next = k + 1 + 1 + 1 + 1 + 1 + 1;
        sizes = sizes;
      };
      released = t.released;
    } in
      free_buffer u
      ≡ some (record t {
        memory = record { live = t.memory.live; next = k + 1 + 1 + 1 + 1 + 1 + 1; sizes = sizes };
        released = t.released ++ present (replicate n none);
        buffer = record {
          num_elements = n;
          props = none;
          held = [];
          handles = none;
          instances = none;
          indicators = none;
          scalar_indicators = some (k + 1 + 1 + 1 + 1);
          msg_ids = none;
        };
      })
unfolding free_buffer
free_six n k sizes t =
    let l = t.memory.live in
    let a = k + 1 in
    let b = a + 1 in
    let c = b + 1 in
    let d = c + 1 in
    let e = d + 1 in
    let f = e + 1 in
    rw
      (
        free-last k f sizes (e ∷ d ∷ c ∷ b ∷ a ∷ []) l (omega arith),
        free-last a f sizes (e ∷ d ∷ c ∷ b ∷ []) l (omega arith),
        free-last b f sizes (e ∷ d ∷ c ∷ []) l (omega arith),
        free-last c f sizes (e ∷ d ∷ []) l (omega arith),
        free-last d f sizes (e ∷ []) l (omega arith),
        free-last e f sizes [] l tt,
      )
      refl

-- Where the buffer of a queue of RAW or JSON messages can be freed and memory is found, allocating it for
-- `n` messages succeeds: each of its six arrays is a block that is allocated for `n` elements, the places
-- of the message properties are empty, and it can be freed again, which leaves what there was when
-- the old buffer was freed.
pub allocate_buffer-IsReady :
    (n : ℕ) (s t : Space)
    → AreDistinct s.memory.live
    → free_buffer s ≡ some t
    → IsReady n t (allocate_buffer all_found false n s)
unfolding allocate_buffer free_pointer
allocate_buffer-IsReady n s t d freed =
    let k = t.memory.next in
    let u =
      (allocate_arrays all_found false n
        (record t { buffer = record t.buffer { num_elements = n } })).1 in
    rw freed (
      ready u
        (record t {
          memory = record {
            live = t.memory.live;
            next = k + 1 + 1 + 1 + 1 + 1 + 1;
            sizes = u.memory.sizes;
          };
          released = t.released ++ present (replicate n none);
          buffer = record {
            num_elements = n;
            props = none;
            held = [];
            handles = none;
            instances = none;
            indicators = none;
            scalar_indicators = some (k + 1 + 1 + 1 + 1);
            msg_ids = none;
          };
        })
        refl refl
        (record {
          props = record { block = k; points = refl; live = ground arith; size = ground arith };
          handles = record {
            block = k + 1;
            points = refl;
            live = ground arith;
            size = ground arith;
          };
          instances = record {
            block = k + 1 + 1;
            points = refl;
            live = ground arith;
            size = ground arith;
          };
          indicators = record {
            block = k + 1 + 1 + 1;
            points = refl;
            live = ground arith;
            size = ground arith;
          };
          scalar_indicators = record {
            block = k + 1 + 1 + 1 + 1;
            points = refl;
            live = ground arith;
            size = ground arith;
          };
          msg_ids = record {
            block = k + 1 + 1 + 1 + 1 + 1;
            points = refl;
            live = ground arith;
            size = ground arith;
          };
        })
        refl (free_six n k u.memory.sizes t) refl
        (ap (λ (ps : List ℕ). t.released ++ ps) (present-replicate n) ∙ append-nil t.released))
