-- ===== src/Handles/Queue.antt =====
-- The handle pool as a queue of the handles that were given back, the oldest first.
use godror.Base.{
  ℕ, suc, ◌+◌, ◌<◌, ◌≡◌, ◌≢◌, ◌⊎◌, refl, ap, sym, ◌∙◌, Bool, true, false, Option, none, some, List,
  [], ◌∷◌, ◌++◌, ◌==◌, length, length-append, length-set, get_or, get_or-set_self, get_or-set_ne,
  set, replicate, Result, ok, err, no_memory, arith,
}
use godror.Handles.Cursor.{
  next_slot, next_slot-lt, advance, advance-next, advance-lt, advance-ne, advance-apart,
  advance-full,
}
use godror.Handles.Pool.{HandlePool, acquire, create, release}

-- the slots from `pos` on hold the queue
abbrev pub Window : List (Option ℕ) → ℕ → ℕ → List ℕ → Type 0
Window handles n pos [] = Unit {0}
Window handles n pos (h ∷ q) =
    (get_or handles pos none ≡ some h) × Window handles n (next_slot n pos) q

pub record Holds (p : HandlePool) (q : List ℕ) : Type 0 where
  pub sized : length p.handles ≡ p.num_slots
  pub acquire_in : p.acquire_pos < p.num_slots
  pub window : Window p.handles p.num_slots p.acquire_pos q
  pub release_at : p.release_pos ≡ advance p.num_slots p.acquire_pos (length q)
  pub room : length q < p.num_slots

Window-set :
    (handles : List (Option ℕ)) (n pos i : ℕ) (v : Option ℕ) (q : List ℕ)
    → ((j : ℕ) → j < length q → advance n pos j ≢ i)
    → Window handles n pos q
    → Window (set handles i v) n pos q
unfolding advance
Window-set handles n pos i v [] h w = tt
Window-set handles n pos i v (x ∷ q) h w = (
  get_or-set_ne handles i pos v none (λ e. h 0 (omega arith) (sym e)) ∙ w.0,
  Window-set handles n (next_slot n pos) i v q (λ j l. h (suc j) (omega arith)) w.1,
)

Window-append :
    (handles : List (Option ℕ)) (n pos h : ℕ) (q : List ℕ)
    → Window handles n pos q
    → get_or handles (advance n pos (length q)) none ≡ some h
    → Window handles n pos (q ++ h ∷ [])
unfolding advance
Window-append handles n pos h [] w e = (e, tt)
Window-append handles n pos h (x ∷ q) w e =
    (w.0, Window-append handles n (next_slot n pos) h q w.1 e)

length_snoc : (q : List ℕ) (x : ℕ) → length (q ++ x ∷ []) ≡ suc (length q)
length_snoc q x = omega (arith, length-append q (x ∷ []))

-- A new pool holds no handle.
pub create-Holds : (p : HandlePool) → create true true ≡ ok p → Holds p []
unfolding create advance
create-Holds p e = ground arith

-- what the queue gives, and what it keeps
abbrev pub front : List ℕ → Option ℕ
front [] = none
front (h ∷ q) = some h

abbrev pub behind : List ℕ → List ℕ
behind [] = []
behind (h ∷ q) = q

length-grow : (xs : List (Option ℕ)) → length (xs ++ replicate 8 none) ≡ length xs + 8
length-grow xs = length-append xs (replicate 8 none)

acquire-none : (a : Bool) (p : HandlePool) → Holds p [] → Holds (acquire a p).1 []
unfolding acquire advance
acquire-none a p h = ground (arith, length-grow p.handles)

acquire-fresh :
    (a : Bool) (p : HandlePool)
    → Holds p []
    → ((acquire a p).0 ≡ ok none) ⊎ ((acquire a p).0 ≡ err no_memory)
unfolding acquire advance
acquire-fresh a p h = ground arith

acquire-some :
    (a : Bool) (p : HandlePool) (x : ℕ) (q : List ℕ)
    → Holds p (x ∷ q)
    → ((acquire a p).0 ≡ ok (some x)) × Holds (acquire a p).1 q
unfolding acquire advance
acquire-some a p x q h = rw busy (
  ap ok h.window.0,
  record {
    sized = length-set p.handles p.acquire_pos none ∙ h.sized;
    acquire_in = next_slot-lt p.num_slots p.acquire_pos h.acquire_in;
    window =
        Window-set p.handles p.num_slots (next_slot p.num_slots p.acquire_pos) p.acquire_pos none q
          apart h.window.1;
    release_at = h.release_at;
    room = omega (arith, h.room);
  },
)
  where
    busy : (p.acquire_pos == p.release_pos) ≡ false
    busy = ground (
      arith,
      h.release_at,
      advance-ne p.num_slots p.acquire_pos (suc (length q)) h.acquire_in (omega arith) h.room,
    )

    apart :
        (j : ℕ)
        → j < length q
        → advance p.num_slots (next_slot p.num_slots p.acquire_pos) j ≢ p.acquire_pos
    apart j l =
        advance-ne p.num_slots p.acquire_pos (suc j) h.acquire_in (omega arith)
          (omega (arith, h.room))

-- what a caller is told when it asks for a handle
abbrev pub Gives : List ℕ → Result (Option ℕ) → Type 0
Gives (x ∷ q) r = r ≡ ok (some x)
Gives [] r = (r ≡ ok none) ⊎ (r ≡ err no_memory)

-- `dpiHandlePool__acquire` takes the handle that was given back first; only where there is none it
-- tells the caller to make one, or that there is no memory. The pool then holds the others.
pub acquire_refines :
    (a : Bool) (p : HandlePool) (q : List ℕ)
    → Holds p q
    → Gives q (acquire a p).0 × Holds (acquire a p).1 (behind q)
acquire_refines a p [] h = (acquire-fresh a p h, acquire-none a p h)
acquire_refines a p (x ∷ q) h = acquire-some a p x q h

release_parts :
    (p : HandlePool) (q : List ℕ) (x : ℕ)
    → Holds p q
    → let p' = (release p (some x)).0 in
      (length p'.handles ≡ p.num_slots)
      × (p'.release_pos ≡ advance p.num_slots p.acquire_pos (suc (length q)))
      × Window p'.handles p.num_slots p.acquire_pos (q ++ x ∷ [])
unfolding release
release_parts p q x h = (
  length-set p.handles p.release_pos (some x) ∙ h.sized,
  ap (next_slot p.num_slots) h.release_at ∙ sym (advance-next p.num_slots p.acquire_pos (length q)),
  Window-append (set p.handles p.release_pos (some x)) p.num_slots p.acquire_pos x q kept here,
)
  where
    at_lt : p.release_pos < p.num_slots
    at_lt = rw h.release_at (advance-lt p.num_slots p.acquire_pos (length q) h.acquire_in)

    apart : (j : ℕ) → j < length q → advance p.num_slots p.acquire_pos j ≢ p.release_pos
    apart j l =
        rw h.release_at (advance-apart p.num_slots p.acquire_pos j (length q) h.acquire_in l h.room)

    kept : Window (set p.handles p.release_pos (some x)) p.num_slots p.acquire_pos q
    kept = Window-set p.handles p.num_slots p.acquire_pos p.release_pos (some x) q apart h.window

    here :
        get_or
          (set p.handles p.release_pos (some x))
          (advance p.num_slots p.acquire_pos (length q))
          none
        ≡ some x
    here =
        rw (← h.release_at)
          (get_or-set_self p.handles p.release_pos (some x) none (rw h.sized at_lt))

-- `dpiHandlePool__release` puts the handle behind the others and clears the caller's pointer, as
-- long as a slot of the array stays free.
pub release_refines :
    (p : HandlePool) (q : List ℕ) (x : ℕ)
    → Holds p q
    → suc (length q) < p.num_slots
    → Holds (release p (some x)).0 (q ++ x ∷ []) × ((release p (some x)).1 ≡ none)
unfolding release
release_refines p q x h r =
    let (sized, at, window) = release_parts p q x h in
    (
      record {
        sized = sized;
        acquire_in = h.acquire_in;
        window = window;
        release_at = at ∙ ap (advance p.num_slots p.acquire_pos) (sym (length_snoc q x));
        room = rw (length_snoc q x) r;
      },
      refl,
    )

release-full :
    (p : HandlePool) (q : List ℕ) (x : ℕ)
    → Holds p q
    → suc (length q) ≡ p.num_slots
    → Holds (release p (some x)).0 []
unfolding release advance
release-full p q x h r =
    let (sized, at, window) = release_parts p q x h in
    record {
      sized = sized;
      acquire_in = h.acquire_in;
      window = tt;
      release_at = at ∙ rw r (advance-full p.num_slots p.acquire_pos h.acquire_in);
      room = omega (arith, h.acquire_in);
    }

-- Where the handle takes the last free slot, the full array looks empty: the pool holds no handle,
-- and the next caller is given none of those that are there.
pub release_full_loses :
    (a : Bool) (p : HandlePool) (q : List ℕ) (x : ℕ)
    → Holds p q
    → suc (length q) ≡ p.num_slots
    → Holds (release p (some x)).0 [] × Gives [] (acquire a (release p (some x)).0).0
release_full_loses a p q x h r =
    (release-full p q x h r, acquire-fresh a (release p (some x)).0 (release-full p q x h r))
