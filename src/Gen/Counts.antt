-- ===== src/Gen/Counts.antt =====
-- Calls that add and release references, against a number of references.
use godror.Base.{
  ℕ, zero, suc, ◌+◌, ◌<◌, ◌≡◌, refl, ap₂, Bool, true, false, Bool-cases, inl, inr, Option, none,
  some, List, [], ◌∷◌, length, ltb, if◌then◌else◌, ◌==◌, pos, negsuc, Result, ok, eq→==, ◌≤◌, ℤ,
  arith,
}
use godror.Gen.Types.{
  HandleType, conn, pool, stmt, var, lob, object, object_type, object_attr, subscr, deq_options,
  enq_options, msg_props, rowid, context, soda_coll, soda_coll_cursor, soda_db, soda_doc,
  soda_doc_cursor, queue, json, vector, type_index, type_check_int,
}
use godror.Gen.Handle.{
  Base, allocate, check_handle, start_public_fn, add_count, set_ref_count, change_count, add_ref,
  release,
}

-- what a caller may do with a handle that it holds
pub data Call : Type 0 where
  adds releases : Call

-- A call on a handle: `none` where its memory is gone, since the free procedure of its type has freed it.
unfoldable pub step : Call → HandleType → Base → Option (Result (Unit {0}) × Base)
unfolding add_ref release
step c type value =
    if ltb 0 value.frees
    then none
    else some (elim c [ adds ↦ add_ref (ok tt) value type | releases ↦ release (ok tt) value type ])

-- one result more in front of those of the other calls
abbrev pub in_front :
    {A : Type 0}
    → Result (Unit {0})
    → Option (List (Result (Unit {0})) × A)
    → Option (List (Result (Unit {0})) × A)
in_front r none = none
in_front r (some (rs, a)) = some (r ∷ rs, a)

abbrev pub then_run :
    {A : Type 0}
    → (A → Option (List (Result (Unit {0})) × A))
    → Option (Result (Unit {0}) × A)
    → Option (List (Result (Unit {0})) × A)
then_run next none = none
then_run next (some (r, a)) = in_front r (next a)

-- the results of the calls, in order, and the handle after them
unfoldable pub run : List Call → HandleType → Base → Option (List (Result (Unit {0})) × Base)
unfolding step
run [] type value = some ([], value)
run (c ∷ cs) type value = then_run (run cs type) (step c type value)

-- The specification: a number of references; nothing may be asked of a handle once there are none.
unfoldable pub spec_step : Call → ℕ → Option (Result (Unit {0}) × ℕ)
spec_step c zero = none
spec_step adds (suc n) = some (ok tt, suc (suc n))
spec_step releases (suc n) = some (ok tt, n)

unfoldable pub spec_run : List Call → ℕ → Option (List (Result (Unit {0})) × ℕ)
unfolding spec_step
spec_run [] n = some ([], n)
spec_run (c ∷ cs) n = then_run (spec_run cs) (spec_step c n)

-- what a handle holds and how often it was freed, with `n` references to it
abbrev pub live_check : HandleType → ℕ → ℕ
live_check type zero = 0
live_check type (suc n) = type_check_int type

abbrev pub freed_for : ℕ → ℕ
freed_for zero = 1
freed_for (suc n) = 0

-- The handle stands for `n` references: it has been freed, once, just if there are none.
pub record Counted (type : HandleType) (n : ℕ) (value : Base) : Type 0 where
  pub same_type : value.type_def ≡ type
  pub count : value.ref_count ≡ n
  pub check : value.check_int ≡ live_check type n
  pub freed : value.frees ≡ freed_for n

-- No type has the check integer 0.
type_check_int_nonzero : (type : HandleType) → (0 == type_check_int type) ≡ false
unfolding type_check_int
type_check_int_nonzero conn = refl
type_check_int_nonzero pool = refl
type_check_int_nonzero stmt = refl
type_check_int_nonzero var = refl
type_check_int_nonzero lob = refl
type_check_int_nonzero object = refl
type_check_int_nonzero object_type = refl
type_check_int_nonzero object_attr = refl
type_check_int_nonzero subscr = refl
type_check_int_nonzero deq_options = refl
type_check_int_nonzero enq_options = refl
type_check_int_nonzero msg_props = refl
type_check_int_nonzero rowid = refl
type_check_int_nonzero context = refl
type_check_int_nonzero soda_coll = refl
type_check_int_nonzero soda_coll_cursor = refl
type_check_int_nonzero soda_db = refl
type_check_int_nonzero soda_doc = refl
type_check_int_nonzero soda_doc_cursor = refl
type_check_int_nonzero queue = refl
type_check_int_nonzero json = refl
type_check_int_nonzero vector = refl

start_held :
    (type : HandleType) (n : ℕ) (value : Base)
    → Counted type (suc n) value
    → start_public_fn (ok tt) (some value) type ≡ ok tt
unfolding start_public_fn check_handle
start_held type n value h =
    rw (h.check, h.same_type, eq→== (type_index type) _ refl, eq→== (type_check_int type) _ refl)
      refl

-- The count after a change.
set_ref_count-Counted :
    (type : HandleType) (n m : ℕ) (value : Base) (k : ℤ)
    → Counted type (suc n) value
    → add_count (suc n) k ≡ m
    → Counted type m (set_ref_count value k)
unfolding set_ref_count
set_ref_count-Counted type n zero value k h e =
    rw (h.count, e)
      (record {
        same_type = h.same_type;
        count = refl;
        check = refl;
        freed = omega (arith, h.freed);
      })
set_ref_count-Counted type n (suc m) value k h e =
    let held : (suc m == 0) ≡ false = ground arith in
    rw (h.count, e, held)
      (record { same_type = h.same_type; count = refl; check = h.check; freed = h.freed })

change_count_held :
    (type : HandleType) (n m : ℕ) (value : Base) (k : ℤ)
    → Counted type (suc n) value
    → add_count (suc n) k ≡ m
    → ((change_count k (ok tt) value type).0 ≡ ok tt)
      × Counted type m (change_count k (ok tt) value type).1
unfolding change_count
change_count_held type n m value k h e =
    rw (change_count, start_held type n value h) (refl, set_ref_count-Counted type n m value k h e)

-- What the calls do is what the specification says: the same results, and a handle that stands for the
-- references that are left, or on both sides a call on a handle that is gone.
abbrev pub Refines : {A : Type 0} → HandleType → Option (A × ℕ) → Option (A × Base) → Type 0
Refines type none none = Unit
Refines type none (some out) = ⊥
Refines type (some spec) none = ⊥
Refines type (some (rs, n)) (some (qs, value)) = (qs ≡ rs) × Counted type n value

step-Refines :
    (c : Call) (type : HandleType) (n : ℕ) (value : Base)
    → n + 1 < 4294967296
    → Counted type n value
    → Refines type (spec_step c n) (step c type value)
unfolding step add_ref release spec_step add_count
step-Refines c type zero value lt h =
    let gone : ltb 0 value.frees ≡ true = rw h.freed refl in rw gone tt
step-Refines adds type (suc n) value lt h =
    let live : ltb 0 value.frees ≡ false = rw h.freed refl in
    rw live (change_count_held type n (suc (suc n)) value (pos 1) h (omega arith))
step-Refines releases type (suc n) value lt h =
    let live : ltb 0 value.frees ≡ false = rw h.freed refl in
    rw live (change_count_held type n n value (negsuc 0) h (omega arith))

-- a step adds at most one reference
abbrev AtMostOneMore : ℕ → Option (Result (Unit {0}) × ℕ) → Type 0
AtMostOneMore n none = Unit
AtMostOneMore n (some (r, m)) = m ≤ n + 1

spec_step_le : (c : Call) (n : ℕ) → AtMostOneMore n (spec_step c n)
unfolding spec_step
spec_step_le c zero = tt
spec_step_le adds (suc n) = omega arith
spec_step_le releases (suc n) = omega arith

in_front-Refines :
    (type : HandleType) (q r : Result (Unit {0})) (spec : Option (List (Result (Unit {0})) × ℕ))
    (out : Option (List (Result (Unit {0})) × Base))
    → q ≡ r
    → Refines type spec out
    → Refines type (in_front r spec) (in_front q out)
in_front-Refines type q r none none e h = h
in_front-Refines type q r none (some out) e h = h
in_front-Refines type q r (some spec) none e h = h
in_front-Refines type q r (some spec) (some out) e h = (ap₂ (λ x xs. x ∷ xs) e h.0, h.1)

then_run-Refines :
    (type : HandleType) (n : ℕ) (spec : Option (Result (Unit {0}) × ℕ))
    (out : Option (Result (Unit {0}) × Base)) (f : ℕ → Option (List (Result (Unit {0})) × ℕ))
    (g : Base → Option (List (Result (Unit {0})) × Base))
    → AtMostOneMore n spec
    → Refines type spec out
    → ((m : ℕ) (value : Base) → m ≤ n + 1 → Counted type m value → Refines type (f m) (g value))
    → Refines type (then_run f spec) (then_run g out)
then_run-Refines type n none none f g le h next = tt
then_run-Refines type n none (some out) f g le h next = absurd h
then_run-Refines type n (some spec) none f g le h next = absurd h
then_run-Refines type n (some (r, m)) (some (q, value)) f g le h next =
    in_front-Refines type q r (f m) (g value) h.0 (next m value le h.1)

-- Any sequence of calls on a handle that stands for `n` references, fewer than 2^32 with those that
-- the calls may add, does what the specification says: while there are references every call succeeds,
-- the handle is freed, once, by the release of the last one and by no other call, and it is a call after
-- that, and no other, that meets memory that is gone.
pub run-Counted :
    (cs : List Call) (type : HandleType) (n : ℕ) (value : Base)
    → n + length cs < 4294967296
    → Counted type n value
    → Refines type (spec_run cs n) (run cs type value)
unfolding run spec_run
run-Counted [] type n value lt h = (refl, h)
run-Counted (c ∷ cs) type n value lt h =
    then_run-Refines type n (spec_step c n) (step c type value) (spec_run cs) (run cs type)
      (spec_step_le c n) (step-Refines c type n value (omega arith) h)
      (λ m next le counted. run-Counted cs type m next (omega arith) counted)

-- Where memory is found, a handle is made, and it stands for one reference.
pub allocate-Counted :
    (type : HandleType) (env : Bool)
    → (value : Base) × ((allocate type env true true ≡ ok value) × Counted type 1 value)
unfolding allocate type_index
allocate-Counted type true =
    (_, (refl, record { same_type = refl; count = refl; check = refl; freed = refl }))
allocate-Counted type false = elim (Bool-cases (type_index type == 13)) [
  | inl is_context ↦
      rw is_context
        (_, (refl, record { same_type = refl; count = refl; check = refl; freed = refl }))
  | inr other ↦
      rw other (_, (refl, record { same_type = refl; count = refl; check = refl; freed = refl }))
]
