-- ===== src/Handles/Slots.antt =====
-- The handle list keeps count of the slots in use, and gives out none that is in use.
use godror.Base.{
  ℕ, zero, suc, ◌+◌, ◌<◌, ◌≤◌, ◌≡◌, ◌≢◌, refl, ap, sym, ◌∙◌, Bool, true, false, Bool-cases, inl,
  inr, Option, none, some, List, [], ◌∷◌, ◌++◌, ◌==◌, length, length-append, length-set, get_or,
  get_or-set_self, get_or-set_ne, set, replicate, ok, eq→==, ℕ_discrete, arith,
}
use godror.Handles.Cursor.{
  next_slot, next_slot-lt, advance, distance, advance-distance, distance-lt,
}
use godror.Handles.Table.{HandleList, is_free, find_slot, add_handle, remove_handle}

abbrev pub used : Option ℕ → ℕ
used none = 0
used (some h) = 1

abbrev pub count_used : List (Option ℕ) → ℕ
count_used [] = 0
count_used (x ∷ xs) = used x + count_used xs

pub record IsValid (l : HandleList) : Type 0 where
  pub sized : length l.handles ≡ l.num_slots
  pub counted : count_used l.handles ≡ l.num_used_slots
  pub pos_in : l.current_pos < l.num_slots

count_used-le : (xs : List (Option ℕ)) → count_used xs ≤ length xs
count_used-le [] = omega arith
count_used-le (none ∷ xs) = omega (arith, count_used-le xs)
count_used-le (some h ∷ xs) = omega (arith, count_used-le xs)

-- a slot that is free, where not all are in use
free_slot :
    (xs : List (Option ℕ))
    → count_used xs < length xs
    → (e : ℕ) × (e < length xs) × (get_or xs e none ≡ none)
free_slot [] h = absurd (omega arith)
free_slot (none ∷ xs) h = (0, omega arith, refl)
free_slot (some x ∷ xs) h = let (e, l, f) = free_slot xs (omega arith) in (suc e, omega arith, f)

count_used-set :
    (xs : List (Option ℕ)) (i : ℕ) (v : Option ℕ)
    → i < length xs
    → count_used (set xs i v) + used (get_or xs i none) ≡ count_used xs + used v
count_used-set [] i v h = absurd (omega arith)
count_used-set (x ∷ xs) zero v h = omega arith
count_used-set (x ∷ xs) (suc i) v h = omega (arith, count_used-set xs i v)

count_used-append :
    (xs ys : List (Option ℕ)) → count_used (xs ++ ys) ≡ count_used xs + count_used ys
count_used-append [] ys = omega arith
count_used-append (x ∷ xs) ys = omega (arith, count_used-append xs ys)

get_or-inside : (xs : List (Option ℕ)) (i h : ℕ) → get_or xs i none ≡ some h → i < length xs
get_or-inside [] i h e = cc
get_or-inside (x ∷ xs) zero h e = omega arith
get_or-inside (x ∷ xs) (suc i) h e = omega (arith, get_or-inside xs i h e)

-- The loop ends at a free slot if one lies within its rounds.
find_slot-free :
    (rounds j n pos : ℕ) (xs : List (Option ℕ))
    → pos < n
    → j < rounds
    → get_or xs (advance n pos j) none ≡ none
    → (get_or xs (find_slot rounds xs n pos) none ≡ none) × (find_slot rounds xs n pos < n)
unfolding find_slot advance
find_slot-free zero j n pos xs p h f = absurd (omega arith)
find_slot-free (suc rounds) zero n pos xs p h f = rw (f, is_free) (f, p)
find_slot-free (suc rounds) (suc j) n pos xs p h f =
    elim (Bool-cases (is_free (get_or xs pos none))) [
      | inl e ↦ rw e (free_none (get_or xs pos none) e, p)
      | inr e ↦
          rw e
            (find_slot-free rounds j n (next_slot n pos) xs (next_slot-lt n pos p) (omega arith) f)
    ]
  where
    free_none : (o : Option ℕ) → is_free o ≡ true → o ≡ none
    free_none none e = refl
    free_none (some h) e = cc

-- Cleared slots at the end read as the end of the array does.
get_or-grown :
    (xs : List (Option ℕ)) (n j : ℕ) → get_or (xs ++ replicate n none) j none ≡ get_or xs j none
get_or-grown [] zero j = refl
get_or-grown [] (suc n) zero = refl
get_or-grown [] (suc n) (suc j) = get_or-grown [] n j
get_or-grown (x ∷ xs) n zero = refl
get_or-grown (x ∷ xs) n (suc j) = get_or-grown xs n j

-- what adding the handle `h` at a slot of `l` does
pub record Added (l l' : HandleList) (h slot : ℕ) : Type 0 where
  pub was_free : get_or l.handles slot none ≡ none
  pub stored : get_or l'.handles slot none ≡ some h
  pub others : (j : ℕ) → j ≢ slot → get_or l'.handles j none ≡ get_or l.handles j none
  pub counted : l'.num_used_slots ≡ l.num_used_slots + 1
  pub valid : IsValid l'

full_free : (xs : List (Option ℕ)) → get_or xs (length xs) none ≡ none
full_free [] = refl
full_free (x ∷ xs) = full_free xs

add_handle-full :
    (l : HandleList) (h : ℕ)
    → IsValid l
    → l.num_used_slots ≡ l.num_slots
    → ((add_handle true l (some h)).0 ≡ ok l.num_used_slots)
      × Added l (add_handle true l (some h)).1 h l.num_used_slots
unfolding add_handle
add_handle-full l h v full = rw (eq→== l.num_used_slots l.num_slots full) (
  refl,
  record {
    was_free = rw (full ∙ sym v.sized) (full_free l.handles);
    stored =
        get_or-set_self grown l.num_used_slots (some h) none (omega (arith, grown_length, v.sized));
    others = λ j ne.
        get_or-set_ne grown l.num_used_slots j (some h) none (λ e. ne (sym e))
        ∙ get_or-grown l.handles 8 j;
    counted = refl;
    valid = record {
      sized = length-set grown l.num_used_slots (some h) ∙ omega (arith, grown_length, v.sized);
      counted = omega (
        arith,
        count_used-set grown l.num_used_slots (some h) (omega (arith, grown_length, v.sized)),
        count_used-append l.handles (replicate 8 none),
        v.counted,
        ap used (get_or-grown l.handles 8 l.num_used_slots),
        ap used
            (ap (λ (k : ℕ). get_or l.handles k none) (full ∙ sym v.sized) ∙ full_free l.handles),
      );
      pos_in = omega (arith, full);
    };
  },
)
  where
    grown : List (Option ℕ)
    grown = l.handles ++ replicate 8 none

    grown_length : length grown ≡ length l.handles + 8
    grown_length = length-append l.handles (replicate 8 none)

add_handle-slot :
    (a : Bool) (l : HandleList) (h : ℕ)
    → IsValid l
    → l.num_used_slots ≢ l.num_slots
    → let slot = find_slot l.num_slots l.handles l.num_slots l.current_pos in
      ((add_handle a l (some h)).0 ≡ ok slot) × Added l (add_handle a l (some h)).1 h slot
unfolding add_handle
add_handle-slot a l h v nf = rw not_full (
  refl,
  record {
    was_free = found.0;
    stored = get_or-set_self l.handles slot (some h) none (omega (arith, found.1, v.sized));
    others = λ j ne. get_or-set_ne l.handles slot j (some h) none (λ e. ne (sym e));
    counted = refl;
    valid = record {
      sized = length-set l.handles slot (some h) ∙ v.sized;
      counted = omega (
        arith,
        count_used-set l.handles slot (some h) (omega (arith, found.1, v.sized)),
        v.counted,
        ap used found.0,
      );
      pos_in = next_slot-lt l.num_slots slot found.1;
    };
  },
)
  where
    not_full : (l.num_used_slots == l.num_slots) ≡ false
    not_full = ground arith

    some_free : (e : ℕ) × (e < length l.handles) × (get_or l.handles e none ≡ none)
    some_free = free_slot l.handles (omega (arith, count_used-le l.handles, v.counted, v.sized))

    in_range : some_free.0 < l.num_slots
    in_range = omega (arith, some_free.1, v.sized)

    slot : ℕ
    slot = find_slot l.num_slots l.handles l.num_slots l.current_pos

    found : (get_or l.handles slot none ≡ none) × (slot < l.num_slots)
    found =
        find_slot-free l.num_slots (distance l.num_slots l.current_pos some_free.0) l.num_slots
          l.current_pos l.handles v.pos_in
          (distance-lt l.num_slots l.current_pos some_free.0 v.pos_in in_range)
          (rw (advance-distance l.num_slots l.current_pos some_free.0 v.pos_in in_range)
            some_free.2)

-- `dpiHandleList__addHandle` with memory at hand always finds a slot that was free, stores the
-- handle there, changes no other slot, and leaves a valid list.
pub add_handle_lem :
    (l : HandleList) (h : ℕ)
    → IsValid l
    → (slot : ℕ) × ((add_handle true l (some h)).0 ≡ ok slot)
      × Added l (add_handle true l (some h)).1 h slot
add_handle_lem l h v = elim (ℕ_discrete l.num_used_slots l.num_slots) [
  | yes full ↦ let r = add_handle-full l h v full in (l.num_used_slots, r.0, r.1)
  | no nf ↦
      let r = add_handle-slot true l h v nf in
      (find_slot l.num_slots l.handles l.num_slots l.current_pos, r.0, r.1)
]

-- Removing a handle that is in its slot frees that slot alone and leaves a valid list.
pub remove_handle_lem :
    (l : HandleList) (slot h : ℕ)
    → IsValid l
    → get_or l.handles slot none ≡ some h
    → (get_or (remove_handle l slot).handles slot none ≡ none)
      × ((j : ℕ)
          → j ≢ slot
          → get_or (remove_handle l slot).handles j none ≡ get_or l.handles j none)
      × IsValid (remove_handle l slot)
unfolding remove_handle
remove_handle_lem l slot h v e = (
  get_or-set_self l.handles slot none none inside,
  λ j ne. get_or-set_ne l.handles slot j none none (λ e. ne (sym e)),
  record {
    sized = length-set l.handles slot none ∙ v.sized;
    counted = ground (arith, fewer, v.counted, ap used e);
    pos_in = v.pos_in;
  },
)
  where
    inside : slot < length l.handles
    inside = get_or-inside l.handles slot h e

    fewer :
        count_used (set l.handles slot none) + used (get_or l.handles slot none)
        ≡ count_used l.handles + 0
    fewer = count_used-set l.handles slot none inside
