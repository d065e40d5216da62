-- ===== src/Handles/Tests.antt =====
-- Runs of the handle tables, and the theorems applied to them.
use godror.Base.{◌≡◌, ◌≢◌, refl, true, some, none, List, [], ◌∷◌, ℕ, get_or, ok, arith}
use godror.Handles.Cursor.{advance}
use godror.Handles.Pool.{HandlePool, acquire, release}
use godror.Handles.Queue.{Holds, Gives, acquire_refines, release_full_loses}
use godror.Handles.Table.{HandleList, add_handle, remove_handle}
use godror.Handles.Slots.{IsValid, Added, add_handle_lem, remove_handle_lem}

-- three handles round the end of the array, the oldest in slot 7
abbrev wrapped : HandlePool
wrapped = record {
  handles = some 5 ∷ some 6 ∷ none ∷ none ∷ none ∷ none ∷ none ∷ some 4 ∷ [];
  num_slots = 8;
  num_used_slots = 8;
  acquire_pos = 7;
  release_pos = 2;
}

wrapped-Holds : Holds wrapped (4 ∷ 5 ∷ 6 ∷ [])
unfolding advance
wrapped-Holds = record {
  sized = refl;
  acquire_in = omega arith;
  window = (refl, (refl, (refl, tt)));
  release_at = refl;
  room = omega arith;
}

-- seven of eight slots full
abbrev nearly_full : HandlePool
nearly_full = record {
  handles = some 1 ∷ some 2 ∷ some 3 ∷ some 4 ∷ some 5 ∷ some 6 ∷ some 7 ∷ none ∷ [];
  num_slots = 8;
  num_used_slots = 8;
  acquire_pos = 0;
  release_pos = 7;
}

abbrev seven : List ℕ
seven = 1 ∷ 2 ∷ 3 ∷ 4 ∷ 5 ∷ 6 ∷ 7 ∷ []

nearly_full-Holds : Holds nearly_full seven
unfolding advance
nearly_full-Holds = record {
  sized = refl;
  acquire_in = omega arith;
  window = (refl, (refl, (refl, (refl, (refl, (refl, (refl, tt)))))));
  release_at = refl;
  room = omega arith;
}

acquire_run : (acquire true wrapped).0 ≡ ok (some 4)
unfolding acquire
acquire_run = refl

acquire_refines_example :
    ((acquire true wrapped).0 ≡ ok (some 4)) × Holds (acquire true wrapped).1 (5 ∷ 6 ∷ [])
acquire_refines_example = acquire_refines true wrapped (4 ∷ 5 ∷ 6 ∷ []) wrapped-Holds

release_full_loses_example :
    Holds (release nearly_full (some 8)).0 []
    × Gives [] (acquire true (release nearly_full (some 8)).0).0
release_full_loses_example = release_full_loses true nearly_full seven 8 nearly_full-Holds refl

-- two slots in use
abbrev two_open : HandleList
two_open = record {
  handles = some 1 ∷ none ∷ some 3 ∷ none ∷ none ∷ none ∷ none ∷ none ∷ [];
  num_slots = 8;
  num_used_slots = 2;
  current_pos = 2;
}

two_open-IsValid : IsValid two_open
two_open-IsValid = omega arith

add_run : (add_handle true two_open (some 9)).0 ≡ ok 3
unfolding add_handle
add_run = refl

add_handle_lem_example :
    (slot : ℕ) × ((add_handle true two_open (some 9)).0 ≡ ok slot)
    × Added two_open (add_handle true two_open (some 9)).1 9 slot
add_handle_lem_example = add_handle_lem two_open 9 two_open-IsValid

remove_handle_lem_example :
    (get_or (remove_handle two_open 2).handles 2 none ≡ none)
    × ((j : ℕ)
        → j ≢ 2
        → get_or (remove_handle two_open 2).handles j none ≡ get_or two_open.handles j none)
    × IsValid (remove_handle two_open 2)
remove_handle_lem_example = remove_handle_lem two_open 2 3 two_open-IsValid refl
