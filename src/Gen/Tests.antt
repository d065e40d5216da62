-- ===== src/Gen/Tests.antt =====
-- Runs of the counts of a handle, and the theorems applied to them.
use godror.Base.{
  List, ◌≡◌, refl, true, false, none, some, [], ◌∷◌, ok, err, invalid_handle, no_memory, arith,
}
use godror.Gen.Types.{stmt, lob, type_index, type_check_int}
use godror.Gen.Handle.{
  Base, allocate, check_handle, start_public_fn, change_count, set_ref_count, add_count,
}
use godror.Gen.Counts.{
  Call, Refines, adds, releases, spec_step, Counted, run, spec_run, run-Counted,
}

abbrev new_stmt : Base
new_stmt = record {
  type_def = stmt;
  check_int = 833628974;
  ref_count = 1;
  has_env = true;
  frees = 0;
}

new_stmt-Counted : Counted stmt 1 new_stmt
unfolding type_check_int
new_stmt-Counted = record { same_type = refl; count = refl; check = refl; freed = refl }

allocate_no_memory : allocate lob false true false ≡ err no_memory
unfolding allocate type_index
allocate_no_memory = refl

-- a reference added and both released, and one release too many
abbrev both_released : List Call
both_released = adds ∷ releases ∷ releases ∷ []

one_too_many : run (adds ∷ releases ∷ releases ∷ releases ∷ []) stmt new_stmt ≡ none
unfolding run check_handle start_public_fn change_count set_ref_count add_count type_index
    type_check_int
one_too_many = refl

run-Counted_example :
    Refines stmt (some (ok tt ∷ ok tt ∷ ok tt ∷ [], 0)) (run both_released stmt new_stmt)
unfolding spec_run spec_step
run-Counted_example = run-Counted both_released stmt 1 new_stmt (omega arith) new_stmt-Counted

-- a handle taken for one of another type
check_handle_other_type : check_handle (some new_stmt) lob ≡ err invalid_handle
unfolding check_handle type_index type_check_int
check_handle_other_type = refl
