-- ===== src/Stmt/BindTests.antt =====
-- A statement with one variable that is bound, and the theorems applied to it.
use godror.Base.{
  ℕ, zero, suc, ◌+◌, ◌<◌, ◌≡◌, refl, true, false, none, some, [], ◌∷◌, ok, err, oci, arith,
}
use godror.Gen.Types.{var, type_check_int}
use godror.Gen.Handle.{Base}
use godror.Var.Owned.{count, references_to}
use godror.Stmt.Bind.{Key, Binding, Answers, Bound, find_key, bind}
use godror.Stmt.Bindings.{IsHolding, bind-IsHolding}

abbrev first_position : Key
first_position = record { position = 1; name = [] }

abbrev misspelt : Key
misspelt = record { position = 0; name = b'x' ∷ [] }

abbrev held_once : Base
held_once = record {
  type_def = var;
  check_int = type_check_int var;
  ref_count = 1;
  has_env = true;
  frees = 0;
}

-- The first variable is bound to the first position; the second is held by the caller.
abbrev one_bound : Binding
one_bound = record {
  keys = first_position ∷ [];
  vars = some 0 ∷ [];
  allocated = 8;
  handles = held_once ∷ held_once ∷ [];
  binds = [];
}

abbrev second : Bound
second = record { number = 1; holds_statement = false }

abbrev all_well : Answers
all_well = record {
  entries_found = true;
  name_found = true;
  converted = ok tt;
  bound = ok tt;
  set_up = ok tt;
}

abbrev refused : Answers
refused = record all_well { bound = err oci }

abbrev owed_to_caller : ℕ → ℕ
owed_to_caller zero = 0
owed_to_caller (suc zero) = 1
owed_to_caller (suc (suc h)) = 0

one_bound_counts :
    (h : ℕ)
    → (count one_bound.handles h ≡ owed_to_caller h + references_to h one_bound.vars)
      × (owed_to_caller h + references_to h one_bound.vars < 4294967295)
one_bound_counts zero = (refl, omega arith)
one_bound_counts (suc zero) = (refl, omega arith)
one_bound_counts (suc (suc h)) = (ground arith, ground arith)

one_bound-IsHolding : IsHolding owed_to_caller one_bound
one_bound-IsHolding = record { sizes = refl; counted = λ h. one_bound_counts h }

bind-IsHolding_example : IsHolding owed_to_caller (bind all_well first_position second one_bound).1
bind-IsHolding_example =
    bind-IsHolding owed_to_caller all_well first_position second one_bound one_bound-IsHolding
      (omega arith) (omega arith)

not_found : find_key misspelt 0 (first_position ∷ []) ≡ none
unfolding find_key
not_found = refl
