-- ===== src/Var/Prefetch.antt =====
-- A prefetch replaces every reference of a variable by a new handle: `dpiVar__extendedPreFetch`.
use godror.Base.{ℕ, ◌≡◌, Option, none, some, List, [], ◌∷◌, Result, ok, err}
use godror.Gen.Handle.{Base}
use godror.Var.References.{Making, not_made, not_temporary, new_handle}

-- the handles that are made count one reference
abbrev pub IsNew : List Making → Type 0
IsNew [] = Unit
IsNew (not_made ∷ made) = IsNew made
IsNew (not_temporary new ∷ made) = (new.ref_count ≡ 1) × IsNew made
IsNew (new_handle new ∷ made) = (new.ref_count ≡ 1) × IsNew made

-- every position has a reference
abbrev pub AllKept : List (Option ℕ) → Type 0
AllKept [] = Unit
AllKept (none ∷ refs) = ⊥
AllKept (some h ∷ refs) = AllKept refs

-- what a prefetch that succeeds leaves
abbrev pub IsKept : Result (Unit {0}) → List (Option ℕ) → Type 0
IsKept (err e) refs = Unit
IsKept (ok done) refs = AllKept refs
