-- ===== src/Var/References.antt =====
-- The handles that the values of a variable refer to: `dpiVar__setFromJson`, `dpiVar__setFromLob`,
-- `dpiVar__setFromObject`, `dpiVar__setFromRowid`, `dpiVar__setFromStmt`, `dpiVar__setFromVector` and
-- their public functions, `dpiVar__extendedPreFetch` and the release of references in
-- `dpiVar__finalizeBuffer` of odpi/src/dpiVar.c. The OCI handles copied to `data` are left out.
use godror.Base.{
  ℕ, Bool, false, ◌||◌, not, Option, none, some, List, [], ◌∷◌, ◌++◌, ◌==◌, if◌then◌else◌, length,
  get_or, set, pos, negsuc, Result, ok, err, ◌>>◌, fail_if, not_supported, wrong_type, oci, ℤ,
}
use godror.OracleTypes.Numbers.{
  native_json, native_lob, native_object, native_rowid, native_stmt, native_vector,
}
use godror.Gen.Types.{HandleType, json, lob, object, rowid, stmt, vector}
use godror.Gen.Handle.{Base, check_handle, set_ref_count}
use godror.Var.State.{Data, Var, handle, null_data}
use godror.Var.Store.{check_array_size}

-- The handles that there are, by number. What is not there counts no references.
abbrev pub no_handle : Base
no_handle = record { type_def = json; check_int = 0; ref_count = 0; has_env = false; frees = 0 }

-- `dpiGen__setRefCount` on a handle
abbrev pub change : List Base → ℕ → ℤ → List Base
change store h k = set store h (set_ref_count (get_or store h no_handle) k)

-- the reference of a position released, where there is one
abbrev pub drop_reference : List Base → Option ℕ → List Base
drop_reference store none = store
drop_reference store (some h) = change store h (negsuc 0)

abbrev pub refers_to : ℕ → Option ℕ → Bool
refers_to h none = false
refers_to h (some k) = h == k

-- the result of a call, the handles and the variable after it
abbrev pub Outcome : Type 0
Outcome = Result (Unit {0}) × List Base × Var

abbrev pub with_data : ℕ → Data → Var → Var
with_data i d v = record v {
  buffer = record v.buffer { external_data = set v.buffer.external_data i d };
}

-- what the six functions have in common once the value is valid
unfoldable pub keep_reference : List Base → Var → ℕ → ℕ → Outcome
keep_reference store v i h =
    let old = get_or v.buffer.references i none in
    let d = get_or v.buffer.external_data i null_data in
    let v₁ = with_data i (record d { is_null = false }) v in
    if refers_to h old then (ok tt, store, v₁) else (
      ok tt,
      change (drop_reference store old) h (pos 1),
      record v {
        buffer = record v.buffer {
          references = set v.buffer.references i (some h);
          external_data =
              set v.buffer.external_data i (record d { is_null = false; place = handle h });
        };
      },
    )

-- the handle is that of a type, and the check passes that is made of it besides
unfoldable pub set_reference : HandleType → Result (Unit {0}) → List Base → Var → ℕ → ℕ → Outcome
set_reference type checked store v i h =
    elim (check_handle (some (get_or store h no_handle)) type >> checked) [
      | err e ↦ (err e, store, v)
      | ok done ↦ keep_reference store v i h
    ]

-- `dpiVar__setFromJson`
unfoldable pub set_from_json : List Base → Var → ℕ → ℕ → Outcome
set_from_json = set_reference json (ok tt)

-- `dpiVar__setFromLob`
unfoldable pub set_from_lob : List Base → Var → ℕ → ℕ → Outcome
set_from_lob = set_reference lob (ok tt)

-- `dpiVar__setFromObject`, given the `tdo` of the object's type and of the variable's
unfoldable pub set_from_object : ℕ → ℕ → List Base → Var → ℕ → ℕ → Outcome
set_from_object tdo expected = set_reference object (fail_if (not (tdo == expected)) wrong_type)

-- `dpiVar__setFromRowid`
unfoldable pub set_from_rowid : List Base → Var → ℕ → ℕ → Outcome
set_from_rowid = set_reference rowid (ok tt)

-- whether a variable is among those that are bound to a statement
abbrev pub is_bound : ℕ → List ℕ → Bool
is_bound self [] = false
is_bound self (bound ∷ others) = bound == self || is_bound self others

-- `dpiVar__setFromStmt`, given the variables that are bound to the statement and the variable itself
unfoldable pub set_from_stmt : List ℕ → ℕ → List Base → Var → ℕ → ℕ → Outcome
set_from_stmt bind_vars self = set_reference stmt (fail_if (is_bound self bind_vars) not_supported)

-- `dpiVar__setFromVector`
unfoldable pub set_from_vector : List Base → Var → ℕ → ℕ → Outcome
set_from_vector = set_reference vector (ok tt)

-- A public function of a native type, with the one that it calls: `dpiVar_setFromJson`,
-- `dpiVar_setFromLob`, `dpiVar_setFromObject`, `dpiVar_setFromRowid`, `dpiVar_setFromStmt` and
-- `dpiVar_setFromVector`.
unfoldable pub public_set :
    ℕ
    → (List Base → Var → ℕ → ℕ → Outcome)
    → Result (Unit {0})
    → Option Base
    → List Base
    → Var
    → ℕ
    → ℕ
    → Outcome
public_set native set_from init base store v i h =
    elim (check_array_size init base v i
      >> fail_if (not (v.native_type_num == native)) not_supported) [
        | err e ↦ (err e, store, v)
        | ok done ↦ set_from store v i h
      ]

unfoldable pub public_set_from_json :
    Result (Unit {0}) → Option Base → List Base → Var → ℕ → ℕ → Outcome
public_set_from_json = public_set native_json set_from_json

unfoldable pub public_set_from_lob :
    Result (Unit {0}) → Option Base → List Base → Var → ℕ → ℕ → Outcome
public_set_from_lob = public_set native_lob set_from_lob

unfoldable pub public_set_from_object :
    ℕ → ℕ → Result (Unit {0}) → Option Base → List Base → Var → ℕ → ℕ → Outcome
public_set_from_object tdo expected = public_set native_object (set_from_object tdo expected)

unfoldable pub public_set_from_rowid :
    Result (Unit {0}) → Option Base → List Base → Var → ℕ → ℕ → Outcome
public_set_from_rowid = public_set native_rowid set_from_rowid

unfoldable pub public_set_from_stmt :
    List ℕ → ℕ → Result (Unit {0}) → Option Base → List Base → Var → ℕ → ℕ → Outcome
public_set_from_stmt bind_vars self = public_set native_stmt (set_from_stmt bind_vars self)

unfoldable pub public_set_from_vector :
    Result (Unit {0}) → Option Base → List Base → Var → ℕ → ℕ → Outcome
public_set_from_vector = public_set native_vector set_from_vector

-- What making the handle of a position comes to: it fails, it gives a LOB for which the temporary LOB
-- that dynamic bytes need is not created, or it gives a handle.
pub data Making : Type 0 where
  not_made : Making
  not_temporary new_handle : Base → Making

-- The loops of `dpiVar__extendedPreFetch` for statements, LOBs, rowids, JSON and vectors: each reference
-- is released, and replaced by a new handle. What making the handles comes to is given.
unfoldable pub pre_fetch :
    List Making → List Base → List (Option ℕ) → Result (Unit {0}) × List Base × List (Option ℕ)
pre_fetch made store [] = (ok tt, store, [])
pre_fetch [] store (old ∷ refs) = (err oci, drop_reference store old, none ∷ refs)
pre_fetch (not_made ∷ made) store (old ∷ refs) = (err oci, drop_reference store old, none ∷ refs)
pre_fetch (not_temporary new ∷ made) store (old ∷ refs) =
    let dropped = drop_reference store old in
    (err oci, dropped ++ new ∷ [], some (length dropped) ∷ refs)
pre_fetch (new_handle new ∷ made) store (old ∷ refs) =
    let dropped = drop_reference store old in
    let (r, after, rest) = pre_fetch made (dropped ++ new ∷ []) refs in
    (r, after, some (length dropped) ∷ rest)

-- the loop of `dpiVar__extendedPreFetch` for objects
unfoldable pub pre_fetch_objects : List Base → List (Option ℕ) → List Base × List (Option ℕ)
pre_fetch_objects store [] = (store, [])
pre_fetch_objects store (old ∷ refs) =
    let (after, rest) = pre_fetch_objects (drop_reference store old) refs in (after, none ∷ rest)

-- the references released in `dpiVar__finalizeBuffer`
unfoldable pub release_references : List Base → List (Option ℕ) → List Base
release_references store [] = store
release_references store (old ∷ refs) = release_references (drop_reference store old) refs
