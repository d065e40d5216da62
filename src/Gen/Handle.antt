-- ===== src/Gen/Handle.antt =====
-- The base of a handle and its reference count: odpi/src/dpiGen.c. Debugging output is left out, and
-- the mutex is: a change of the count is one step.
use godror.Base.{
  ℕ, ◌+◌, ◌-◌, ◌%◌, Bool, ◌&&◌, ◌||◌, not, Option, none, some, ◌==◌, if◌then◌else◌, ℤ, pos, negsuc,
  pos_part, neg_part, Result, ok, err, ◌>>◌, fail_if, no_memory, invalid_handle,
}
use godror.Gen.Types.{HandleType, context, type_index, type_check_int}

-- A `dpiBaseType`. `frees` counts the calls of the free procedure of its type, which frees the
-- memory: where it is not 0, the handle is gone, and what the other fields hold may not be read.
pub record Base : Type 0 where
  pub type_def : HandleType
  pub check_int : ℕ
  pub ref_count : ℕ
  pub has_env : Bool
  pub frees : ℕ

-- `dpiGen__allocate`: `env` tells whether one is given, the other two whether memory is found for
-- the handle and for a new environment
unfoldable pub allocate : HandleType → Bool → Bool → Bool → Result Base
allocate type env found env_found = do
  fail_if (not found) no_memory
  let makes_env = not env && not (type_index type == type_index context)
  fail_if (makes_env && not env_found) no_memory
  ok (record {
    type_def = type;
    check_int = type_check_int type;
    ref_count = 1;
    has_env = env || makes_env;
    frees = 0;
  })

-- `dpiGen__checkHandle`; the pointer is `none` for NULL
unfoldable pub check_handle : Option Base → HandleType → Result (Unit {0})
check_handle none type = err invalid_handle
check_handle (some value) type =
    fail_if
      (not (type_index value.type_def == type_index type)
        || not (value.check_int == type_check_int type))
      invalid_handle

-- `dpiGen__startPublicFn`; `init` is what `dpiGlobal__initError` returns
unfoldable pub start_public_fn : Result (Unit {0}) → Option Base → HandleType → Result (Unit {0})
start_public_fn init ptr type = init >> check_handle ptr type

-- `value->refCount += increment` on an `unsigned`
unfoldable pub add_count : ℕ → ℤ → ℕ
add_count count increment =
    (count + pos_part increment + (4294967296 - neg_part increment)) % 4294967296

-- `dpiGen__setRefCount`, what the handle holds when the free procedure is called being left beside its
-- mark
unfoldable pub set_ref_count : Base → ℤ → Base
set_ref_count value increment =
    let count = add_count value.ref_count increment in
    let counted = record value { ref_count = count } in
    if count == 0 then record counted { check_int = 0; frees = value.frees + 1 } else counted

-- the public functions that change the count of a handle, by `dpiGen__addRef` and `dpiGen__release`
unfoldable pub change_count : ℤ → Result (Unit {0}) → Base → HandleType → Result (Unit {0}) × Base
change_count increment init value type = elim (start_public_fn init (some value) type) [
  | err failure ↦ (err failure, value)
  | ok done ↦ (ok tt, set_ref_count value increment)
]

-- `dpiGen__addRef`
unfoldable pub add_ref : Result (Unit {0}) → Base → HandleType → Result (Unit {0}) × Base
add_ref = change_count (pos 1)

-- `dpiGen__release`
unfoldable pub release : Result (Unit {0}) → Base → HandleType → Result (Unit {0}) × Base
release = change_count (negsuc 0)
