-- ===== src/Base/Outcome.antt =====
-- DPI_SUCCESS and DPI_FAILURE: a C function that fails has set a `dpiErrorNum` in its error buffer.
use mathlib.Core.Bool.{Bool, true, false}
use mathlib.Core.Path.{◌≡◌, refl}
use mathlib.Core.Logic.{◌⊎◌, inl, inr}

-- The `dpiErrorNum` values that the modelled functions raise (dpiImpl.h), and `oci` for an error
-- that the Oracle client library reported.
pub data Error : Type 0 where
  no_memory invalid_number number_string_too_long not_supported number_no_repr : Error
  invalid_oci_number buffer_size_too_small oracle_client_too_old oracle_db_too_old : Error
  invalid_handle scroll_out_of_rs array_size_too_big array_size_too_small : Error
  stmt_closed token_based_auth invalid_oracle_type unhandled_conversion : Error
  null_pointer_parameter invalid_array_position array_size_zero no_object_type : Error
  buffer_size_too_large wrong_type column_fetch queue_no_payload queue_wrong_payload_type oci :
      Error
  unhandled_json_scalar_type unhandled_json_node_type unhandled_conversion_to_json : Error

-- what a fallible C function gives to its caller
pub data Result {ℓ} (T : Type ℓ) : Type ℓ where
  err : Error → Result T
  ok : T → Result T

-- `if (test) return dpiError__set(..., failure)`
abbrev pub fail_if : Bool → Error → Result (Unit {0})
fail_if false failure = ok tt
fail_if true failure = err failure

-- The call that follows is made only if the first did not fail.
infixl 5 ◌>>=◌
abbrev pub ◌>>=◌ {ℓ κ} : {S : Type ℓ} {T : Type κ} → Result S → (S → Result T) → Result T
err failure >>= next = err failure
ok value >>= next = next value

infixl 5 ◌>>◌
abbrev pub ◌>>◌ {κ} : {T : Type κ} → Result (Unit {0}) → Result T → Result T
first >> next = first >>= λ done. next

-- A split on a result that keeps its equation, and what a chain that succeeds tells of its first call.
pub Result-cases {ℓ} :
    {T : Type ℓ} (r : Result T) → ((e : Error) × (r ≡ err e)) ⊎ ((t : T) × (r ≡ ok t))
Result-cases (err e) = inl (e, refl)
Result-cases (ok t) = inr (t, refl)

pub is_ok-then :
    {S T : Type 0} (r : Result S) (next : S → Result T) (t : T)
    → (r >>= next) ≡ ok t
    → (s : S) × (r ≡ ok s) × (next s ≡ ok t)
is_ok-then (err e) next t h = absurd (cc)
is_ok-then (ok s) next t h = (s, refl, h)

pub is_ok-fail_if : (b : Bool) (e : Error) (u : Unit {0}) → fail_if b e ≡ ok u → b ≡ false
is_ok-fail_if false e u h = refl
is_ok-fail_if true e u h = absurd (cc)
