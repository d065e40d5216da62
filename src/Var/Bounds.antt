-- ===== src/Var/Bounds.antt =====
-- The places of the values of a variable of bytes, when it has been made.
use godror.Base.{
  ℕ, zero, suc, ◌+◌, ◌*◌, ◌<◌, ◌≡◌, ap, ◌∙◌, ◌≢◌, false, Option, List, [], ◌∷◌, length, get_or, ok,
  arith,
}
use godror.OracleTypes.Numbers.{type_number, native_bytes}
use godror.Gen.Handle.{Base}
use godror.Var.State.{Env, in_data, Data, Var, null_data}
use godror.Var.Allocate.{Request, Platform, allocate_var}
use godror.Var.Arrays.{IsStatic, made-IsStatic}

-- each `dpiData` from a position on points to the memory of its position
abbrev pub Placed : ℕ → ℕ → List Data → Type 0
Placed size i [] = Unit
Placed size i (d ∷ ds) = (d.place ≡ in_data (i * size)) × Placed size (suc i) ds

pub Placed-get_or :
    (size i j : ℕ) (ds : List Data)
    → Placed size i ds
    → j < length ds
    → (get_or ds j null_data).place ≡ in_data ((i + j) * size)
Placed-get_or size i j [] h lt = absurd (omega arith)
Placed-get_or size i zero (d ∷ ds) h lt = h.0 ∙ ap (λ k. in_data (k * size)) (omega arith)
Placed-get_or size i (suc j) (d ∷ ds) h lt =
    Placed-get_or size (suc i) j ds h.1 (omega arith) ∙ ap (λ k. in_data (k * size)) (omega arith)

Placed-from_get_or :
    (size i : ℕ) (ds : List Data)
    → ((j : ℕ) → j < length ds → (get_or ds j null_data).place ≡ in_data ((i + j) * size))
    → Placed size i ds
Placed-from_get_or size i [] h = tt
Placed-from_get_or size i (d ∷ ds) h = (
  h 0 (omega arith) ∙ ap (λ k. in_data (k * size)) (omega arith),
  Placed-from_get_or size (suc i) ds
      (λ j lt. h (suc j) (omega arith) ∙ ap (λ k. in_data (k * size)) (omega arith)),
)

-- a variable whose values are bytes in place, each in a part of the memory of its own
pub record IsBytesInPlace (v : Var) : Type 0 where
  pub static : IsStatic v
  pub native : v.native_type_num ≡ native_bytes
  pub no_temp : v.buffer.temp_buffer ≡ []
  pub no_references : v.buffer.references ≡ []
  pub places : Placed v.size_in_bytes 0 v.buffer.external_data

-- A variable that `dpiVar__allocate` makes for bytes has memory for all its values, of at most the
-- largest `int`, as many indicators, actual lengths and `dpiData` as it has positions, and each
-- `dpiData` points to the part of the memory of its position. The values must not be dynamic, the type
-- not be DPI_ORACLE_TYPE_NUMBER nor one that requires a prefetch, and memory have the size asked for.
pub allocate_var-IsBytesInPlace :
    (env : Env) (p : Platform) (conn : Base) (given : Option Base) (r : Request) (v : Var)
    → ((n : ℕ) → length (p.fresh n) ≡ n)
    → (allocate_var env p conn given r).result ≡ ok v
    → v.is_dynamic ≡ false
    → v.native_type_num ≡ native_bytes
    → v.type.oracle_type_num ≢ type_number
    → v.type.requires_pre_fetch ≡ false
    → IsBytesInPlace v
allocate_var-IsBytesInPlace env p conn given r v fresh h static native other none_needed =
    let (s, t) = made-IsStatic env p conn given r v fresh h static in
    let no_temp = t.no_temp other in
    record {
      static = s;
      native = native;
      no_temp = no_temp;
      no_references = t.no_references none_needed;
      places = Placed-from_get_or v.size_in_bytes 0 v.buffer.external_data (λ j lt.
          t.in_place j (omega (arith, s.data_size)) native no_temp
          ∙ ap (λ k. in_data (k * v.size_in_bytes)) (omega arith));
    }
