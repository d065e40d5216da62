-- ===== src/Var/Conversions.antt =====
-- The types that a variable can have are those that its values are converted between.
use godror.Base.{
  ℕ, ◌-◌, ◌<◌, ◌≡◌, refl, sym, subst, ◌⊎◌, inl, inr, Bool, true, false, ◌&&◌, List, [], ◌∷◌, ◌==◌,
  ==→eq, if◌then◌else◌, Bool-cases, is_ok-then, ◌>>=◌, ◌>>◌, All-get_or, ltb, get_or, ◌≢◌, All, ok,
  arith,
}
use godror.OracleTypes.Numbers.{
  type_timestamp, type_number, type_json_id, type_json_object, type_json_array, native_bytes,
  native_uint64, native_int64, native_double, type_date, type_timestamp_tz, type_timestamp_ltz,
}
use godror.OracleTypes.Convert.{is_one_of}
use godror.OracleTypes.Table.{OracleType, all_oracle_types, get_from_num, zero_type}
use godror.OracleTypes.Order.{get_from_num_order}
use godror.Var.Types.{validate_types, Transfer, get_transfer, set_transfer, nothing}
use godror.Var.State.{Env}
use godror.Var.Allocate.{Request, check_request, check_type, check_native}

-- the types of JSON objects and arrays, for which a variable has neither references nor a conversion
abbrev pub is_json_part : ℕ → Bool
is_json_part num = is_one_of num (type_json_object ∷ type_json_array ∷ [])

-- whether a value is left as it is
abbrev pub is_nothing : Transfer → Bool
is_nothing nothing = true
is_nothing t = false

-- What `dpiVar__setValue` calls for a value and what `dpiVar__getValue` calls convert between the same C
-- types, and neither leaves the value as it is.
pub record Converts (native num : ℕ) : Type 0 where
  pub paired : set_transfer native num ≡ get_transfer native num
  pub handled : is_nothing (set_transfer native num) ≡ false

-- The type has its values in the references of the variable, or they are converted both ways.
abbrev pub IsCovered : ℕ → OracleType → Type 0
IsCovered native t = (t.requires_pre_fetch ≡ true) ⊎ Converts native t.oracle_type_num

both :
    {native num : ℕ}
    → set_transfer native num ≡ get_transfer native num
    → is_nothing (set_transfer native num) ≡ false
    → Converts native num
both paired handled = record { paired = paired; handled = handled }

abbrev IsDefault : OracleType → Type 0
IsDefault t = (is_json_part t.oracle_type_num ≡ true) ⊎ IsCovered t.default_native_type_num t

defaults-IsCovered : All IsDefault all_oracle_types
unfolding get_transfer set_transfer
defaults-IsCovered = (
  inr (inr (both refl refl)),
  (
    inr (inr (both refl refl)),
    (
      inr (inr (both refl refl)),
      (
        inr (inr (both refl refl)),
        (
          inr (inl refl),
          (
            inr (inr (both refl refl)),
            (
              inr (inr (both refl refl)),
              (
                inr (inr (both refl refl)),
                (
                  inr (inr (both refl refl)),
                  (
                    inr (inr (both refl refl)),
                    (
                      inr (inr (both refl refl)),
                      (
                        inr (inr (both refl refl)),
                        (
                          inr (inr (both refl refl)),
                          (
                            inr (inr (both refl refl)),
                            (
                              inr (inr (both refl refl)),
                              (
                                inr (inr (both refl refl)),
                                (
                                  inr (inl refl),
                                  (
                                    inr (inl refl),
                                    (
                                      inr (inl refl),
                                      (
                                        inr (inl refl),
                                        (
                                          inr (inl refl),
                                          (
                                            inr (inr (both refl refl)),
                                            (
                                              inr (inl refl),
                                              (
                                                inr (inr (both refl refl)),
                                                (
                                                  inr (inr (both refl refl)),
                                                  (
                                                    inr (inr (both refl refl)),
                                                    (
                                                      inr (inl refl),
                                                      (
                                                        inl refl,
                                                        (
                                                          inl refl,
                                                          (
                                                            inr (inl refl),
                                                            (
                                                            inr (inr (both refl refl)),
                                                            (
                                                            inr (inr (both refl refl)),
                                                            (inr (inl refl), tt),
                                                            ),
                                                            ),
                                                          ),
                                                        ),
                                                      ),
                                                    ),
                                                  ),
                                                ),
                                              ),
                                            ),
                                          ),
                                        ),
                                      ),
                                    ),
                                  ),
                                ),
                              ),
                            ),
                          ),
                        ),
                      ),
                    ),
                  ),
                ),
              ),
            ),
          ),
        ),
      ),
    ),
  ),
)

-- what holds of every label holds of a number that is one of them
is_one_of-All :
    (P : ℕ → Type 0) (x : ℕ) (labels : List ℕ) → All P labels → is_one_of x labels ≡ true → P x
is_one_of-All P x [] h e = absurd (cc)
is_one_of-All P x (label ∷ labels) h e = elim (Bool-cases (x == label)) [
  | inl same ↦ subst P (sym (==→eq x label same)) h.0
  | inr other ↦ is_one_of-All P x labels h.1 (ground arith)
]

abbrev dates : List ℕ
dates = type_date ∷ type_timestamp ∷ type_timestamp_tz ∷ type_timestamp_ltz ∷ []

abbrev number_natives : List ℕ
number_natives = native_int64 ∷ native_uint64 ∷ native_bytes ∷ []

double-Converts :
    (num native : ℕ)
    → is_one_of num dates ≡ true
    → (native == native_double) ≡ true
    → Converts native num
unfolding get_transfer set_transfer
double-Converts num native d double =
    subst (λ n. Converts n num) (sym (==→eq native native_double double))
      (is_one_of-All (λ n. Converts native_double n) num dates
        (both refl refl, (both refl refl, (both refl refl, (both refl refl, tt)))) d)

number-Converts :
    (num native : ℕ)
    → (num == type_number) ≡ true
    → is_one_of native number_natives ≡ true
    → Converts native num
unfolding get_transfer set_transfer
number-Converts num native n k =
    subst (λ t. Converts native t) (sym (==→eq num type_number n))
      (is_one_of-All (λ k. Converts k type_number) native number_natives
        (both refl refl, (both refl refl, (both refl refl, tt))) k)

-- what `dpiVar__validateTypes` lets through
abbrev is_validated : ℕ → ℕ → Bool
is_validated num native =
    if is_one_of num dates
    then native == native_double
    else num == type_number && is_one_of native number_natives

validate_types-is_validated :
    (num native : ℕ) → validate_types num native ≡ ok tt → is_validated num native ≡ true
unfolding validate_types
validate_types-is_validated num native h = ground arith

validate_types-Converts : (num native : ℕ) → validate_types num native ≡ ok tt → Converts native num
validate_types-Converts num native h =
    let v = validate_types-is_validated num native h in
    elim (Bool-cases (is_one_of num dates)) [
      | inl d ↦ double-Converts num native d (ground arith)
      | inr other ↦ number-Converts num native (ground arith) (ground arith)
    ]

get_from_num-IsCovered :
    (num : ℕ) (t : OracleType)
    → num ≢ type_json_id
    → is_json_part num ≡ false
    → get_from_num num ≡ ok t
    → IsCovered t.default_native_type_num t × (t.oracle_type_num ≡ num)
unfolding get_from_num
get_from_num-IsCovered num t other whole found = elim (Bool-cases (ltb 2000 num && ltb num 2035)) [
  | inl known ↦
      let i = num - 2000 - 1 in
      let above : 2000 < num = ground arith in
      let below : num < 2034 = ground arith in
      let (t₀, (found₀, num₀)) = get_from_num_order num above below in
      let here : get_or all_oracle_types i zero_type ≡ t = cc in
      let t₀_here : t₀ ≡ t = cc in
      let same : t.oracle_type_num ≡ num = cc in
      let default =
        subst IsDefault here
          (All-get_or IsDefault all_oracle_types i zero_type defaults-IsCovered (omega arith)) in
      elim default [ inl part ↦ absurd (cc) | inr covered ↦ (covered, same) ]
  | inr unknown ↦ absurd (cc)
]

native-IsCovered :
    (r : Request) (t : OracleType)
    → check_native r t ≡ ok tt
    → IsCovered t.default_native_type_num t
    → IsCovered r.native_type_num t
unfolding check_native
native-IsCovered r t h d = elim (Bool-cases (r.native_type_num == t.default_native_type_num)) [
  | inl same ↦
      subst (λ n. IsCovered n t) (sym (==→eq r.native_type_num t.default_native_type_num same)) d
  | inr differs ↦ inr (validate_types-Converts t.oracle_type_num r.native_type_num (cc))
]

-- Where a request for a variable passes the checks, its type is the one that was asked for, and the
-- variable has references for its values, or `dpiVar__setValue` and `dpiVar__getValue` both
-- convert them, between the same C types. The types DPI_ORACLE_TYPE_JSON_ID, DPI_ORACLE_TYPE_JSON_OBJECT
-- and DPI_ORACLE_TYPE_JSON_ARRAY are left out.
pub check_request-IsCovered :
    (env : Env) (r : Request) (t : OracleType)
    → r.oracle_type_num ≢ type_json_id
    → is_json_part r.oracle_type_num ≡ false
    → check_request env r ≡ ok t
    → IsCovered r.native_type_num t × (t.oracle_type_num ≡ r.oracle_type_num)
unfolding check_request
check_request-IsCovered env r t other whole h =
    let next =
      λ (type : OracleType). check_type env r type >>= λ checked. check_native r type >> ok type in
    let (type, found, h₁) = is_ok-then (get_from_num r.oracle_type_num) next t h in
    let (_, _, h₂) =
      is_ok-then (check_type env r type) (λ checked. check_native r type >> ok type) t h₁ in
    let (u, native, last) = is_ok-then (check_native r type) (λ done. ok type) t h₂ in
    let (d, num) = get_from_num-IsCovered r.oracle_type_num type other whole found in
    let same : type ≡ t = cc in
    subst
      (λ (k : OracleType). IsCovered r.native_type_num k × (k.oracle_type_num ≡ r.oracle_type_num))
      same (native-IsCovered r type native d, num)
