-- ===== src/OracleTypes/Order.antt =====
-- The table of the Oracle types is in the order of their numbers, and holds every type that an OCI
-- type code is converted to.
use godror.Base.{
  ℕ, zero, suc, ◌+◌, ◌-◌, ◌<◌, ◌≤◌, ◌≡◌, refl, ◌∙◌, ◌⊎◌, inl, inr, Bool, true, false, ◌&&◌, List,
  [], ◌∷◌, ◌==◌, ltb, leb, if◌then◌else◌, Bool-cases, ==→eq, length, get_or, ok, err,
  invalid_oracle_type, arith,
}
use godror.OracleTypes.Table.{OracleType, all_oracle_types, zero_type, get_from_num}
use godror.OracleTypes.Convert.{convert_from_oracle}

abbrev in_order : ℕ → List OracleType → Bool
in_order first [] = true
in_order first (t ∷ ts) = t.oracle_type_num == first && in_order (first + 1) ts

in_order-get_or :
    (first i : ℕ) (ts : List OracleType)
    → in_order first ts ≡ true
    → i < length ts
    → (get_or ts i zero_type).oracle_type_num ≡ first + i
in_order-get_or first i [] h lt = absurd (omega arith)
in_order-get_or first zero (t ∷ ts) h lt = ground arith
in_order-get_or first (suc i) (t ∷ ts) h lt =
    let rest : in_order (first + 1) ts ≡ true = ground arith in
    omega (arith, in_order-get_or (first + 1) i ts rest (omega arith))

-- The lookup of a number from DPI_ORACLE_TYPE_VARCHAR to DPI_ORACLE_TYPE_VECTOR gives the entry of the
-- table that bears that number.
pub get_from_num_order :
    (num : ℕ)
    → 2000 < num
    → num < 2034
    → (t : OracleType) × ((get_from_num num ≡ ok t) × (t.oracle_type_num ≡ num))
unfolding get_from_num
get_from_num_order num above below =
    let known : (ltb 2000 num && ltb num 2035) ≡ true = ground arith in
    let e = in_order-get_or 2001 (num - 2001) all_oracle_types refl (omega arith) in
    let i : num - 2000 - 1 ≡ num - 2001 = omega arith in
    rw i (get_or all_oracle_types (num - 2001) zero_type, (rw known refl, e ∙ omega arith))

-- Every other number but that of DPI_ORACLE_TYPE_JSON_ID is refused, and that one is not: the lookup
-- gives for it an entry that bears the number 0.
pub get_from_num_other :
    (num : ℕ)
    → (num ≤ 2000) ⊎ (2034 ≤ num)
    → get_from_num num ≡ (if num == 2034 then ok zero_type else err invalid_oracle_type)
unfolding get_from_num
get_from_num_other num h = elim (Bool-cases (num == 2034)) [
  | inl e ↦ rw (==→eq _ _ e) refl
  | inr e ↦
      let unknown : (ltb 2000 num && ltb num 2035) ≡ false = ground arith in rw (e, unknown) refl
]

-- `n` is 0 or the number of an entry
abbrev is_known : ℕ → Bool
is_known zero = true
is_known (suc n) = leb 2000 n && ltb n 2033

convert_known : (code form : ℕ) → is_known (convert_from_oracle code form) ≡ true
unfolding convert_from_oracle
convert_known code form = ground arith

known_cases : (n : ℕ) → is_known n ≡ true → (n ≡ 0) ⊎ ((2000 < n) × (n < 2034))
known_cases zero h = inl refl
known_cases (suc n) h = inr (ground arith, ground arith)

-- The type of any OCI type code and charset form is 0, for a code that is not supported, or one that
-- the lookup finds in the table under its number.
pub convert_from_oracle_found :
    (code form : ℕ)
    → (convert_from_oracle code form ≡ 0)
      ⊎ ((t : OracleType) × ((get_from_num (convert_from_oracle code form) ≡ ok t)
            × (t.oracle_type_num ≡ convert_from_oracle code form)))
convert_from_oracle_found code form = elim (known_cases _ (convert_known code form)) [
  | inl none_found ↦ inl none_found
  | inr (above, below) ↦ inr (get_from_num_order _ above below)
]
