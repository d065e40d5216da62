-- ===== src/Number/Proper.antt =====
-- How many digits `dpiUtils__parseOracleNumber` of odpi/src/dpiUtils.c writes to the array that its
-- caller gives, which has DPI_NUMBER_MAX_DIGITS entries.
use godror.Base.{
  ℕ, zero, suc, ◌+◌, ◌-◌, ◌*◌, ◌/◌, ◌%◌, ◌≤◌, ◌≡◌, refl, sym, subst, Bool, true, false, Bool-cases,
  inl, inr, ◌&&◌, not, List, [], ◌∷◌, length, length-append, ◌==◌, ltb, get_or, drop, Result, ok,
  err, arith,
}
use godror.Number.Parse.{number_max_digits}
use godror.Number.Oracle.{
  OracleNumber, decode_byte, first_digit, second_digit, decode_mantissa, parse_oracle_number,
}

-- No base-100 digit of the mantissa has the first digit 10, for which two entries are written.
abbrev pub no_ten : Bool → ℕ → List ℕ → Bool
no_ten negative zero source = true
no_ten negative (suc count) source =
    not (decode_byte negative (get_or source 0 0) / 10 == 10)
    && no_ten negative count (drop 1 source)

-- An OCINumber whose mantissa bytes, as many as its length byte tells, stand for base-100 digits.
abbrev pub IsProper : List ℕ → Type 0
IsProper value =
    no_ten (ltb (get_or value 1 0) 128) ((get_or value 0 0 + 255) % 256) (drop 2 value) ≡ true

no_ten-less :
    (negative : Bool) (count : ℕ) (source : List ℕ)
    → no_ten negative count source ≡ true
    → no_ten negative (count - 1) source ≡ true
no_ten-less negative zero source h = h
no_ten-less negative (suc zero) source h = refl
no_ten-less negative (suc (suc count)) source h =
    ground (arith, no_ten-less negative (suc count) (drop 1 source))

-- a digit of a byte adds at most one entry, and keeps the sign
first_digit_adds :
    (is_first : Bool) (digit : ℕ) (n : OracleNumber)
    → (digit == 10) ≡ false
    → (length (first_digit is_first digit n).digits ≤ length n.digits + 1)
      × ((first_digit is_first digit n).is_negative ≡ n.is_negative)
unfolding first_digit
first_digit_adds is_first digit n h = elim (Bool-cases (digit == 0 && is_first)) [
  | inl leading ↦ rw leading (omega arith, refl)
  | inr other ↦ rw (other, h) (omega (arith, length-append n.digits (digit ∷ [])), refl)
]

second_digit_adds :
    (is_last : Bool) (digit : ℕ) (n : OracleNumber)
    → (length (second_digit is_last digit n).digits ≤ length n.digits + 1)
      × ((second_digit is_last digit n).is_negative ≡ n.is_negative)
unfolding second_digit
second_digit_adds is_last digit n = elim (Bool-cases (digit == 0 && is_last)) [
  | inl trailing ↦ rw trailing (omega arith, refl)
  | inr other ↦ rw other (omega (arith, length-append n.digits (digit ∷ [])), refl)
]

digits-decode_mantissa :
    (is_first : Bool) (count : ℕ) (source : List ℕ) (n : OracleNumber)
    → no_ten n.is_negative count source ≡ true
    → length (decode_mantissa is_first count source n).digits ≤ length n.digits + count * 2
unfolding decode_mantissa
digits-decode_mantissa is_first zero source n h = omega arith
digits-decode_mantissa is_first (suc count) source n h =
    let byte = decode_byte n.is_negative (get_or source 0 0) in
    let not_ten : (byte / 10 == 10) ≡ false = ground arith in
    let others : no_ten n.is_negative count (drop 1 source) ≡ true = ground arith in
    let first = first_digit is_first (byte / 10) n in
    let second = second_digit (count == 0) (byte % 10) first in
    let (le₁, same₁) = first_digit_adds is_first (byte / 10) n not_ten in
    let (le₂, same₂) = second_digit_adds (count == 0) (byte % 10) first in
    let sign : second.is_negative ≡ n.is_negative = cc in
    let rest =
      digits-decode_mantissa false count (drop 1 source) second
        (subst (λ b. no_ten b count (drop 1 source) ≡ true) (sym sign) others) in
    omega (arith, le₁, le₂, rest)

decoded_fit :
    (count : ℕ) (source : List ℕ) (n : OracleNumber)
    → no_ten n.is_negative count source ≡ true
    → length n.digits ≡ 0
    → count ≤ 20
    → length (decode_mantissa true count source n).digits ≤ number_max_digits
decoded_fit count source n h empty le = omega (arith, digits-decode_mantissa true count source n h)

-- what is written fits in the array
abbrev pub DigitsFit : Result OracleNumber → Type 0
DigitsFit (err e) = Unit
DigitsFit (ok n) = length n.digits ≤ number_max_digits

pub parse-DigitsFit : (value : List ℕ) → IsProper value → DigitsFit (parse_oracle_number value)
unfolding parse_oracle_number
parse-DigitsFit value h =
    let len = (get_or value 0 0 + 255) % 256 in
    let negative = ltb (get_or value 1 0) 128 in
    let source = drop 2 value in
    elim (Bool-cases (ltb 20 len)) [
      | inl long ↦ rw long tt
      | inr short ↦ elim (Bool-cases (len == 0)) [
        | inl empty ↦ elim (Bool-cases negative) [
          | inl below ↦ rw (short, empty, below) (omega arith)
          | inr above ↦ rw (short, empty, above) (omega arith)
        ]
        | inr some_bytes ↦ elim (Bool-cases (negative && get_or source (len - 1) 0 == 102)) [
          | inl trailing ↦
              rw (short, some_bytes, trailing)
                (decoded_fit (len - 1) source _ (no_ten-less negative len source h) refl
                  (ground arith))
          | inr whole ↦
              rw (short, some_bytes, whole) (decoded_fit len source _ h refl (ground arith))
        ]
      ]
    ]
