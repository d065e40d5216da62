-- ===== src/Number/TextSize.antt =====
-- The text that `dpiDataBuffer__fromOracleNumberAsText` of odpi/src/dpiData.c writes has the size that
-- is checked before.
use godror.Base.{
  ℕ, zero, suc, ◌+◌, ◌-◌, ◌≤◌, ◌≡◌, refl, Bool, true, false, Bool-cases, inl, inr, ◌&&◌, List, [],
  ◌∷◌, ◌++◌, length, length-append, length-replicate, ◌==◌, ltb, if◌then◌else◌, ℤ, pos, negsuc,
  Option, none, some, Result, Result-cases, ok, err, subst, ◌*◌, arith,
}
use godror.Number.Parse.{number_max_digits}
use godror.Number.Proper.{IsProper, DigitsFit, parse-DigitsFit}
use godror.Number.Oracle.{OracleNumber, parse_oracle_number}
use godror.Number.Text.{
  index_bytes, text_size, leading_text, digits_text, trailing_text, number_text, checked_text,
  from_oracle_number_as_text,
}

-- the digits from `i` on, and the point where it stands among them
length-digits_text-pos :
    (left i n : ℕ) (digits : List ℕ)
    → length (digits_text left i (pos n) digits)
      ≡ left + (if ltb 0 n && (ltb i (suc n) && ltb n (i + left)) then 1 else 0)
unfolding digits_text
length-digits_text-pos zero i n digits = ground arith
length-digits_text-pos (suc left) i n digits =
    ground (arith, length-digits_text-pos left (i + 1) n digits)

length-digits_text-negsuc :
    (left i n : ℕ) (digits : List ℕ) → length (digits_text left i (negsuc n) digits) ≡ left
unfolding digits_text
length-digits_text-negsuc zero i n digits = refl
length-digits_text-negsuc (suc left) i n digits =
    ground (arith, length-digits_text-negsuc left (i + 1) n digits)

length-leading-pos : (n : ℕ) → length (leading_text (pos n)) ≡ (if n == 0 then 2 else 0)
length-leading-pos n = ground arith

length-trailing-pos : (n k : ℕ) → length (trailing_text (pos n) k) ≡ n - k
length-trailing-pos n k = elim (Bool-cases (ltb k n)) [
  | inl more ↦ rw more (length-replicate {A = ℕ} (n - k) b'0')
  | inr fits ↦ rw fits (ground arith)
]

length-parts :
    (sign lead digits trail : List ℕ)
    → length (sign ++ (lead ++ (digits ++ trail)))
      ≡ length sign + (length lead + (length digits + length trail))
length-parts sign lead digits trail = omega (
  arith,
  length-append sign (lead ++ (digits ++ trail)),
  length-append lead (digits ++ trail),
  length-append digits trail,
)

abbrev sign_text : Bool → List ℕ
sign_text b = if b then b'-' ∷ [] else []

length-sign : (b : Bool) → length (sign_text b) ≡ (if b then 1 else 0)
length-sign true = refl
length-sign false = refl

length-number_text-at :
    (negative : Bool) (index : ℤ) (num : ℕ) (digits : List ℕ)
    → length (
        sign_text negative
        ++ (leading_text index ++ (digits_text num 0 index digits ++ trailing_text index num)))
      ≡ num + (if negative then 1 else 0) + index_bytes index num
length-number_text-at negative (pos n) num digits = ground (
  arith,
  length-parts (sign_text negative) (leading_text (pos n)) (digits_text num 0 (pos n) digits)
      (trailing_text (pos n) num),
  length-sign negative,
  length-leading-pos n,
  length-trailing-pos n num,
  length-digits_text-pos num 0 n digits,
)
length-number_text-at negative (negsuc n) num digits = ground (
  arith,
  length-parts (sign_text negative) (leading_text (negsuc n)) (digits_text num 0 (negsuc n) digits)
      [],
  length-sign negative,
  length-replicate {A = ℕ} (suc n) b'0',
  length-digits_text-negsuc num 0 n digits,
)

length-number_text : (n : OracleNumber) → length (number_text n) ≡ text_size n
unfolding number_text text_size
length-number_text n =
    length-number_text-at n.is_negative n.decimal_point_index n.num_digits n.digits

-- A text that was written, or an error, but no access past the array of digits: the length that is
-- reported is that of the text in bytes, and within the buffer.
abbrev pub IsText : Bool → ℕ → Option (Result (ℕ × List ℕ)) → Type 0
IsText is_utf16 buffer_length none = ⊥
IsText is_utf16 buffer_length (some (err e)) = Unit
IsText is_utf16 buffer_length (some (ok text)) =
    (text.0 ≡ (if is_utf16 then length text.1 * 2 else length text.1)) × (text.0 ≤ buffer_length)

checked_text-IsText :
    (is_utf16 : Bool) (buffer_length : ℕ) (n : OracleNumber)
    → IsText is_utf16 buffer_length (some (checked_text is_utf16 buffer_length n))
checked_text-IsText is_utf16 buffer_length n =
    let num_bytes = if is_utf16 then text_size n * 2 else text_size n in
    elim (Bool-cases (ltb buffer_length num_bytes)) [
      | inl long ↦ rw long tt
      | inr fits ↦ rw fits (rw (length-number_text n) refl, ground arith)
    ]

-- The text of an OCINumber whose mantissa bytes stand for base-100 digits is written within the array of
-- digits, in UTF-16 or in an encoding of one byte to a character; where it does not fail, the length
-- that is reported is that of the text in bytes, and the text fits in the buffer.
pub length-from_oracle_number_as_text :
    (is_utf16 : Bool) (buffer_length : ℕ) (value : List ℕ)
    → IsProper value
    → IsText is_utf16 buffer_length (from_oracle_number_as_text is_utf16 buffer_length value)
unfolding from_oracle_number_as_text
length-from_oracle_number_as_text is_utf16 buffer_length value proper =
    elim (Result-cases (parse_oracle_number value)) [
      | inl (e, failed) ↦ rw (from_oracle_number_as_text, failed) tt
      | inr (n, parsed) ↦
          let fit : length n.digits ≤ number_max_digits =
            subst DigitsFit parsed (parse-DigitsFit value proper) in
          let within : ltb number_max_digits (length n.digits) ≡ false = ground arith in
          rw (from_oracle_number_as_text, parsed, within)
            (checked_text-IsText is_utf16 buffer_length n)
    ]
