-- ===== src/Number/Text.antt =====
-- `dpiDataBuffer__fromOracleNumberAsText` of odpi/src/dpiData.c: the text of an OCINumber.
use godror.Base.{
  ℕ, zero, suc, ◌+◌, ◌-◌, ◌*◌, Bool, ◌&&◌, Option, none, some, List, [], ◌∷◌, ◌++◌, ◌==◌, ltb,
  if◌then◌else◌, get_or, length, replicate, ℤ, pos, negsuc, Result, ok, err, ◌>>◌, fail_if,
  buffer_size_too_small,
}
use godror.Number.Parse.{number_max_digits}
use godror.Number.Oracle.{OracleNumber, parse_oracle_number}

-- `numBytes`, for one byte to a character
abbrev pub index_bytes : ℤ → ℕ → ℕ
index_bytes (negsuc n) num_digits = n + 1 + 2
index_bytes (pos n) num_digits =
    if n == 0
    then 2
    else if ltb n num_digits
    then 1
    else if ltb num_digits n
    then n - num_digits
    else 0

unfoldable pub text_size : OracleNumber → ℕ
text_size n =
    n.num_digits + (if n.is_negative then 1 else 0) + index_bytes n.decimal_point_index n.num_digits

-- the decimal point and the zeroes in front of the digits
abbrev pub leading_text : ℤ → List ℕ
leading_text (negsuc n) = b'0' ∷ b'.' ∷ replicate (suc n) b'0'
leading_text (pos n) = if n == 0 then b'0' ∷ b'.' ∷ [] else []

-- `i == decimalPointIndex`; the loop before has brought a negative index up to 0
abbrev pub is_point : ℕ → ℤ → Bool
is_point i (pos n) = i == n
is_point i (negsuc n) = i == 0

-- the loop over the digits, `left` of them to do
unfoldable pub digits_text : ℕ → ℕ → ℤ → List ℕ → List ℕ
digits_text zero i index digits = []
digits_text (suc left) i index digits =
    (if ltb 0 i && is_point i index then b'.' ∷ [] else [])
    ++ (b'0' + get_or digits i 0) ∷ digits_text left (i + 1) index digits

abbrev pub trailing_text : ℤ → ℕ → List ℕ
trailing_text (negsuc n) num_digits = []
trailing_text (pos n) num_digits = if ltb num_digits n then replicate (n - num_digits) b'0' else []

-- The characters that are written, by the section for UTF-16 and by the other alike.
unfoldable pub number_text : OracleNumber → List ℕ
unfolding digits_text
number_text n =
    (if n.is_negative then b'-' ∷ [] else [])
    ++ (leading_text n.decimal_point_index
        ++ (digits_text n.num_digits 0 n.decimal_point_index n.digits
            ++ trailing_text n.decimal_point_index n.num_digits))

-- The text of a number that was parsed, given whether `env->charsetId` is UTF-16 and the size of the buffer:
-- the new `bytes->length` and the characters.
abbrev pub checked_text : Bool → ℕ → OracleNumber → Result (ℕ × List ℕ)
checked_text is_utf16 buffer_length n =
    let num_bytes = if is_utf16 then text_size n * 2 else text_size n in
    fail_if (ltb buffer_length num_bytes) buffer_size_too_small >> ok (num_bytes, number_text n)

-- `dpiDataBuffer__fromOracleNumberAsText`. `none` stands for digits written past the array `digits`, which
-- has DPI_NUMBER_MAX_DIGITS entries.
unfoldable pub from_oracle_number_as_text : Bool → ℕ → List ℕ → Option (Result (ℕ × List ℕ))
unfolding parse_oracle_number text_size number_text
from_oracle_number_as_text is_utf16 buffer_length value = elim (parse_oracle_number value) [
  | err e ↦ some (err e)
  | ok n ↦
      if ltb number_max_digits (length n.digits)
      then none
      else some (checked_text is_utf16 buffer_length n)
]
