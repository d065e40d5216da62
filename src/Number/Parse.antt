-- ===== src/Number/Parse.antt =====
-- `dpiUtils__parseNumberString` of odpi/src/dpiUtils.c: the text of a number to its digits.
-- A pointer that walks the text is the list of the characters that are left, up to `endValue`. The
-- array `digits` with its count `numDigits` is the list of the digits written so far.
use godror.Base.{
  ℕ, zero, suc, ◌+◌, ◌-◌, ◌*◌, Bool, true, false, ◌&&◌, ◌||◌, not, List, [], ◌∷◌, ◌++◌, ◌==◌, ltb,
  if◌then◌else◌, length, get_or, take, ℤ, pos, negsuc, ltb_ℤ, ◌+ℤ◌, ◌-ℤ◌, Result, ok, err, ◌>>=◌,
  ◌>>◌, fail_if, invalid_number, number_string_too_long, not_supported, number_no_repr,
}

-- DPI_NUMBER_AS_TEXT_CHARS and DPI_NUMBER_MAX_DIGITS
abbrev pub number_as_text_chars : ℕ
number_as_text_chars = 172

abbrev pub number_max_digits : ℕ
number_max_digits = 40

-- `charsetId`. For UTF-16 the platform puts two bytes into a `uint16_t` by the function.
pub data Charset : Type 0 where
  single_byte : Charset
  utf16 : (ℕ → ℕ → ℕ) → Charset

pub record Parsed : Type 0 where
  pub is_negative : Bool
  pub decimal_point_index : ℤ
  pub digits : List ℕ

abbrev pub is_empty : List ℕ → Bool
is_empty [] = true
is_empty (x ∷ xs) = false

-- `*value < '0' || *value > '9'`
abbrev pub no_digit : ℕ → Bool
no_digit c = ltb c b'0' || ltb b'9' c

abbrev pub is_exponent_mark : ℕ → Bool
is_exponent_mark c = c == b'e' || c == b'E'

abbrev pub too_long : Charset → ℕ → Bool
too_long single_byte n = ltb number_as_text_chars n
too_long (utf16 word) n = ltb (number_as_text_chars * 2) n

-- The loop that converts UTF-16; half a character at the end is left out by `valueLength / 2`.
unfoldable pub convert_utf16 : (ℕ → ℕ → ℕ) → List ℕ → Result (List ℕ)
convert_utf16 word [] = ok []
convert_utf16 word (a ∷ []) = ok []
convert_utf16 word (a ∷ b ∷ bytes) = do
  fail_if (ltb 127 (word a b)) invalid_number
  chars ← convert_utf16 word bytes
  ok (word a b ∷ chars)

unfoldable pub to_single_byte : Charset → List ℕ → Result (List ℕ)
unfolding convert_utf16
to_single_byte single_byte value = ok value
to_single_byte (utf16 word) value = convert_utf16 word value

-- `*digits++ = digit; (*numDigits)++`, but for a zero in front
abbrev pub push_digit : List ℕ → ℕ → List ℕ
push_digit digits digit = if digit == 0 && is_empty digits then digits else digits ++ digit ∷ []

-- the digits up to the decimal point or the exponent, and what is left
unfoldable pub scan_whole : List ℕ → List ℕ → Result (List ℕ × List ℕ)
scan_whole [] digits = ok (digits, [])
scan_whole (c ∷ value) digits =
    let rest = scan_whole value (push_digit digits (c - b'0')) in
    if c == b'.' || is_exponent_mark c
    then ok (digits, c ∷ value)
    else if no_digit c
    then err invalid_number
    else rest

-- the digits behind the decimal point; the index falls with each zero in front
unfoldable pub scan_fraction : List ℕ → ℤ → List ℕ → Result (ℤ × List ℕ × List ℕ)
scan_fraction [] index digits = ok (index, digits, [])
scan_fraction (c ∷ value) index digits =
    let digit = c - b'0' in
    let index' = if digit == 0 && is_empty digits then index -ℤ pos 1 else index in
    let rest = scan_fraction value index' (push_digit digits digit) in
    if is_exponent_mark c
    then ok (index, digits, c ∷ value)
    else if no_digit c
    then err invalid_number
    else rest

unfoldable pub scan_point : List ℕ → ℤ → List ℕ → Result (ℤ × List ℕ × List ℕ)
unfolding scan_fraction
scan_point [] index digits = ok (index, digits, [])
scan_point (c ∷ value) index digits =
    if c == b'.' then scan_fraction value index digits else ok (index, digits, c ∷ value)

-- the characters of the exponent, three at most, as `exponentDigits`
unfoldable pub scan_exponent_digits : List ℕ → List ℕ → Result (List ℕ)
scan_exponent_digits [] found = ok found
scan_exponent_digits (c ∷ value) found =
    let rest = scan_exponent_digits value (found ++ (c - b'0') ∷ []) in
    if no_digit c then err invalid_number else if length found == 3 then err not_supported else rest

-- `strtol` on the digits, from the value read so far
abbrev pub decimal : ℕ → List ℕ → ℕ
decimal n [] = n
decimal n (d ∷ ds) = decimal (n * 10 + d) ds

-- the sign of the exponent, and what is left
abbrev pub exponent_sign : List ℕ → Bool × List ℕ
exponent_sign [] = (false, [])
exponent_sign (c ∷ value) =
    if c == b'+' then (false, value) else if c == b'-' then (true, value) else (false, c ∷ value)

abbrev pub signed : Bool → ℕ → ℤ
signed true n = pos 0 -ℤ pos n
signed false n = pos n

-- the exponent behind its mark, added to the index
unfoldable pub add_exponent : List ℕ → ℤ → Result (ℤ × List ℕ)
unfolding scan_exponent_digits
add_exponent value index = do
  let (negative, chars) = exponent_sign value
  found ← scan_exponent_digits chars []
  fail_if (is_empty found) invalid_number
  ok (index +ℤ signed negative (decimal 0 found), [])

-- the index with the exponent added, if there is one, and what is left
unfoldable pub scan_exponent : List ℕ → ℤ → Result (ℤ × List ℕ)
unfolding add_exponent
scan_exponent [] index = ok (index, [])
scan_exponent (c ∷ value) index =
    if is_exponent_mark c then add_exponent value index else ok (index, c ∷ value)

-- `numDigits` when the trailing zeroes are stripped
unfoldable pub strip_count : ℕ → List ℕ → ℕ
strip_count zero digits = zero
strip_count (suc n) digits =
    let rest = strip_count n digits in if get_or digits n 0 == 0 then rest else suc n

abbrev pub is_out_of_range : ℤ → List ℕ → Bool
is_out_of_range index digits =
    ltb number_max_digits (length digits) || ltb_ℤ (pos 126) index || ltb_ℤ index (negsuc 128)

-- the end of the function: strip the zeroes, and check that the value can be represented
unfoldable pub finish : Bool → ℤ → List ℕ → Result Parsed
unfolding strip_count
finish negative index digits = do
  let kept = take (strip_count (length digits) digits) digits
  fail_if (is_out_of_range index kept) number_no_repr
  ok (record { is_negative = negative; decimal_point_index = index; digits = kept })

unfoldable pub parse_unsigned : Bool → List ℕ → Result Parsed
unfolding scan_whole scan_point scan_exponent finish
parse_unsigned negative value = do
  (whole, after_whole) ← scan_whole value []
  (index, digits, after_point) ← scan_point after_whole (pos (length whole)) whole
  (index', after_exponent) ← scan_exponent after_point index
  fail_if (not (is_empty after_exponent)) invalid_number
  finish negative index' digits

unfoldable pub parse_chars : List ℕ → Result Parsed
unfolding parse_unsigned
parse_chars [] = parse_unsigned false []
parse_chars (c ∷ value) =
    if c == b'-' then parse_unsigned true value else parse_unsigned false (c ∷ value)

unfoldable pub parse_number_string : Charset → List ℕ → Result Parsed
unfolding to_single_byte parse_chars
parse_number_string charset value = do
  fail_if (length value == 0) invalid_number
  fail_if (too_long charset (length value)) number_string_too_long
  chars ← to_single_byte charset value
  parse_chars chars
