-- ===== src/Number/Oracle.antt =====
-- The OCINumber structure: `dpiDataBuffer__toOracleNumberFromText` of odpi/src/dpiData.c writes it
-- and `dpiUtils__parseOracleNumber` of odpi/src/dpiUtils.c reads it. A structure is the list of its
-- bytes from the length byte on. An `int8_t` is its bit pattern, a number below 256.
use godror.Base.{
  ℕ, zero, suc, ◌+◌, ◌-◌, ◌*◌, ◌/◌, ◌%◌, Bool, true, false, ◌&&◌, List, [], ◌∷◌, ◌++◌, ◌==◌, ltb,
  if◌then◌else◌, length, get_or, drop, ℤ, pos, negsuc, ◌+ℤ◌, ◌-ℤ◌, Result, ok, ◌>>=◌, ◌>>◌, fail_if,
  invalid_oci_number,
}
use godror.Number.Parse.{Parsed, Charset, parse_number_string, number_max_digits}

-- the conversion of an `int` to a `uint8_t`, or to the pattern of an `int8_t`
abbrev pub to_byte : ℤ → ℕ
to_byte (pos n) = n % 256
to_byte (negsuc n) = 255 - n % 256

-- the value of an `int8_t` pattern
abbrev pub int8_value : ℕ → ℤ
int8_value p = if ltb p 128 then pos p else negsuc (255 - p)

-- the C quotient `n / 2`, which rounds towards zero
abbrev pub half : ℤ → ℤ
half (pos n) = pos (n / 2)
half (negsuc n) = pos 0 -ℤ pos ((n + 1) / 2)

-- `n % 2 == 1` or `n % 2 == -1`
abbrev pub is_odd : ℤ → Bool
is_odd (pos n) = n % 2 == 1
is_odd (negsuc n) = (n + 1) % 2 == 1

-- a mantissa byte from a base-100 digit
abbrev pub encode_byte : Bool → ℕ → ℕ
encode_byte true byte = (101 + 256 - byte) % 256
encode_byte false byte = (byte + 1) % 256

-- the loop over the digit pairs, `n` of them left, reading `*source++`
unfoldable pub encode_pairs : ℕ → Bool → List ℕ → List ℕ
encode_pairs zero negative source = []
encode_pairs (suc n) negative source =
    encode_byte negative ((get_or source 0 0 * 10 % 256 + get_or source 1 0) % 256)
    ∷ encode_pairs n negative (drop 2 source)

-- the same loop from its first round, where `prependZero` makes the first digit a byte alone
unfoldable pub encode_mantissa : ℕ → Bool → Bool → List ℕ → List ℕ
unfolding encode_pairs
encode_mantissa zero prepend negative source = []
encode_mantissa (suc n) true negative source =
    encode_byte negative (get_or source 0 0) ∷ encode_pairs n negative (drop 1 source)
encode_mantissa (suc n) false negative source = encode_pairs (suc n) negative source

abbrev pub append_zero_if : Bool → List ℕ → List ℕ
append_zero_if b digits = if b then digits ++ 0 ∷ [] else digits

abbrev pub bit : Bool → ℕ
bit b = if b then 1 else 0

-- the exponent byte of a nonzero number
abbrev pub exponent_byte : Bool → ℤ → ℕ
exponent_byte negative index =
    let e = to_byte (half (index -ℤ pos 2) +ℤ pos 193) in if negative then 255 - e else e

-- What the function does from the constituent parts on: the bytes that it writes, in order.
unfoldable pub to_oracle_number : Parsed → List ℕ
to_oracle_number p =
    let prepend = is_odd p.decimal_point_index in
    let grows = prepend && ltb 0 (length p.digits) in
    let index = if grows then p.decimal_point_index +ℤ pos 1 else p.decimal_point_index in
    let digits₁ = append_zero_if grows p.digits in
    let digits = append_zero_if (length digits₁ % 2 == 1) digits₁ in
    let num_pairs = length digits / 2 in
    let sentinel =
      p.is_negative && ltb 0 (length digits) && ltb (length digits) number_max_digits in
    let length_byte = (num_pairs + 1 + bit sentinel) % 256 in
    if length digits == 0
    then length_byte ∷ 128 ∷ []
    else length_byte
        ∷ exponent_byte p.is_negative index
        ∷ encode_mantissa num_pairs prepend p.is_negative digits
      ++ (if sentinel then 102 ∷ [] else [])

-- `dpiDataBuffer__toOracleNumberFromText`
unfoldable pub to_oracle_number_from_text : Charset → List ℕ → Result (List ℕ)
unfolding parse_number_string to_oracle_number
to_oracle_number_from_text charset value = do
  p ← parse_number_string charset value
  ok (to_oracle_number p)

-- What `dpiUtils__parseOracleNumber` returns: the digits that it wrote, and its own count of them.
pub record OracleNumber : Type 0 where
  pub is_negative : Bool
  pub decimal_point_index : ℤ
  pub num_digits : ℕ
  pub digits : List ℕ

-- a base-100 digit from a mantissa byte
abbrev pub decode_byte : Bool → ℕ → ℕ
decode_byte true byte = (101 + 256 - byte) % 256
decode_byte false byte = (byte + 255) % 256

-- the first digit of a byte, whose leading zero is ignored
unfoldable pub first_digit : Bool → ℕ → OracleNumber → OracleNumber
first_digit is_first digit n =
    if digit == 0 && is_first
    then record n {
      num_digits = n.num_digits - 1;
      decimal_point_index = n.decimal_point_index -ℤ pos 1;
    }
    else if digit == 10
    then record n {
      num_digits = n.num_digits + 1;
      decimal_point_index = n.decimal_point_index +ℤ pos 1;
      digits = n.digits ++ 1 ∷ 0 ∷ [];
    }
    else record n { digits = n.digits ++ digit ∷ [] }

-- the second digit, whose trailing zero is ignored
unfoldable pub second_digit : Bool → ℕ → OracleNumber → OracleNumber
second_digit is_last digit n =
    if digit == 0 && is_last
    then record n { num_digits = n.num_digits - 1 }
    else record n { digits = n.digits ++ digit ∷ [] }

-- the loop over the mantissa, `count` bytes left
unfoldable pub decode_mantissa : Bool → ℕ → List ℕ → OracleNumber → OracleNumber
decode_mantissa is_first zero source n = n
decode_mantissa is_first (suc count) source n =
    let byte = decode_byte n.is_negative (get_or source 0 0) in
    decode_mantissa false count (drop 1 source)
      (second_digit (count == 0) (byte % 10) (first_digit is_first (byte / 10) n))

-- `dpiUtils__parseOracleNumber`
unfoldable pub parse_oracle_number : List ℕ → Result OracleNumber
parse_oracle_number value = do
  let length_value = (get_or value 0 0 + 255) % 256
  fail_if (ltb 20 length_value) invalid_oci_number
  let pattern_value = get_or value 1 0
  let negative = ltb pattern_value 128
  let e = int8_value (((if negative then 255 - pattern_value else pattern_value) + 256 - 193) % 256)
  let index = e +ℤ e +ℤ pos 2
  let source = drop 2 value
  let count =
      if negative && get_or source (length_value - 1) 0 == 102
      then length_value - 1
      else length_value
  let zero_value =
      if negative
      then record {
        is_negative = true;
        decimal_point_index = pos 127;
        num_digits = 1;
        digits = 1 ∷ [];
      }
      else record {
        is_negative = false;
        decimal_point_index = pos 1;
        num_digits = 1;
        digits = 0 ∷ [];
      }
  ok (
      if length_value == 0
      then zero_value
      else decode_mantissa true count source (record {
        is_negative = negative;
        decimal_point_index = index;
        num_digits = count * 2;
        digits = [];
      }))
