-- ===== src/Number/Tests.antt =====
-- Runs of the number conversions, and the theorems applied to them.
use godror.Base.{
  ℕ, List, ◌≡◌, ◌≤◌, ◌+◌, ◌*◌, refl, true, false, none, some, [], ◌∷◌, length, replicate, pos, ◌+ℤ◌,
  ◌-ℤ◌, ok, err, number_no_repr, invalid_oci_number, arith,
}
use godror.Number.Parse.{Parsed, single_byte, utf16, parse_number_string}
use godror.Number.Oracle.{
  to_oracle_number, to_oracle_number_from_text, parse_oracle_number, encode_pairs, encode_mantissa,
  decode_mantissa, first_digit, second_digit,
}
use godror.Number.Text.{from_oracle_number_as_text}
use godror.Number.TextSize.{IsText, length-from_oracle_number_as_text}
use godror.Number.Grammar.{
  Literal, minus, text, IsLiteral, unit, no_units, Units, text_value, parse_number_string-text,
}
use godror.Number.Canonical.{IsCanonical, parse_number_string-IsCanonical}
use godror.Number.RoundTrip.{as_oracle, parse-to_oracle_number}
use godror.Number.Size.{oci_number_size, length-to_oracle_number, overflow-to_oracle_number}

-- -012.50e-1
abbrev sample : Literal
sample = record {
  negative = true;
  whole = 0 ∷ 1 ∷ 2 ∷ [];
  fraction = some (5 ∷ 0 ∷ []);
  exponent = some (record { upper_case = false; sign = minus; digits = 1 ∷ [] });
}

-- -1.25
abbrev sample_value : Parsed
sample_value = record { is_negative = true; decimal_point_index = pos 1; digits = 1 ∷ 2 ∷ 5 ∷ [] }

-- forty digits, one of them before the point
abbrev longest : Parsed
longest = record { is_negative = false; decimal_point_index = pos 1; digits = replicate 40 7 }

sample-IsLiteral : IsLiteral sample
sample-IsLiteral = omega arith

sample_run : parse_number_string single_byte (text sample) ≡ ok sample_value
unfolding parse_number_string ◌+ℤ◌ ◌-ℤ◌
sample_run = refl

-- a UTF-16 text, the low byte first
utf16_run :
    parse_number_string (utf16 (λ a b. a)) (b'4' ∷ 0 ∷ b'2' ∷ 0 ∷ [])
    ≡ ok (record { is_negative = false; decimal_point_index = pos 2; digits = 4 ∷ 2 ∷ [] })
unfolding parse_number_string ◌+ℤ◌ ◌-ℤ◌
utf16_run = refl

-- A minus sign with no digit is accepted, as zero.
lone_minus :
    parse_number_string single_byte (b'-' ∷ [])
    ≡ ok (record { is_negative = true; decimal_point_index = pos 0; digits = [] })
unfolding parse_number_string
lone_minus = refl

-- 1e-131 is refused.
tiny_run :
    parse_number_string single_byte (b'1' ∷ b'e' ∷ b'-' ∷ b'1' ∷ b'3' ∷ b'1' ∷ [])
    ≡ err number_no_repr
unfolding parse_number_string ◌+ℤ◌ ◌-ℤ◌
tiny_run = refl

write_run : to_oracle_number_from_text single_byte (text sample) ≡ ok (4 ∷ 62 ∷ 100 ∷ 76 ∷ 102 ∷ [])
unfolding to_oracle_number_from_text encode_mantissa encode_pairs ◌+ℤ◌ ◌-ℤ◌
write_run = refl

text_run :
    from_oracle_number_as_text false 10 (4 ∷ 62 ∷ 100 ∷ 76 ∷ 102 ∷ [])
    ≡ some (ok (5, b'-' ∷ b'1' ∷ b'.' ∷ b'2' ∷ b'5' ∷ []))
unfolding from_oracle_number_as_text decode_mantissa first_digit second_digit ◌+ℤ◌ ◌-ℤ◌
text_run = refl

sample_value-IsCanonical : IsCanonical sample_value
sample_value-IsCanonical =
    parse_number_string-IsCanonical single_byte (text sample) sample_value sample_run

longest-IsCanonical : IsCanonical longest
longest-IsCanonical = record {
  decimal = omega arith;
  trimmed = refl;
  trimmed_end = refl;
  size = omega arith;
  low = omega arith;
  high = omega arith;
}

abbrev in_utf16 : List ℕ → List ℕ
in_utf16 [] = []
in_utf16 (c ∷ cs) = c ∷ 0 ∷ in_utf16 cs

sample-Units : Units (λ a b. a + 256 * b) (in_utf16 (text sample)) (text sample)
sample-Units = unit _ _ _ _ _ refl (omega arith) (
    unit _ _ _ _ _ refl (omega arith) (
      unit _ _ _ _ _ refl (omega arith) (
        unit _ _ _ _ _ refl (omega arith) (
          unit _ _ _ _ _ refl (omega arith) (
            unit _ _ _ _ _ refl (omega arith) (
              unit _ _ _ _ _ refl (omega arith) (
                unit _ _ _ _ _ refl (omega arith) (
                  unit _ _ _ _ _ refl (omega arith)
                    (unit _ _ _ _ _ refl (omega arith) no_units)))))))))

parse_number_string-text_example :
    parse_number_string (utf16 (λ a b. a + 256 * b)) (in_utf16 (text sample))
    ≡ text_value (length (text sample)) sample
parse_number_string-text_example =
    parse_number_string-text (utf16 (λ a b. a + 256 * b)) (in_utf16 (text sample)) sample
      sample-IsLiteral sample-Units (omega arith)

parse_number_string-IsCanonical_example : IsCanonical sample_value
parse_number_string-IsCanonical_example =
    parse_number_string-IsCanonical single_byte (text sample) sample_value sample_run

parse-to_oracle_number_example :
    parse_oracle_number (to_oracle_number sample_value) ≡ ok (as_oracle sample_value)
parse-to_oracle_number_example =
    parse-to_oracle_number sample_value sample_value-IsCanonical (omega arith) (omega arith)

length-to_oracle_number_example : length (to_oracle_number sample_value) ≤ oci_number_size
length-to_oracle_number_example = length-to_oracle_number sample_value (omega arith)

overflow-to_oracle_number_example :
    (length (to_oracle_number longest) ≡ 23)
    × (parse_oracle_number (to_oracle_number longest) ≡ err invalid_oci_number)
overflow-to_oracle_number_example = overflow-to_oracle_number longest longest-IsCanonical refl refl

length-from_oracle_number_as_text_example :
    IsText true 172 (from_oracle_number_as_text true 172 (2 ∷ 193 ∷ 6 ∷ []))
length-from_oracle_number_as_text_example =
    length-from_oracle_number_as_text true 172 (2 ∷ 193 ∷ 6 ∷ []) refl

-- mantissa bytes that stand for 100, each of which writes three digits
corrupt_run : from_oracle_number_as_text false 172 (21 ∷ 193 ∷ replicate 20 101) ≡ none
unfolding from_oracle_number_as_text decode_mantissa second_digit first_digit ◌-ℤ◌ ◌+ℤ◌
corrupt_run = refl
