-- ===== src/Number/Grammar.antt =====
-- What `dpiUtils__parseNumberString` makes of a text of the documented format, for every text.
use godror.Base.{
  ℕ, ◌+◌, ◌<◌, ◌≤◌, ◌≡◌, refl, ◌∙◌, Bool, true, false, Option, none, some, Bool-cases, inl, inr,
  List, [], ◌∷◌, ◌++◌, ◌==◌, ltb, if◌then◌else◌, length, ◌*◌, ℤ, pos, ◌+ℤ◌, ◌-ℤ◌, Result, ok, err,
  number_string_too_long, ◌>>◌, fail_if, number_no_repr, int_laws, arith,
}
use godror.Number.Parse.{
  number_as_text_chars, Charset, single_byte, utf16, convert_utf16, parse_number_string, Parsed,
  decimal, signed, exponent_sign, is_empty, is_out_of_range, scan_fraction, scan_point,
  scan_exponent, add_exponent, finish, parse_unsigned, parse_chars,
}
use godror.Number.Literal.{
  IsDigits, chars, trim, zeroes, push_all-nil, ends_whole, ends_fraction, scan_whole-chars,
  scan_both, scan_exponent_digits-chars,
}
use godror.Number.Digits.{trim_end, strip-trim_end}

pub data Sign : Type 0 where
  absent plus minus : Sign

pub record Exponent : Type 0 where
  pub upper_case : Bool
  pub sign : Sign
  pub digits : List ℕ

-- `-12.50e-1` has the parts true, 12, some 50 and some e-1.
pub record Literal : Type 0 where
  pub negative : Bool
  pub whole : List ℕ
  pub fraction : Option (List ℕ)
  pub exponent : Option Exponent

abbrev pub sign_text : Sign → List ℕ
sign_text absent = []
sign_text plus = b'+' ∷ []
sign_text minus = b'-' ∷ []

abbrev pub exponent_text : Option Exponent → List ℕ
exponent_text none = []
exponent_text (some e) = (if e.upper_case then b'E' else b'e') ∷ sign_text e.sign ++ chars e.digits

abbrev pub fraction_text : Option (List ℕ) → List ℕ
fraction_text none = []
fraction_text (some ds) = b'.' ∷ chars ds

abbrev pub unsigned_text : Literal → List ℕ
unsigned_text l = chars l.whole ++ (fraction_text l.fraction ++ exponent_text l.exponent)

abbrev pub text : Literal → List ℕ
text l = if l.negative then b'-' ∷ unsigned_text l else unsigned_text l

abbrev pub fraction_digits : Option (List ℕ) → List ℕ
fraction_digits none = []
fraction_digits (some ds) = ds

abbrev pub is_minus : Sign → Bool
is_minus minus = true
is_minus absent = false
is_minus plus = false

abbrev pub exponent_value : Option Exponent → ℤ
exponent_value none = pos 0
exponent_value (some e) = signed (is_minus e.sign) (decimal 0 e.digits)

abbrev pub all_digits : Literal → List ℕ
all_digits l = l.whole ++ fraction_digits l.fraction

-- where the decimal point stands, in front of the first digit that is not zero
abbrev pub point : Literal → ℤ
point l = pos (length l.whole) -ℤ pos (zeroes (all_digits l)) +ℤ exponent_value l.exponent

-- The number that the parts stand for, with no zeroes at either end.
pub literal_value : Literal → Result Parsed
literal_value l = do
  let digits = trim_end (trim (all_digits l))
  fail_if (is_out_of_range (point l) digits) number_no_repr
  ok (record { is_negative = l.negative; decimal_point_index = point l; digits = digits })

abbrev pub IsExponent : Option Exponent → Type 0
IsExponent none = Unit {0}
IsExponent (some e) = IsDigits e.digits × (0 < length e.digits) × (length e.digits ≤ 3)

pub record IsLiteral (l : Literal) : Type 0 where
  pub whole : IsDigits l.whole
  pub fraction : IsDigits (fraction_digits l.fraction)
  pub exponent : IsExponent l.exponent

ends_exponent : (e : Option Exponent) → ends_fraction (exponent_text e) ≡ true
ends_exponent none = refl
ends_exponent (some e) = ground arith

finish_lem :
    (negative : Bool) (index : ℤ) (digits : List ℕ)
    → finish negative index digits ≡ (
        fail_if (is_out_of_range index (trim_end digits)) number_no_repr
        >> ok (record {
          is_negative = negative;
          decimal_point_index = index;
          digits = trim_end digits;
        }))
unfolding finish
finish_lem negative index digits = rw (strip-trim_end digits) refl

add_zero : (i : ℤ) → i +ℤ pos 0 ≡ i
add_zero i = omega int_laws

is_empty-pos : (ds : List ℕ) → 0 < length ds → is_empty ds ≡ false
is_empty-pos [] h = absurd (omega arith)
is_empty-pos (d ∷ ds) h = refl

exponent_sign-text :
    (s : Sign) (ds : List ℕ)
    → IsDigits ds
    → 0 < length ds
    → exponent_sign (sign_text s ++ chars ds) ≡ (is_minus s, chars ds)
exponent_sign-text s [] h k = absurd (omega arith)
exponent_sign-text absent (d ∷ ds) h k = ground arith
exponent_sign-text plus (d ∷ ds) h k = refl
exponent_sign-text minus (d ∷ ds) h k = refl

add_exponent_lem :
    (e : Exponent) (index : ℤ)
    → IsExponent (some e)
    → add_exponent (sign_text e.sign ++ chars e.digits) index
      ≡ ok (index +ℤ exponent_value (some e), [])
unfolding add_exponent
add_exponent_lem e index h =
    rw
      (
        exponent_sign-text e.sign e.digits h.0 h.1,
        scan_exponent_digits-chars e.digits [] h.0 (omega arith),
        is_empty-pos e.digits h.1,
      )
      refl

scan_exponent_lem :
    (e : Option Exponent) (index : ℤ)
    → IsExponent e
    → scan_exponent (exponent_text e) index ≡ ok (index +ℤ exponent_value e, [])
unfolding scan_exponent
scan_exponent_lem none index h = rw add_zero refl
scan_exponent_lem (some e) index h = elim (Bool-cases e.upper_case) [
  | inl u ↦ rw u (add_exponent_lem e index h)
  | inr l ↦ rw l (add_exponent_lem e index h)
]

scan_point_lem :
    (whole : List ℕ) (f : Option (List ℕ)) (e : Option Exponent)
    → IsDigits (fraction_digits f)
    → scan_point (fraction_text f ++ exponent_text e) (pos (length (trim whole))) (trim whole)
      ≡ ok (
        pos (length whole) -ℤ pos (zeroes (whole ++ fraction_digits f)),
        trim (whole ++ fraction_digits f),
        exponent_text e,
      )
unfolding scan_point scan_fraction
scan_point_lem whole none none h = scan_both whole [] [] tt refl
scan_point_lem whole none (some e) h = elim (Bool-cases e.upper_case) [
  | inl u ↦ rw u (scan_both whole [] (b'E' ∷ sign_text e.sign ++ chars e.digits) tt refl)
  | inr l ↦ rw l (scan_both whole [] (b'e' ∷ sign_text e.sign ++ chars e.digits) tt refl)
]
scan_point_lem whole (some ds) e h = scan_both whole ds (exponent_text e) h (ends_exponent e)

ends_whole_lem :
    (f : Option (List ℕ)) (e : Option Exponent)
    → ends_whole (fraction_text f ++ exponent_text e) ≡ true
ends_whole_lem none none = refl
ends_whole_lem none (some e) = ground arith
ends_whole_lem (some ds) e = refl

parse_unsigned_lem :
    (l : Literal) → IsLiteral l → parse_unsigned l.negative (unsigned_text l) ≡ literal_value l
unfolding parse_unsigned literal_value
parse_unsigned_lem l h =
    rw
      (
        scan_whole-chars l.whole (fraction_text l.fraction ++ exponent_text l.exponent) [] h.whole
            (ends_whole_lem l.fraction l.exponent),
        push_all-nil l.whole,
        scan_point_lem l.whole l.fraction l.exponent h.fraction,
        scan_exponent_lem l.exponent (pos (length l.whole) -ℤ pos (zeroes (all_digits l)))
            h.exponent,
      )
      (finish_lem l.negative (point l) (trim (all_digits l)))

-- A text without a sign begins with no `-`.
parse_chars-unsigned :
    (whole : List ℕ) (f : Option (List ℕ)) (e : Option Exponent)
    → IsDigits whole
    → let value = chars whole ++ (fraction_text f ++ exponent_text e) in
      parse_chars value ≡ parse_unsigned false value
unfolding parse_chars
parse_chars-unsigned [] none none h = refl
parse_chars-unsigned [] none (some e) h = elim (Bool-cases e.upper_case) [
  | inl u ↦ rw u refl
  | inr l ↦ rw l refl
]
parse_chars-unsigned [] (some ds) e h = refl
parse_chars-unsigned (d ∷ ds) f e h = rw (no_sign d h.0) refl
  where
    no_sign : (d : ℕ) → d < 10 → (b'0' + d == b'-') ≡ false
    no_sign d h = ground arith

parse_chars-sign :
    (negative : Bool) (l : Literal)
    → IsLiteral l
    → parse_chars (if negative then b'-' ∷ unsigned_text l else unsigned_text l)
      ≡ parse_unsigned negative (unsigned_text l)
unfolding parse_chars
parse_chars-sign true l h = refl
parse_chars-sign false l h = parse_chars-unsigned l.whole l.fraction l.exponent h.whole

-- A text of the format is read as the number that it stands for.
pub parse_chars-text : (l : Literal) → IsLiteral l → parse_chars (text l) ≡ literal_value l
parse_chars-text l h = parse_chars-sign l.negative l h ∙ parse_unsigned_lem l h

-- the bytes of characters in UTF-16
pub data Units (word : ℕ → ℕ → ℕ) : List ℕ → List ℕ → Type 0 where
  no_units : Units word [] []
  unit :
      (a b c : ℕ) (value chars : List ℕ)
      → word a b ≡ c
      → c ≤ 127
      → Units word value chars
      → Units word (a ∷ b ∷ value) (c ∷ chars)

-- the bytes of a text
abbrev pub EncodedAs : Charset → List ℕ → List ℕ → Type 0
EncodedAs single_byte value chars = value ≡ chars
EncodedAs (utf16 word) value chars = Units word value chars

length-Units :
    (word : ℕ → ℕ → ℕ) (value chars : List ℕ)
    → Units word value chars
    → length value ≡ length chars * 2
length-Units word value chars no_units = refl
length-Units word value chars (unit a b c bytes cs e le rest) =
    omega (arith, length-Units word bytes cs rest)

convert-Units :
    (word : ℕ → ℕ → ℕ) (value chars : List ℕ)
    → Units word value chars
    → convert_utf16 word value ≡ ok chars
unfolding convert_utf16
convert-Units word value chars no_units = refl
convert-Units word value chars (unit a b c bytes cs e le rest) =
    let ascii : ltb 127 c ≡ false = ground arith in
    rw (e, ascii, convert-Units word bytes cs rest) refl

-- the value of a text, given its length
abbrev pub text_value : ℕ → Literal → Result Parsed
text_value n l = if ltb number_as_text_chars n then err number_string_too_long else literal_value l

-- A text of the format, in UTF-16 or in an encoding of one byte to a character, that is not empty is read as
-- the number that its parts stand for, if it has at most 172 characters and the number can be
-- represented, and is refused otherwise; a number that is too small is refused, not taken for zero.
pub parse_number_string-text :
    (charset : Charset) (value : List ℕ) (l : Literal)
    → IsLiteral l
    → EncodedAs charset value (text l)
    → 0 < length (text l)
    → parse_number_string charset value ≡ text_value (length (text l)) l
unfolding parse_number_string
parse_number_string-text single_byte value l h encoded lo =
    let some_chars : (length (text l) == 0) ≡ false = ground arith in
    rw (encoded, some_chars)
      (elim (Bool-cases (ltb number_as_text_chars (length (text l)))) [
        | inl long ↦ rw long refl
        | inr short ↦ rw short (parse_chars-text l h)
      ])
parse_number_string-text (utf16 word) value l h encoded lo =
    let size = length-Units word value (text l) encoded in
    let some_chars : (length value == 0) ≡ false = ground (arith, size) in
    elim (Bool-cases (ltb number_as_text_chars (length (text l)))) [
      | inl long ↦
          let long_value : ltb (number_as_text_chars * 2) (length value) ≡ true =
            ground (arith, size) in
          rw (some_chars, long_value, long) refl
      | inr short ↦
          let short_value : ltb (number_as_text_chars * 2) (length value) ≡ false =
            ground (arith, size) in
          rw (some_chars, short_value, short, convert-Units word value (text l) encoded)
            (parse_chars-text l h)
    ]
