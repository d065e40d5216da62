-- ===== src/Number/RoundTrip.antt =====
-- An OCINumber that `dpiDataBuffer__toOracleNumberFromText` has written is read back by
-- `dpiUtils__parseOracleNumber` as the same number.
use godror.Base.{
  ℕ, zero, suc, ◌+◌, ◌-◌, ◌*◌, ◌%◌, ◌<◌, ◌≤◌, ◌≡◌, refl, ap, ◌∙◌, Bool, true, false, ◌&&◌,
  Bool-cases, inl, inr, List, [], ◌∷◌, ◌++◌, ◌==◌, ltb, length, All, ℤ, pos, negsuc, ◌≤ℤ◌, ◌-ℤ◌,
  ◌+ℤ◌, ok, int_laws, arith,
}
use godror.Number.Parse.{Parsed, number_max_digits}
use godror.Number.Bytes.{
  start, sentinel, tail_bytes, parse_bytes, write_even, write_odd, half_up-pos,
}
use godror.Number.Oracle.{
  OracleNumber, encode_byte, encode_pairs, decode_mantissa, first_digit, second_digit,
  exponent_byte, is_odd, bit, to_oracle_number, parse_oracle_number,
}
use godror.Number.Canonical.{IsCanonical}
use godror.Number.Exponent.{decoded_index, exponent_byte_lem}
use godror.Number.Mantissa.{
  half_up, length-encode_pairs, encode_byte-lt, encode_pairs-lt, EndsNonzero-trim_end,
  EndsNonzero-rest, odd_bit, odd_bit-le, half_up-length, EndsNonzero, decode_step,
  first_digit_nonzero, second_digit_lem, decode-encode_pairs,
}
use godror.Number.Literal.{IsDigits}

single_pair : (d : ℕ) → d < 10 → d ≡ (0 * 10 % 256 + d) % 256
single_pair d h = omega arith

first_zero :
    (n : OracleNumber)
    → first_digit true 0 n ≡ record n {
      num_digits = n.num_digits - 1;
      decimal_point_index = n.decimal_point_index -ℤ pos 1;
    }
unfolding first_digit
first_zero n = refl

odd_count : (ds : List ℕ) → suc (half_up ds) * 2 - 1 - odd_bit ds ≡ suc (length ds)
odd_count ds = omega (arith, half_up-length ds, odd_bit-le ds)

even_count : (ds : List ℕ) → half_up ds * 2 - odd_bit ds ≡ length ds
even_count ds = omega (arith, half_up-length ds, odd_bit-le ds)

decode_odd :
    (b : Bool) (i : ℤ) (d : ℕ) (ds rest : List ℕ)
    → IsDigits (d ∷ ds)
    → (d == 0) ≡ false
    → EndsNonzero ds
    → decode_mantissa true
        (suc (half_up ds))
        ((encode_byte b d ∷ encode_pairs (half_up ds) b ds) ++ rest)
        (start b (suc (half_up ds)) i)
      ≡ record {
        is_negative = b;
        decimal_point_index = i -ℤ pos 1;
        num_digits = suc (length ds);
        digits = d ∷ ds;
      }
decode_odd b i d ds rest h z e =
    ap (λ x. decode_mantissa true (suc k) (encode_byte b x ∷ bytes) (start b (suc k) i))
      (single_pair d h.0)
    ∙ (decode_step true 0 d k bytes (start b (suc k) i) (omega arith) h.0
        ∙ (ap (λ n. decode_mantissa false k bytes (second_digit (k == 0) d n))
              (first_zero (start b (suc k) i))
            ∙ rw
                (
                  second_digit_lem (k == 0) d
                      (record (start b (suc k) i) {
                        num_digits = suc k * 2 - 1;
                        decimal_point_index = i -ℤ pos 1;
                      })
                      (rw z refl),
                  decode-encode_pairs ds rest
                      (record {
                        is_negative = b;
                        decimal_point_index = i -ℤ pos 1;
                        num_digits = suc k * 2 - 1;
                        digits = d ∷ [];
                      })
                      h.1 e,
                  odd_count ds,
                )
                refl))
  where
    k : ℕ
    k = half_up ds

    bytes : List ℕ
    bytes = encode_pairs k b ds ++ rest

-- The first digit is no zero: the first round is as the others.
first_round :
    (b : Bool) (i : ℤ) (d : ℕ) (ds rest : List ℕ)
    → IsDigits (d ∷ ds)
    → (d == 0) ≡ false
    → let k = half_up (d ∷ ds) in
      decode_mantissa true k (encode_pairs k b (d ∷ ds) ++ rest) (start b k i)
      ≡ decode_mantissa false k (encode_pairs k b (d ∷ ds) ++ rest) (start b k i)
unfolding encode_pairs
first_round b i d [] rest h z =
    rw
      (
        decode_step true d 0 0 rest (start b 1 i) h.0 (omega arith),
        decode_step false d 0 0 rest (start b 1 i) h.0 (omega arith),
        first_digit_nonzero d (start b 1 i) z,
      )
      refl
first_round b i d (e ∷ ds) rest h z =
    let n = start b (suc (half_up ds)) i in
    let bytes = encode_pairs (half_up ds) b ds ++ rest in
    rw
      (
        decode_step true d e (half_up ds) bytes n h.0 h.1.0,
        decode_step false d e (half_up ds) bytes n h.0 h.1.0,
        first_digit_nonzero d n z,
      )
      refl

decode_even :
    (b : Bool) (i : ℤ) (d : ℕ) (ds rest : List ℕ)
    → IsDigits (d ∷ ds)
    → (d == 0) ≡ false
    → EndsNonzero (d ∷ ds)
    → let k = half_up (d ∷ ds) in
      decode_mantissa true k (encode_pairs k b (d ∷ ds) ++ rest) (start b k i) ≡ record {
        is_negative = b;
        decimal_point_index = i;
        num_digits = suc (length ds);
        digits = d ∷ ds;
      }
decode_even b i d ds rest h z e =
    first_round b i d ds rest h z
    ∙ (decode-encode_pairs (d ∷ ds) rest (start b (half_up (d ∷ ds)) i) h e
        ∙ rw (even_count (d ∷ ds)) refl)

parse_written :
    (b s : Bool) (e k : ℕ) (body : List ℕ)
    → ltb e 128 ≡ b
    → 0 < k
    → length body ≡ k
    → k + bit s ≤ 20
    → (s && b) ≡ s
    → All (λ x. x < 102) body
    → parse_oracle_number ((k + 1 + bit s) % 256 ∷ e ∷ body ++ tail_bytes s)
      ≡ ok (decode_mantissa true k (body ++ tail_bytes s) (start b k (decoded_index b e)))
parse_written b s e zero body sign pos_k len fits neg small = absurd (omega arith)
parse_written b s e (suc k) body sign pos_k len fits neg small =
    parse_bytes b s e k body sign len fits neg small

sentinel-and : (b : Bool) (n : ℕ) → (sentinel b n && b) ≡ sentinel b n
sentinel-and true n = ground arith
sentinel-and false n = refl

room : (b : Bool) (k : ℕ) → 2 * k ≤ 41 → k + bit (sentinel b (2 * k)) ≤ 20
room true k h = ground arith
room false k h = ground arith

next_even : (i : ℤ) → is_odd i ≡ true → is_odd (i +ℤ pos 1) ≡ false
unfolding ◌+ℤ◌ ◌-ℤ◌
next_even (pos n) h = ground arith
next_even (negsuc n) h = ground arith

-- below 126 where the index is odd
next_high : (i : ℤ) → is_odd i ≡ true → i ≤ℤ pos 126 → i +ℤ pos 1 ≤ℤ pos 126
unfolding ◌+ℤ◌
next_high (pos n) h k = ground arith
next_high (negsuc n) h k = ground arith

next_low : (i : ℤ) → negsuc 128 ≤ℤ i → negsuc 128 ≤ℤ i +ℤ pos 1
next_low i h = omega int_laws

next_back : (i : ℤ) → i +ℤ pos 1 -ℤ pos 1 ≡ i
next_back i = omega int_laws

-- the digits fit into the 20 mantissa bytes that the reader accepts
abbrev pub HasRoom : Parsed → Type 0
HasRoom p = length p.digits + bit (is_odd p.decimal_point_index) ≤ number_max_digits

-- what the reader should return for a number
abbrev pub as_oracle : Parsed → OracleNumber
as_oracle p = record {
  is_negative = p.is_negative;
  decimal_point_index = p.decimal_point_index;
  num_digits = length p.digits;
  digits = p.digits;
}

abbrev pub number : Bool → ℤ → List ℕ → Parsed
number b i ds = record { is_negative = b; decimal_point_index = i; digits = ds }

round_trip_even :
    (b : Bool) (i : ℤ) (d : ℕ) (ds : List ℕ)
    → IsCanonical (number b i (d ∷ ds))
    → is_odd i ≡ false
    → parse_oracle_number (to_oracle_number (number b i (d ∷ ds)))
      ≡ ok (as_oracle (number b i (d ∷ ds)))
round_trip_even b i d ds c o =
    let k = half_up (d ∷ ds) in
    let s = sentinel b (2 * k) in
    let e = exponent_byte_lem b i o c.low c.high in
    rw
      (
        write_even b i (d ∷ ds) o (omega arith),
        parse_written b s (exponent_byte b i) k (encode_pairs k b (d ∷ ds)) e.1
            (half_up-pos (d ∷ ds) (omega arith)) (length-encode_pairs k b (d ∷ ds))
            (room b k (omega (arith, c.size, half_up-length (d ∷ ds), odd_bit-le (d ∷ ds))))
            (sentinel-and b (2 * k)) (encode_pairs-lt k b (d ∷ ds) c.decimal),
        e.0,
        decode_even b i d ds (tail_bytes s) c.decimal c.trimmed
            (EndsNonzero-trim_end (d ∷ ds) c.trimmed_end),
      )
      refl

round_trip_odd :
    (b : Bool) (i : ℤ) (d : ℕ) (ds : List ℕ)
    → IsCanonical (number b i (d ∷ ds))
    → suc (length ds) + 1 ≤ number_max_digits
    → is_odd i ≡ true
    → parse_oracle_number (to_oracle_number (number b i (d ∷ ds)))
      ≡ ok (as_oracle (number b i (d ∷ ds)))
round_trip_odd b i d ds c r o =
    let k = suc (half_up ds) in
    let s = sentinel b (2 * k) in
    let j = i +ℤ pos 1 in
    let body = encode_byte b d ∷ encode_pairs (half_up ds) b ds in
    let e = exponent_byte_lem b j (next_even i o) (next_low i c.low) (next_high i o c.high) in
    rw
      (
        write_odd b i d ds o,
        parse_written b s (exponent_byte b j) k body e.1 (omega arith)
            (ap suc (length-encode_pairs (half_up ds) b ds))
            (room b k (omega (arith, half_up-length ds, odd_bit-le ds))) (sentinel-and b (2 * k))
            (
              encode_byte-lt b d (omega (arith, c.decimal.0)),
              encode_pairs-lt (half_up ds) b ds c.decimal.1,
            ),
        e.0,
        decode_odd b j d ds (tail_bytes s) c.decimal c.trimmed
            (EndsNonzero-rest d ds (EndsNonzero-trim_end (d ∷ ds) c.trimmed_end)),
        next_back i,
      )
      refl

round_trip_by_parity :
    (b : Bool) (i : ℤ) (ds : List ℕ)
    → IsCanonical (number b i ds)
    → 0 < length ds
    → HasRoom (number b i ds)
    → parse_oracle_number (to_oracle_number (number b i ds)) ≡ ok (as_oracle (number b i ds))
round_trip_by_parity b i [] c h r = absurd (omega arith)
round_trip_by_parity b i (d ∷ ds) c h r = elim (Bool-cases (is_odd i)) [
  | inl o ↦ round_trip_odd b i d ds c (ground arith) o
  | inr e ↦ round_trip_even b i d ds c e
]

-- Every canonical number other than zero whose digits have room in the mantissa is written to an
-- OCINumber from which exactly its sign, decimal point index and digits are read back.
pub parse-to_oracle_number :
    (p : Parsed)
    → IsCanonical p
    → 0 < length p.digits
    → HasRoom p
    → parse_oracle_number (to_oracle_number p) ≡ ok (as_oracle p)
parse-to_oracle_number p c h r =
    round_trip_by_parity p.is_negative p.decimal_point_index p.digits c h r

-- Zero is written with either sign, and read back as the positive zero with one digit.
pub parse-to_oracle_number_zero :
    (b : Bool) (i : ℤ)
    → parse_oracle_number (to_oracle_number (number b i []))
      ≡ ok (record {
        is_negative = false;
        decimal_point_index = pos 1;
        num_digits = 1;
        digits = 0 ∷ [];
      })
unfolding parse_oracle_number to_oracle_number
parse-to_oracle_number_zero b i = ground arith
