-- ===== src/Number/Mantissa.antt =====
-- The mantissa bytes of an OCINumber: what `dpiDataBuffer__toOracleNumberFromText` writes,
-- `dpiUtils__parseOracleNumber` reads back.
use native.Mathlib.Nat.{sub-zero}
use godror.Base.{
  ℕ, zero, suc, ◌+◌, ◌-◌, ◌*◌, ◌/◌, ◌%◌, ◌<◌, ◌≤◌, ◌≡◌, refl, ap, Bool, true, false, ◌&&◌, List, [],
  ◌∷◌, ◌++◌, append_assoc, append-nil, ◌==◌, length, drop, All, arith,
}
use godror.Number.Oracle.{
  OracleNumber, encode_byte, encode_pairs, decode_byte, first_digit, second_digit, decode_mantissa,
}
use godror.Number.Literal.{IsDigits, and_false}
use godror.Number.Digits.{trim_end, keep_or_drop}

-- half of the number of digits, rounded up
abbrev pub half_up : List ℕ → ℕ
half_up [] = 0
half_up (d ∷ []) = 1
half_up (d ∷ e ∷ ds) = suc (half_up ds)

-- 1 for an odd number of digits
abbrev pub odd_bit : List ℕ → ℕ
odd_bit [] = 0
odd_bit (d ∷ []) = 1
odd_bit (d ∷ e ∷ ds) = odd_bit ds

pub half_up-length : (ds : List ℕ) → 2 * half_up ds ≡ length ds + odd_bit ds
half_up-length [] = omega arith
half_up-length (d ∷ []) = omega arith
half_up-length (d ∷ e ∷ ds) = omega (arith, half_up-length ds)

pub odd_bit-le : (ds : List ℕ) → odd_bit ds ≤ 1
odd_bit-le [] = omega arith
odd_bit-le (d ∷ []) = omega arith
odd_bit-le (d ∷ e ∷ ds) = odd_bit-le ds

pub decode-encode_byte : (b : Bool) (x : ℕ) → x < 100 → decode_byte b (encode_byte b x) ≡ x
decode-encode_byte true x h = omega arith
decode-encode_byte false x h = omega arith

pub encode_byte-lt : (b : Bool) (x : ℕ) → x < 100 → encode_byte b x < 102
encode_byte-lt true x h = omega arith
encode_byte-lt false x h = omega arith

-- A zero at the end changes no byte.
pub encode_pairs-append_zero :
    (n : ℕ) (b : Bool) (ds : List ℕ) → encode_pairs n b (ds ++ 0 ∷ []) ≡ encode_pairs n b ds
unfolding encode_pairs
encode_pairs-append_zero zero b ds = refl
encode_pairs-append_zero (suc n) b [] = refl
encode_pairs-append_zero (suc n) b (d ∷ []) = refl
encode_pairs-append_zero (suc n) b (d ∷ e ∷ ds) =
    ap (λ r. encode_byte b ((d * 10 % 256 + e) % 256) ∷ r) (encode_pairs-append_zero n b ds)

pub length-encode_pairs : (n : ℕ) (b : Bool) (ds : List ℕ) → length (encode_pairs n b ds) ≡ n
unfolding encode_pairs
length-encode_pairs zero b ds = refl
length-encode_pairs (suc n) b ds = ap suc (length-encode_pairs n b (drop 2 ds))

pair_lt : (d e : ℕ) → d < 10 → e < 10 → (d * 10 % 256 + e) % 256 < 100
pair_lt d e h k = omega arith

pair_eq : (d e : ℕ) → d < 10 → e < 10 → (d * 10 % 256 + e) % 256 ≡ d * 10 + e
pair_eq d e h k = omega arith

pub encode_pairs-lt :
    (n : ℕ) (b : Bool) (ds : List ℕ) → IsDigits ds → All (λ x. x < 102) (encode_pairs n b ds)
unfolding encode_pairs
encode_pairs-lt zero b ds h = tt
encode_pairs-lt (suc n) b [] h = (encode_byte-lt b 0 (omega arith), encode_pairs-lt n b [] tt)
encode_pairs-lt (suc n) b (d ∷ []) h =
    (encode_byte-lt b _ (pair_lt d 0 h.0 (omega arith)), encode_pairs-lt n b [] tt)
encode_pairs-lt (suc n) b (d ∷ e ∷ ds) h =
    (encode_byte-lt b _ (pair_lt d e h.0 h.1.0), encode_pairs-lt n b ds h.1.1)

first_digit_lem :
    (d : ℕ) (n : OracleNumber)
    → d < 10
    → first_digit false d n ≡ record n { digits = n.digits ++ d ∷ [] }
unfolding first_digit
first_digit_lem d n h = ground arith

pub first_digit_nonzero :
    (d : ℕ) (n : OracleNumber) → (d == 0) ≡ false → first_digit true d n ≡ first_digit false d n
unfolding first_digit
first_digit_nonzero d n h = rw h refl

-- one round of the reader on a pair of digits
pub decode_step :
    (is_first : Bool) (d e count : ℕ) (rest : List ℕ) (n : OracleNumber)
    → d < 10
    → e < 10
    → decode_mantissa is_first
        (suc count)
        (encode_byte n.is_negative ((d * 10 % 256 + e) % 256) ∷ rest)
        n
      ≡ decode_mantissa false count rest (second_digit (count == 0) e (first_digit is_first d n))
unfolding decode_mantissa
decode_step is_first d e count rest n h k =
    rw
      (
        pair_eq d e h k,
        decode-encode_byte n.is_negative (d * 10 + e) (omega arith),
        tens d e k,
        ones d e k,
      )
      refl
  where
    tens : (d e : ℕ) → e < 10 → (d * 10 + e) / 10 ≡ d
    tens d e k = omega arith

    ones : (d e : ℕ) → e < 10 → (d * 10 + e) % 10 ≡ e
    ones d e k = omega arith

-- the last digit is not zero
abbrev pub EndsNonzero : List ℕ → Type 0
EndsNonzero [] = Unit {0}
EndsNonzero (d ∷ []) = (d == 0) ≡ false
EndsNonzero (d ∷ e ∷ ds) = EndsNonzero (e ∷ ds)

pub EndsNonzero-rest : (d : ℕ) (ds : List ℕ) → EndsNonzero (d ∷ ds) → EndsNonzero ds
EndsNonzero-rest d [] h = tt
EndsNonzero-rest d (e ∷ ds) h = h

keep_or_drop-cons :
    (d : ℕ) (r : List ℕ) (e : ℕ) (ds : List ℕ) → keep_or_drop d r ≡ d ∷ e ∷ ds → r ≡ e ∷ ds
keep_or_drop-cons d [] e ds h = ground arith
keep_or_drop-cons d (x ∷ xs) e ds h = cc

pub EndsNonzero-trim_end : (ds : List ℕ) → trim_end ds ≡ ds → EndsNonzero ds
EndsNonzero-trim_end [] h = tt
EndsNonzero-trim_end (d ∷ []) h = ground arith
EndsNonzero-trim_end (d ∷ e ∷ ds) h =
    EndsNonzero-trim_end (e ∷ ds) (keep_or_drop-cons d (trim_end (e ∷ ds)) e ds h)

pub second_digit_lem :
    (b : Bool) (d : ℕ) (n : OracleNumber)
    → (d == 0 && b) ≡ false
    → second_digit b d n ≡ record n { digits = n.digits ++ d ∷ [] }
unfolding second_digit
second_digit_lem b d n h = rw h refl

second_digit-zero :
    (n : OracleNumber) → second_digit true 0 n ≡ record n { num_digits = n.num_digits - 1 }
unfolding second_digit
second_digit-zero n = refl

suc_nonzero : (n : ℕ) → (suc n == 0) ≡ false
suc_nonzero n = ground arith

-- `e` is dropped only where it is a zero at the end
not_dropped : (e : ℕ) (ds : List ℕ) → EndsNonzero (e ∷ ds) → (e == 0 && half_up ds == 0) ≡ false
not_dropped e [] h = rw h refl
not_dropped e (d ∷ []) h = and_false (e == 0)
not_dropped e (d ∷ d' ∷ ds) h = rw suc_nonzero (and_false (e == 0))

decode_mantissa-zero :
    (b : Bool) (source : List ℕ) (n : OracleNumber) → decode_mantissa b 0 source n ≡ n
unfolding decode_mantissa
decode_mantissa-zero b source n = refl

-- The reader goes through the pairs of digits that end in a digit other than zero.
pub decode-encode_pairs :
    (ds : List ℕ) (rest : List ℕ) (n : OracleNumber)
    → IsDigits ds
    → EndsNonzero ds
    → decode_mantissa false (half_up ds) (encode_pairs (half_up ds) n.is_negative ds ++ rest) n
      ≡ record n { num_digits = n.num_digits - odd_bit ds; digits = n.digits ++ ds }
unfolding encode_pairs
decode-encode_pairs [] rest n h t =
    rw (decode_mantissa-zero, append-nil n.digits, sub-zero n.num_digits) refl
decode-encode_pairs (d ∷ []) rest n h t =
    rw
      (
        decode_step false d 0 0 rest n h.0 (omega arith),
        first_digit_lem d n h.0,
        second_digit-zero,
        decode_mantissa-zero,
      )
      refl
decode-encode_pairs (d ∷ e ∷ ds) rest n h t =
    rw
      (
        decode_step false d e (half_up ds) (encode_pairs (half_up ds) n.is_negative ds ++ rest) n
            h.0 h.1.0,
        first_digit_lem d n h.0,
        second_digit_lem (half_up ds == 0) e (record n { digits = n.digits ++ d ∷ [] })
            (not_dropped e ds t),
        decode-encode_pairs ds rest (record n { digits = (n.digits ++ d ∷ []) ++ e ∷ [] }) h.1.1
            (EndsNonzero-rest e ds t),
        append_assoc (n.digits ++ d ∷ []) (e ∷ []) ds,
        append_assoc n.digits (d ∷ []) (e ∷ ds),
      )
      refl
