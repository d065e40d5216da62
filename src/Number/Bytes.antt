-- ===== src/Number/Bytes.antt =====
-- The layout of an OCINumber: the bytes that `dpiDataBuffer__toOracleNumberFromText` writes, and
-- where `dpiUtils__parseOracleNumber` finds the sign, the exponent and the mantissa.
use godror.Base.{
  ℕ, zero, suc, ◌+◌, ◌-◌, ◌*◌, ◌/◌, ◌%◌, ◌<◌, ◌≤◌, ◌≡◌, refl, ap, ◌∙◌, sym, Bool, true, false, ◌&&◌,
  Bool-cases, inl, inr, List, [], ◌∷◌, ◌++◌, append-nil, ◌==◌, ltb, if◌then◌else◌, length,
  length-append, All, get_or, ℤ, pos, ◌+ℤ◌, ok, ==→eq, lt→ltb, arith,
}
use godror.Number.Oracle.{
  OracleNumber, encode_byte, encode_pairs, encode_mantissa, decode_mantissa, exponent_byte, is_odd,
  bit, append_zero_if, to_oracle_number, parse_oracle_number,
}
use godror.Number.Exponent.{decoded_index}
use godror.Number.Mantissa.{half_up, odd_bit-le, half_up-length, encode_pairs-append_zero}

-- the sentinel at the end of a negative number
abbrev pub tail_bytes : Bool → List ℕ
tail_bytes s = if s then 102 ∷ [] else []

get_or-last : (xs : List ℕ) (x : ℕ) → get_or (xs ++ x ∷ []) (length xs) 0 ≡ x
get_or-last [] x = refl
get_or-last (y ∷ ys) x = get_or-last ys x

get_or-lt : (xs : List ℕ) (k : ℕ) → All (λ x. x < 102) xs → get_or xs k 0 < 102
get_or-lt [] k h = omega arith
get_or-lt (x ∷ xs) zero h = h.0
get_or-lt (x ∷ xs) (suc k) h = get_or-lt xs k h.1

-- the number from which the reader's loop starts
abbrev pub start : Bool → ℕ → ℤ → OracleNumber
start negative count index = record {
  is_negative = negative;
  decimal_point_index = index;
  num_digits = count * 2;
  digits = [];
}

length_byte : (n m : ℕ) → n + 1 ≡ m → n ≤ 21 → (m % 256 + 255) % 256 ≡ n
length_byte n m e h = omega arith

low_length : (n : ℕ) → n ≤ 20 → ltb 20 n ≡ false
low_length n h = ground arith

nonzero_length : (n : ℕ) → 0 < n → (n == 0) ≡ false
nonzero_length n h = ground arith

one_less : (n k : ℕ) → n ≡ k + 1 → n - 1 ≡ k
one_less n k h = omega arith

no_sentinel : (n : ℕ) → n < 102 → (n == 102) ≡ false
no_sentinel n h = ground arith

-- The reader finds the sign, the exponent and the mantissa bytes, and skips the sentinel.
pub parse_bytes :
    (b s : Bool) (e k : ℕ) (body : List ℕ)
    → ltb e 128 ≡ b
    → length body ≡ suc k
    → suc k + bit s ≤ 20
    → (s && b) ≡ s
    → All (λ x. x < 102) body
    → parse_oracle_number ((suc k + 1 + bit s) % 256 ∷ e ∷ body ++ tail_bytes s)
      ≡ ok (
          decode_mantissa true (suc k) (body ++ tail_bytes s) (start b (suc k) (decoded_index b e)))
unfolding parse_oracle_number
parse_bytes true true e k body sign len fits neg small =
    rw
      (
        length_byte (suc k + 1) (suc k + 1 + 1) (omega arith) (omega arith),
        low_length (suc k + 1) (omega arith),
        nonzero_length (suc k + 1) (omega arith),
        sign,
        one_less (suc k + 1) (suc k) (omega arith),
        ap (λ (j : ℕ). get_or (body ++ 102 ∷ []) j 0) (sym len),
        get_or-last body 102,
      )
      refl
parse_bytes true false e k body sign len fits neg small =
    rw
      (
        length_byte (suc k) (suc k + 1 + 0) (omega arith) (omega arith),
        low_length (suc k) (omega arith),
        nonzero_length (suc k) (omega arith),
        sign,
        append-nil body,
        no_sentinel (get_or body (suc k - 1) 0) (get_or-lt body (suc k - 1) small),
      )
      refl
parse_bytes false true e k body sign len fits neg small = cc
parse_bytes false false e k body sign len fits neg small =
    rw
      (
        length_byte (suc k) (suc k + 1 + 0) (omega arith) (omega arith),
        low_length (suc k) (omega arith),
        nonzero_length (suc k) (omega arith),
        sign,
      )
      refl

-- the digits as the writer pads them to pairs
abbrev pub padded : List ℕ → List ℕ
padded ds = append_zero_if (length ds % 2 == 1) ds

length-padded : (ds : List ℕ) → length (padded ds) ≡ 2 * half_up ds
length-padded ds = elim (Bool-cases (length ds % 2 == 1)) [
  | inl o ↦
      rw (o, length-append ds (0 ∷ []))
        (omega (arith, ==→eq (length ds % 2) 1 o, half_up-length ds, odd_bit-le ds))
  | inr e ↦ rw e (omega (arith, not_one (length ds) e, half_up-length ds, odd_bit-le ds))
]
  where
    not_one : (n : ℕ) → (n % 2 == 1) ≡ false → n % 2 ≡ 0
    not_one n h = ground arith

mantissa_even :
    (n : ℕ) (b : Bool) (ds : List ℕ) → encode_mantissa n false b ds ≡ encode_pairs n b ds
unfolding encode_mantissa encode_pairs
mantissa_even zero b ds = refl
mantissa_even (suc n) b ds = refl

half_double : (k : ℕ) → 2 * k / 2 ≡ k
half_double k = omega arith

pub half_up-pos : (ds : List ℕ) → 0 < length ds → 0 < half_up ds
half_up-pos [] h = absurd (omega arith)
half_up-pos (d ∷ []) h = omega arith
half_up-pos (d ∷ e ∷ ds) h = omega arith

encode_pairs-padded :
    (n : ℕ) (b : Bool) (ds : List ℕ) → encode_pairs n b (padded ds) ≡ encode_pairs n b ds
encode_pairs-padded n b ds = ground (arith, encode_pairs-append_zero n b ds)

-- whether the writer adds the sentinel
abbrev pub sentinel : Bool → ℕ → Bool
sentinel b n = b && ltb 0 n && ltb n 40

pub write_even :
    (b : Bool) (i : ℤ) (ds : List ℕ)
    → is_odd i ≡ false
    → 0 < length ds
    → let k = half_up ds in
      to_oracle_number (record { is_negative = b; decimal_point_index = i; digits = ds })
      ≡ (k + 1 + bit (sentinel b (2 * k))) % 256 ∷ exponent_byte b i ∷ encode_pairs k b ds
        ++ tail_bytes (sentinel b (2 * k))
unfolding to_oracle_number
write_even b i ds o h =
    rw
      (
        o,
        length-padded ds,
        half_double (half_up ds),
        nonzero_length (2 * half_up ds) (omega (arith, half_up-pos ds h)),
        mantissa_even,
        encode_pairs-padded,
      )
      refl

half_up-odd : (d : ℕ) (ds : List ℕ) → half_up (d ∷ ds ++ 0 ∷ []) ≡ suc (half_up ds)
half_up-odd d [] = refl
half_up-odd d (e ∷ []) = refl
half_up-odd d (e ∷ e' ∷ ds) = ap suc (half_up-odd e' ds)

mantissa_odd :
    (k : ℕ) (p b : Bool) (d : ℕ) (ds : List ℕ)
    → encode_mantissa (suc k) true b (append_zero_if p (d ∷ ds ++ 0 ∷ []))
      ≡ encode_byte b d ∷ encode_pairs k b ds
unfolding encode_mantissa
mantissa_odd k true b d ds =
    ap (λ r. encode_byte b d ∷ r)
      (encode_pairs-append_zero k b (ds ++ 0 ∷ []) ∙ encode_pairs-append_zero k b ds)
mantissa_odd k false b d ds = ap (λ r. encode_byte b d ∷ r) (encode_pairs-append_zero k b ds)

pub write_odd :
    (b : Bool) (i : ℤ) (d : ℕ) (ds : List ℕ)
    → is_odd i ≡ true
    → let k = suc (half_up ds) in
      to_oracle_number (record { is_negative = b; decimal_point_index = i; digits = d ∷ ds })
      ≡ (k + 1 + bit (sentinel b (2 * k))) % 256
          ∷ exponent_byte b (i +ℤ pos 1)
          ∷ (encode_byte b d ∷ encode_pairs (half_up ds) b ds)
        ++ tail_bytes (sentinel b (2 * k))
unfolding to_oracle_number
write_odd b i d ds o =
    rw
      (
        o,
        lt→ltb 0 (length (d ∷ ds)) (omega arith),
        length-padded (d ∷ ds ++ 0 ∷ []),
        half_up-odd d ds,
        half_double (suc (half_up ds)),
        nonzero_length (2 * suc (half_up ds)) (omega arith),
        mantissa_odd (half_up ds) (length (d ∷ ds ++ 0 ∷ []) % 2 == 1) b d ds,
      )
      refl
