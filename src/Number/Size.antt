-- ===== src/Number/Size.antt =====
-- How many bytes `dpiDataBuffer__toOracleNumberFromText` writes into the 22 bytes of an OCINumber.
use godror.Base.{
  ℕ, suc, ◌+◌, ◌*◌, ◌<◌, ◌≤◌, ◌≡◌, refl, ap, Bool, true, false, Bool-cases, inl, inr, List, [], ◌∷◌,
  length, length-append, ℤ, err, invalid_oci_number, arith,
}
use godror.Number.Parse.{Parsed, number_max_digits}
use godror.Number.Oracle.{encode_pairs, is_odd, bit, to_oracle_number, parse_oracle_number}
use godror.Number.Canonical.{IsCanonical}
use godror.Number.Mantissa.{half_up, odd_bit-le, half_up-length, length-encode_pairs}
use godror.Number.Bytes.{sentinel, tail_bytes, write_even, write_odd}
use godror.Number.RoundTrip.{number, HasRoom}

-- DPI_OCI_NUMBER_SIZE
abbrev pub oci_number_size : ℕ
oci_number_size = 22

length-tail_bytes : (s : Bool) → length (tail_bytes s) ≡ bit s
length-tail_bytes true = refl
length-tail_bytes false = refl

sentinel_room : (b : Bool) (k : ℕ) → 2 * k ≤ 41 → k + bit (sentinel b (2 * k)) ≤ 20
sentinel_room true k h = ground arith
sentinel_room false k h = ground arith

length-write_even :
    (b : Bool) (i : ℤ) (ds : List ℕ)
    → is_odd i ≡ false
    → 0 < length ds
    → length (to_oracle_number (number b i ds)) ≡ half_up ds + 2 + bit (sentinel b (2 * half_up ds))
length-write_even b i ds o h =
    let k = half_up ds in
    let s = sentinel b (2 * k) in
    rw (write_even b i ds o h) (
      omega (
        arith,
        length-append (encode_pairs k b ds) (tail_bytes s),
        length-encode_pairs k b ds,
        length-tail_bytes s,
      ))

length-write_odd :
    (b : Bool) (i : ℤ) (d : ℕ) (ds : List ℕ)
    → is_odd i ≡ true
    → length (to_oracle_number (number b i (d ∷ ds)))
      ≡ half_up ds + 3 + bit (sentinel b (2 * suc (half_up ds)))
length-write_odd b i d ds o =
    let k = half_up ds in
    let s = sentinel b (2 * suc k) in
    rw (write_odd b i d ds o) (
      omega (
        arith,
        length-append (encode_pairs k b ds) (tail_bytes s),
        length-encode_pairs k b ds,
        length-tail_bytes s,
      ))

length_zero : (b : Bool) (i : ℤ) → length (to_oracle_number (number b i [])) ≡ 2
unfolding to_oracle_number
length_zero b i = ground arith

length_by_parity :
    (b : Bool) (i : ℤ) (ds : List ℕ)
    → HasRoom (number b i ds)
    → length (to_oracle_number (number b i ds)) ≤ oci_number_size
length_by_parity b i [] r = rw (length_zero b i) (omega arith)
length_by_parity b i (d ∷ ds) r = elim (Bool-cases (is_odd i)) [
  | inl o ↦ omega (
    arith,
    length-write_odd b i d ds o,
    sentinel_room b (suc (half_up ds)) (ground (arith, half_up-length ds, odd_bit-le ds)),
  )
  | inr e ↦ omega (
    arith,
    length-write_even b i (d ∷ ds) e (omega arith),
    sentinel_room b (half_up (d ∷ ds))
        (ground (arith, half_up-length (d ∷ ds), odd_bit-le (d ∷ ds))),
  )
]

-- A number whose digits have room in the mantissa takes at most the 22 bytes of an OCINumber.
pub length-to_oracle_number :
    (p : Parsed) → HasRoom p → length (to_oracle_number p) ≤ oci_number_size
length-to_oracle_number p r = length_by_parity p.is_negative p.decimal_point_index p.digits r

no_sentinel : (b : Bool) (k : ℕ) → k ≡ 20 → sentinel b (2 * suc k) ≡ false
no_sentinel true k h = ground arith
no_sentinel false k h = refl

overflow_odd :
    (b : Bool) (i : ℤ) (ds : List ℕ)
    → length ds ≡ number_max_digits
    → is_odd i ≡ true
    → (length (to_oracle_number (number b i ds)) ≡ oci_number_size + 1)
      × (parse_oracle_number (to_oracle_number (number b i ds)) ≡ err invalid_oci_number)
unfolding parse_oracle_number
overflow_odd b i [] h o = absurd (omega arith)
overflow_odd b i (d ∷ ds) h o =
    let k = half_up ds in
    let twenty : k ≡ 20 = omega (arith, half_up-length ds, odd_bit-le ds) in
    let none_added = no_sentinel b k twenty in
    (
      omega (arith, length-write_odd b i d ds o, twenty, ap bit none_added),
      rw (write_odd b i d ds o, none_added, twenty) refl,
    )

-- A number of 40 digits with an odd decimal point index, which `dpiUtils__parseNumberString`
-- accepts, takes 23 bytes, one more than an OCINumber has, and the reader refuses what is written.
pub overflow-to_oracle_number :
    (p : Parsed)
    → IsCanonical p
    → length p.digits ≡ number_max_digits
    → is_odd p.decimal_point_index ≡ true
    → (length (to_oracle_number p) ≡ oci_number_size + 1)
      × (parse_oracle_number (to_oracle_number p) ≡ err invalid_oci_number)
overflow-to_oracle_number p c h o = overflow_odd p.is_negative p.decimal_point_index p.digits h o
