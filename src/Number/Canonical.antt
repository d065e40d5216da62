-- ===== src/Number/Canonical.antt =====
-- What `dpiUtils__parseNumberString` returns for any text at all: a number in canonical form.
use godror.Base.{
  ℕ, ◌+◌, ◌-◌, ◌<◌, ◌≤◌, ◌≡◌, refl, ap, Bool, true, false, ◌||◌, Bool-cases, inl, inr, List, [],
  ◌∷◌, ◌==◌, length, length-append, All-append, ℤ, pos, negsuc, ◌≤ℤ◌, Result, ok, err, fail_if,
  subst, not, invalid_number, number_string_too_long, ◌>>=◌, arith,
}
use godror.Number.Parse.{
  is_empty, too_long, to_single_byte, Parsed, Charset, number_as_text_chars, number_max_digits,
  push_digit, no_digit, is_exponent_mark, is_out_of_range, scan_whole, scan_fraction, scan_point,
  scan_exponent, finish, parse_unsigned, parse_chars, parse_number_string,
}
use godror.Number.Literal.{IsDigits}
use godror.Number.Digits.{trim_end, keep_or_drop, strip-trim_end}

-- no zero in front
abbrev pub IsTrimmed : List ℕ → Type 0
IsTrimmed [] = Unit {0}
IsTrimmed (d ∷ ds) = (d == 0) ≡ false

-- what one of the scans has done: the digits are at most as many as the characters
abbrev pub IsScan : ℕ → Result (List ℕ × List ℕ) → Type 0
IsScan n (ok (digits, rest)) =
    IsDigits digits × IsTrimmed digits × (length digits + length rest ≤ n)
IsScan n (err e) = Unit {0}

abbrev pub IsPointScan : ℕ → Result (ℤ × List ℕ × List ℕ) → Type 0
IsPointScan n (ok (index, digits, rest)) =
    IsDigits digits × IsTrimmed digits × (length digits + length rest ≤ n)
IsPointScan n (err e) = Unit {0}

push_digit-IsDigits : (acc : List ℕ) (d : ℕ) → IsDigits acc → d < 10 → IsDigits (push_digit acc d)
push_digit-IsDigits acc d h k =
    ground (arith, All-append (λ (d : ℕ). d < 10) acc (d ∷ []) h (k, tt))

push_digit-IsTrimmed : (acc : List ℕ) (d : ℕ) → IsTrimmed acc → IsTrimmed (push_digit acc d)
push_digit-IsTrimmed [] d h = ground arith
push_digit-IsTrimmed (x ∷ xs) d h = ground arith

length-push_digit : (acc : List ℕ) (d : ℕ) → length (push_digit acc d) ≤ length acc + 1
length-push_digit acc d = ground (arith, length-append acc (d ∷ []))

digit_value : (c : ℕ) → no_digit c ≡ false → c - b'0' < 10
digit_value c h = ground arith

scan_whole-IsScan :
    (value acc : List ℕ) (n : ℕ)
    → IsDigits acc
    → IsTrimmed acc
    → length acc + length value ≤ n
    → IsScan n (scan_whole value acc)
unfolding scan_whole
scan_whole-IsScan [] acc n h t k = (h, t, k)
scan_whole-IsScan (c ∷ value) acc n h t k = elim (Bool-cases (c == b'.' || is_exponent_mark c)) [
  | inl s ↦ rw s (h, t, k)
  | inr s ↦ rw s (elim (Bool-cases (no_digit c)) [
    | inl bad ↦ rw bad tt
    | inr good ↦ rw good (
        scan_whole-IsScan value (push_digit acc (c - b'0')) n
          (push_digit-IsDigits acc (c - b'0') h (digit_value c good))
          (push_digit-IsTrimmed acc (c - b'0') t) (omega (arith, length-push_digit acc (c - b'0'))))
  ])
]

scan_fraction-IsPointScan :
    (value acc : List ℕ) (i : ℤ) (n : ℕ)
    → IsDigits acc
    → IsTrimmed acc
    → length acc + length value ≤ n
    → IsPointScan n (scan_fraction value i acc)
unfolding scan_fraction
scan_fraction-IsPointScan [] acc i n h t k = (h, t, k)
scan_fraction-IsPointScan (c ∷ value) acc i n h t k = elim (Bool-cases (is_exponent_mark c)) [
  | inl s ↦ rw s (h, t, k)
  | inr s ↦ rw s (elim (Bool-cases (no_digit c)) [
    | inl bad ↦ rw bad tt
    | inr good ↦ rw good (
        scan_fraction-IsPointScan value (push_digit acc (c - b'0')) _ n
          (push_digit-IsDigits acc (c - b'0') h (digit_value c good))
          (push_digit-IsTrimmed acc (c - b'0') t) (omega (arith, length-push_digit acc (c - b'0'))))
  ])
]

scan_point-IsPointScan :
    (value acc : List ℕ) (i : ℤ) (n : ℕ)
    → IsDigits acc
    → IsTrimmed acc
    → length acc + length value ≤ n
    → IsPointScan n (scan_point value i acc)
unfolding scan_point
scan_point-IsPointScan [] acc i n h t k = (h, t, k)
scan_point-IsPointScan (c ∷ value) acc i n h t k = elim (Bool-cases (c == b'.')) [
  | inl s ↦ rw s (scan_fraction-IsPointScan value acc i n h t (omega arith))
  | inr s ↦ rw s (h, t, k)
]

keep_or_drop-IsDigits : (d : ℕ) (ds : List ℕ) → d < 10 → IsDigits ds → IsDigits (keep_or_drop d ds)
keep_or_drop-IsDigits d [] h k = ground arith
keep_or_drop-IsDigits d (x ∷ xs) h k = (h, k)

trim_end-IsDigits : (ds : List ℕ) → IsDigits ds → IsDigits (trim_end ds)
trim_end-IsDigits [] h = tt
trim_end-IsDigits (d ∷ ds) h = keep_or_drop-IsDigits d (trim_end ds) h.0 (trim_end-IsDigits ds h.1)

keep_or_drop-IsTrimmed : (d : ℕ) (ds : List ℕ) → (d == 0) ≡ false → IsTrimmed (keep_or_drop d ds)
keep_or_drop-IsTrimmed d [] h = rw h h
keep_or_drop-IsTrimmed d (x ∷ xs) h = h

trim_end-IsTrimmed : (ds : List ℕ) → IsTrimmed ds → IsTrimmed (trim_end ds)
trim_end-IsTrimmed [] h = tt
trim_end-IsTrimmed (d ∷ ds) h = keep_or_drop-IsTrimmed d (trim_end ds) h

trim_end-keep_or_drop :
    (d : ℕ) (ds : List ℕ) → trim_end ds ≡ ds → trim_end (keep_or_drop d ds) ≡ keep_or_drop d ds
trim_end-keep_or_drop d [] h = ground arith
trim_end-keep_or_drop d (x ∷ xs) h = ap (keep_or_drop d) h

trim_end-trim_end : (ds : List ℕ) → trim_end (trim_end ds) ≡ trim_end ds
trim_end-trim_end [] = refl
trim_end-trim_end (d ∷ ds) = trim_end-keep_or_drop d (trim_end ds) (trim_end-trim_end ds)

-- A canonical number: no zeroes at either end, and within the range of an OCINumber.
pub record IsCanonical (p : Parsed) : Type 0 where
  pub decimal : IsDigits p.digits
  pub trimmed : IsTrimmed p.digits
  pub trimmed_end : trim_end p.digits ≡ p.digits
  pub size : length p.digits ≤ number_max_digits
  pub low : negsuc 128 ≤ℤ p.decimal_point_index
  pub high : p.decimal_point_index ≤ℤ pos 126

abbrev pub OkCanonical : Result Parsed → Type 0
OkCanonical (ok p) = IsCanonical p
OkCanonical (err e) = Unit {0}

>>=-OkCanonical {ℓ} :
    {A : Type ℓ} (m : Result A) (f : A → Result Parsed)
    → ((a : A) → m ≡ ok a → OkCanonical (f a))
    → OkCanonical (m >>= f)
>>=-OkCanonical (ok a) f h = h a refl
>>=-OkCanonical (err e) f h = tt

in_range-bounds :
    (i : ℤ) (ds : List ℕ)
    → is_out_of_range i ds ≡ false
    → (length ds ≤ number_max_digits) × (negsuc 128 ≤ℤ i) × (i ≤ℤ pos 126)
in_range-bounds i ds h = ground arith

finish-OkCanonical :
    (negative : Bool) (i : ℤ) (ds : List ℕ)
    → IsDigits ds
    → IsTrimmed ds
    → OkCanonical (finish negative i ds)
unfolding finish
finish-OkCanonical negative i ds h t =
    rw (strip-trim_end ds) (elim (Bool-cases (is_out_of_range i (trim_end ds))) [
      | inl out ↦ rw out tt
      | inr fine ↦ rw fine (
          let r = in_range-bounds i (trim_end ds) fine in
          record {
            decimal = trim_end-IsDigits ds h;
            trimmed = trim_end-IsTrimmed ds t;
            trimmed_end = trim_end-trim_end ds;
            size = r.0;
            low = r.1;
            high = r.2;
          })
    ])

parse_unsigned-OkCanonical :
    (negative : Bool) (value : List ℕ) → OkCanonical (parse_unsigned negative value)
unfolding parse_unsigned
parse_unsigned-OkCanonical negative value =
    >>=-OkCanonical (scan_whole value []) _ λ (whole, rest) e.
      let w =
        subst (IsScan (length value)) e
          (scan_whole-IsScan value [] (length value) tt tt (omega arith)) in
      >>=-OkCanonical (scan_point rest (pos (length whole)) whole) _ λ (i, digits, rest') e'.
        let p =
          subst (IsPointScan (length value)) e'
            (scan_point-IsPointScan rest whole (pos (length whole)) (length value) w.0 w.1 w.2) in
        >>=-OkCanonical (scan_exponent rest' i) _ λ (i', rest'') e''.
          >>=-OkCanonical (fail_if (not (is_empty rest'')) invalid_number) _
            λ u e₃. finish-OkCanonical negative i' digits p.0 p.1

parse_chars-OkCanonical : (value : List ℕ) → OkCanonical (parse_chars value)
unfolding parse_chars
parse_chars-OkCanonical [] = parse_unsigned-OkCanonical false []
parse_chars-OkCanonical (c ∷ value) = elim (Bool-cases (c == b'-')) [
  | inl m ↦ rw m (parse_unsigned-OkCanonical true value)
  | inr p ↦ rw p (parse_unsigned-OkCanonical false (c ∷ value))
]

-- Whatever text is accepted, in either encoding, the number that comes out has at most 40 decimal
-- digits with no zero at either end, and a decimal point index from -129 to 126.
pub parse_number_string-IsCanonical :
    (charset : Charset) (value : List ℕ) (p : Parsed)
    → parse_number_string charset value ≡ ok p
    → IsCanonical p
unfolding parse_number_string
parse_number_string-IsCanonical charset value p e = subst OkCanonical e (
    >>=-OkCanonical (fail_if (length value == 0) invalid_number) _ λ u e₁.
      >>=-OkCanonical (fail_if (too_long charset (length value)) number_string_too_long) _ λ u e₂.
        >>=-OkCanonical (to_single_byte charset value) _ λ chars e₃. parse_chars-OkCanonical chars)

-- The scans of a text of at most 172 characters write at most 172 digits, the size of the callers'
-- array, before the zeroes are stripped.
pub scan-fits :
    (value whole rest digits rest' : List ℕ) (i : ℤ)
    → length value ≤ number_as_text_chars
    → scan_whole value [] ≡ ok (whole, rest)
    → scan_point rest (pos (length whole)) whole ≡ ok (i, digits, rest')
    → (length whole ≤ number_as_text_chars) × (length digits ≤ number_as_text_chars)
scan-fits value whole rest digits rest' i h e e' =
    let w =
      subst (IsScan (length value)) e
        (scan_whole-IsScan value [] (length value) tt tt (omega arith)) in
    let p =
      subst (IsPointScan (length value)) e'
        (scan_point-IsPointScan rest whole (pos (length whole)) (length value) w.0 w.1 w.2) in
    (omega (arith, w.2), omega (arith, p.2))
