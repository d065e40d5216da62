-- ===== src/Number/Literal.antt =====
-- The number texts of the format that the comment over `dpiUtils__parseNumberString` gives, by
-- their parts, and the scanning loops on them.
use godror.Base.{
  ℕ, suc, ◌+◌, ◌-◌, ◌<◌, ◌≤◌, ◌≡◌, refl, ap, Bool, true, false, ◌&&◌, ◌||◌, Bool-cases, inl, inr,
  List, [], ◌∷◌, ◌++◌, append_assoc, append-nil, ◌==◌, if◌then◌else◌, length, length-append, All, ℤ,
  pos, ◌-ℤ◌, int_laws, ok, arith,
}
use godror.Number.Parse.{
  no_digit, is_exponent_mark, push_digit, scan_whole, scan_fraction, scan_exponent_digits,
}

abbrev pub IsDigits : List ℕ → Type 0
IsDigits ds = All (λ d. d < 10) ds

-- the digits as characters
abbrev pub chars : List ℕ → List ℕ
chars [] = []
chars (d ∷ ds) = (b'0' + d) ∷ chars ds

-- the digits without the zeroes in front
abbrev pub trim : List ℕ → List ℕ
trim [] = []
trim (d ∷ ds) = if d == 0 then trim ds else d ∷ ds

-- the number of the zeroes in front
abbrev pub zeroes : List ℕ → ℕ
zeroes [] = 0
zeroes (d ∷ ds) = if d == 0 then suc (zeroes ds) else 0

abbrev pub push_all : List ℕ → List ℕ → List ℕ
push_all acc [] = acc
push_all acc (d ∷ ds) = push_all (push_digit acc d) ds

push_all-cons : (x : ℕ) (acc ds : List ℕ) → push_all (x ∷ acc) ds ≡ x ∷ acc ++ ds
push_all-cons x acc [] = ap (λ r. x ∷ r) (rw append-nil refl)
push_all-cons x acc (d ∷ ds) =
    ground (arith, push_all-cons x (acc ++ d ∷ []) ds, append_assoc acc (d ∷ []) ds)

pub push_all-nil : (ds : List ℕ) → push_all [] ds ≡ trim ds
push_all-nil [] = refl
push_all-nil (d ∷ ds) = ground (arith, push_all-nil ds, push_all-cons d [] ds)

-- a text at which the scan of the whole digits ends
abbrev pub ends_whole : List ℕ → Bool
ends_whole [] = true
ends_whole (c ∷ cs) = c == b'.' || is_exponent_mark c

abbrev pub ends_fraction : List ℕ → Bool
ends_fraction [] = true
ends_fraction (c ∷ cs) = is_exponent_mark c

add-sub : (d : ℕ) → b'0' + d - b'0' ≡ d
add-sub d = omega arith

pub scan_whole-chars :
    (ds rest acc : List ℕ)
    → IsDigits ds
    → ends_whole rest ≡ true
    → scan_whole (chars ds ++ rest) acc ≡ ok (push_all acc ds, rest)
unfolding scan_whole
scan_whole-chars [] [] acc h e = refl
scan_whole-chars [] (c ∷ cs) acc h e = ground arith
scan_whole-chars (d ∷ ds) rest acc h e =
    rw (add-sub d) (ground (arith, scan_whole-chars ds rest (push_digit acc d) h.1 e))

pub sub_zero : (i : ℤ) → i -ℤ pos 0 ≡ i
sub_zero i = omega int_laws

-- a zero in front counts on both sides
pos_sub : (m n : ℕ) → pos (suc m) -ℤ pos (suc n) ≡ pos m -ℤ pos n
pos_sub m n = omega int_laws

sub_suc : (i : ℤ) (n : ℕ) → i -ℤ pos 1 -ℤ pos n ≡ i -ℤ pos (suc n)
sub_suc i n = omega int_laws

mark-digit : (d : ℕ) → d < 10 → is_exponent_mark (b'0' + d) ≡ false
mark-digit d h = ground arith

no_digit-digit : (d : ℕ) → d < 10 → no_digit (b'0' + d) ≡ false
no_digit-digit d h = ground arith

pub and_false : (b : Bool) → (b && false) ≡ false
and_false true = refl
and_false false = refl

-- With a digit before it, a zero of the fraction is kept, and the index stays.
scan_fraction-cons :
    (ds rest acc : List ℕ) (x : ℕ) (i : ℤ)
    → IsDigits ds
    → ends_fraction rest ≡ true
    → scan_fraction (chars ds ++ rest) i (x ∷ acc) ≡ ok (i, push_all (x ∷ acc) ds, rest)
unfolding scan_fraction
scan_fraction-cons [] [] acc x i h e = refl
scan_fraction-cons [] (c ∷ cs) acc x i h e = ground arith
scan_fraction-cons (d ∷ ds) rest acc x i h e =
    rw (mark-digit d h.0, no_digit-digit d h.0, add-sub d, and_false (d == 0))
      (scan_fraction-cons ds rest (acc ++ d ∷ []) x i h.1 e)

-- With none before it, the index falls with each zero in front.
pub scan_fraction-nil :
    (ds rest : List ℕ) (i : ℤ)
    → IsDigits ds
    → ends_fraction rest ≡ true
    → scan_fraction (chars ds ++ rest) i [] ≡ ok (i -ℤ pos (zeroes ds), trim ds, rest)
unfolding scan_fraction
scan_fraction-nil [] [] i h e = rw sub_zero refl
scan_fraction-nil [] (c ∷ cs) i h e = ground (arith, sub_zero i)
scan_fraction-nil (d ∷ ds) rest i h e =
    rw (mark-digit d h.0, no_digit-digit d h.0, add-sub d)
      (elim (Bool-cases (d == 0)) [
        | inl z ↦ rw z (rw (← sub_suc i (zeroes ds)) (scan_fraction-nil ds rest (i -ℤ pos 1) h.1 e))
        | inr nz ↦
            rw nz
              (rw (sub_zero i, ← push_all-cons d [] ds) (scan_fraction-cons ds rest [] d i h.1 e))
      ])

-- The two scans: the index is the number of digits before the point, less the zeroes in front.
pub scan_both :
    (whole fraction rest : List ℕ)
    → IsDigits fraction
    → ends_fraction rest ≡ true
    → scan_fraction (chars fraction ++ rest) (pos (length (trim whole))) (trim whole)
      ≡ ok (pos (length whole) -ℤ pos (zeroes (whole ++ fraction)), trim (whole ++ fraction), rest)
scan_both [] fraction rest h e = scan_fraction-nil fraction rest (pos 0) h e
scan_both (d ∷ whole) fraction rest h e = elim (Bool-cases (d == 0)) [
  | inl z ↦
      rw z (
        rw (pos_sub (length whole) (zeroes (whole ++ fraction)))
          (scan_both whole fraction rest h e))
  | inr nz ↦ rw nz (
      rw (sub_zero (pos (suc (length whole))), ← push_all-cons d whole fraction)
        (scan_fraction-cons fraction rest whole d (pos (suc (length whole))) h e))
]

-- up to three digits of the exponent
pub scan_exponent_digits-chars :
    (ds found : List ℕ)
    → IsDigits ds
    → length found + length ds ≤ 3
    → scan_exponent_digits (chars ds) found ≡ ok (found ++ ds)
unfolding scan_exponent_digits
scan_exponent_digits-chars [] found h k = rw append-nil refl
scan_exponent_digits-chars (d ∷ ds) found h k = rw (add-sub d) (
    ground (
      arith,
      scan_exponent_digits-chars ds (found ++ d ∷ []) h.1,
      length-append found (d ∷ []),
      append_assoc found (d ∷ []) ds,
    ))
