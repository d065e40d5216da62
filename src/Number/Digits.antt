-- ===== src/Number/Digits.antt =====
-- Stripping the trailing zeroes: the loop of `dpiUtils__parseNumberString` against a recursion on
-- the digits.
use godror.Base.{
  ℕ, zero, suc, ◌<◌, ◌≤◌, ◌≡◌, refl, ap, ◌∙◌, sym, true, false, Bool-cases, inl, inr, List, [], ◌∷◌,
  ◌++◌, ◌==◌, if◌then◌else◌, length, get_or, take, take_all, arith,
}
use godror.Number.Parse.{strip_count}

-- a digit in front of the trimmed rest
abbrev pub keep_or_drop : ℕ → List ℕ → List ℕ
keep_or_drop d [] = if d == 0 then [] else d ∷ []
keep_or_drop d (e ∷ es) = d ∷ e ∷ es

-- the digits without the zeroes at the end
abbrev pub trim_end : List ℕ → List ℕ
trim_end [] = []
trim_end (d ∷ ds) = keep_or_drop d (trim_end ds)

trim_end-zero : (ds : List ℕ) → trim_end (ds ++ 0 ∷ []) ≡ trim_end ds
trim_end-zero [] = refl
trim_end-zero (d ∷ ds) = ap (keep_or_drop d) (trim_end-zero ds)

keep_or_drop-append : (d e : ℕ) (ds : List ℕ) → keep_or_drop d (ds ++ e ∷ []) ≡ d ∷ ds ++ e ∷ []
keep_or_drop-append d e [] = refl
keep_or_drop-append d e (x ∷ xs) = refl

trim_end-digit : (ds : List ℕ) (d : ℕ) → (d == 0) ≡ false → trim_end (ds ++ d ∷ []) ≡ ds ++ d ∷ []
trim_end-digit [] d h = rw h refl
trim_end-digit (x ∷ xs) d h =
    ap (keep_or_drop x) (trim_end-digit xs d h) ∙ keep_or_drop-append x d xs

take-suc : (n : ℕ) (xs : List ℕ) → n < length xs → take (suc n) xs ≡ take n xs ++ get_or xs n 0 ∷ []
take-suc n [] h = absurd (omega arith)
take-suc zero (x ∷ xs) h = refl
take-suc (suc n) (x ∷ xs) h = ap (λ r. x ∷ r) (take-suc n xs (omega arith))

take-strip_count :
    (n : ℕ) (xs : List ℕ) → n ≤ length xs → take (strip_count n xs) xs ≡ trim_end (take n xs)
unfolding strip_count
take-strip_count zero xs h = refl
take-strip_count (suc n) xs h = elim (Bool-cases (get_or xs n 0 == 0)) [
  | inl z ↦
      rw (z, take-suc n xs h)
        (rw (zero_digit z) (take-strip_count n xs (omega arith) ∙ sym (trim_end-zero (take n xs))))
  | inr nz ↦ rw (nz, take-suc n xs h) (sym (trim_end-digit (take n xs) (get_or xs n 0) nz))
]
  where
    zero_digit : (get_or xs n 0 == 0) ≡ true → get_or xs n 0 ≡ 0
    zero_digit z = ground arith

-- The loop keeps the digits up to the last one that is not zero.
pub strip-trim_end : (xs : List ℕ) → take (strip_count (length xs) xs) xs ≡ trim_end xs
strip-trim_end xs = take-strip_count (length xs) xs (omega arith) ∙ ap trim_end (take_all xs)
