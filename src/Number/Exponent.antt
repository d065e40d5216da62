-- ===== src/Number/Exponent.antt =====
-- The exponent byte of an OCINumber: the reader's index is the writer's.
use godror.Base.{
  ℕ, ◌+◌, ◌-◌, ◌*◌, ◌/◌, ◌%◌, ◌≤◌, ◌≡◌, ap, ◌∙◌, sym, Bool, true, false, ◌==◌, ltb, if◌then◌else◌,
  ℤ, pos, negsuc, ◌≤ℤ◌, ◌-ℤ◌, ◌+ℤ◌, arith,
}
use godror.Number.Oracle.{exponent_byte, to_byte, half, is_odd, int8_value}

-- the index that the reader computes from an exponent byte
abbrev pub decoded_index : Bool → ℕ → ℤ
decoded_index negative p =
    let e = int8_value (((if negative then 255 - p else p) + 256 - 193) % 256) in e +ℤ e +ℤ pos 2

half_pos : (n k : ℕ) → n ≡ 2 * k → n ≤ 126 → to_byte (half (pos n -ℤ pos 2) +ℤ pos 193) ≡ 192 + k
unfolding ◌-ℤ◌ ◌+ℤ◌
half_pos n k e h = ground arith

half_neg :
    (n k : ℕ) → n + 1 ≡ 2 * k → n ≤ 127 → to_byte (half (negsuc n -ℤ pos 2) +ℤ pos 193) ≡ 192 - k
unfolding ◌-ℤ◌ ◌+ℤ◌
half_neg n k e h = ground arith

abbrev pub flip : Bool → ℕ → ℕ
flip negative e = if negative then 255 - e else e

decoded_pos : (b : Bool) (k : ℕ) → k ≤ 63 → decoded_index b (flip b (192 + k)) ≡ pos (2 * k)
unfolding ◌+ℤ◌
decoded_pos true k h = ground arith
decoded_pos false k h = ground arith

decoded_neg :
    (b : Bool) (n k : ℕ) → n + 1 ≡ 2 * k → k ≤ 64 → decoded_index b (flip b (192 - k)) ≡ negsuc n
unfolding ◌+ℤ◌
decoded_neg true n k e h = ground arith
decoded_neg false n k e h = ground arith

sign_pos : (b : Bool) (k : ℕ) → k ≤ 63 → ltb (flip b (192 + k)) 128 ≡ b
sign_pos true k h = ground arith
sign_pos false k h = ground arith

sign_neg : (b : Bool) (k : ℕ) → k ≤ 64 → ltb (flip b (192 - k)) 128 ≡ b
sign_neg true k h = ground arith
sign_neg false k h = ground arith

-- what the reader makes of the exponent byte of a number with an even index
pub exponent_byte_lem :
    (b : Bool) (i : ℤ)
    → is_odd i ≡ false
    → negsuc 128 ≤ℤ i
    → i ≤ℤ pos 126
    → (decoded_index b (exponent_byte b i) ≡ i) × (ltb (exponent_byte b i) 128 ≡ b)
exponent_byte_lem b (pos n) o l h =
    let k = n / 2 in
    let even : n ≡ 2 * k = even_half n o in
    (
      rw (half_pos n k even (omega arith)) (decoded_pos b k (omega arith) ∙ ap pos (sym even)),
      rw (half_pos n k even (omega arith)) (sign_pos b k (omega arith)),
    )
  where
    even_half : (n : ℕ) → (n % 2 == 1) ≡ false → n ≡ 2 * (n / 2)
    even_half n o = ground arith
exponent_byte_lem b (negsuc n) o l h =
    let k = (n + 1) / 2 in
    let even : n + 1 ≡ 2 * k = even_half n o in
    (
      rw (half_neg n k even (omega arith)) (decoded_neg b n k even (omega arith)),
      rw (half_neg n k even (omega arith)) (sign_neg b k (omega arith)),
    )
  where
    even_half : (n : ℕ) → ((n + 1) % 2 == 1) ≡ false → n + 1 ≡ 2 * ((n + 1) / 2)
    even_half n o = ground arith
