-- ===== src/Var/Memory.antt =====
-- Reading memory after a value was copied into it.
use godror.Base.{
  ℕ, zero, suc, ◌+◌, ◌-◌, ◌≤◌, ◌≡◌, refl, ap, sym, ◌∙◌, some, List, [], ◌∷◌, ◌++◌, ltb, length,
  length-append, length-take, take, take_append, drop, arith, false,
}
use godror.Var.Store.{write_at}

length-drop : (n : ℕ) (xs : List ℕ) → length (drop n xs) ≡ length xs - n
length-drop zero xs = omega arith
length-drop (suc n) [] = omega arith
length-drop (suc n) (x ∷ xs) = omega (arith, length-drop n xs)

drop_nil : (k : ℕ) → drop {A = ℕ} k [] ≡ []
drop_nil zero = refl
drop_nil (suc k) = refl

drop-drop : (n k : ℕ) (xs : List ℕ) → drop k (drop n xs) ≡ drop (n + k) xs
drop-drop zero k xs = ap (λ m. drop m xs) (omega arith)
drop-drop (suc n) k [] = drop_nil k ∙ sym (drop_nil (suc n + k))
drop-drop (suc n) k (x ∷ xs) =
    let up : suc (n + k) ≡ suc n + k = omega arith in
    drop-drop n k xs ∙ ap (λ m. drop m (x ∷ xs)) up

drop_append : (xs ys : List ℕ) (k : ℕ) → drop (length xs + k) (xs ++ ys) ≡ drop k ys
drop_append [] ys k = ap (λ m. drop m ys) (omega arith)
drop_append (x ∷ xs) ys k =
    let up : suc (length xs) + k ≡ suc (length xs + k) = omega arith in
    ap (λ m. drop m ((x ∷ xs) ++ ys)) up ∙ drop_append xs ys k

-- the memory with a value put in
abbrev splice : ℕ → List ℕ → List ℕ → List ℕ
splice offset value memory = take offset memory ++ (value ++ drop (offset + length value) memory)

drop-take :
    (n : ℕ) (memory rest : List ℕ) → n ≤ length memory → drop n (take n memory ++ rest) ≡ rest
drop-take zero memory rest h = refl
drop-take (suc n) [] rest h = absurd (omega arith)
drop-take (suc n) (x ∷ memory) rest h = drop-take n memory rest (omega arith)

take-take :
    (m n : ℕ) (memory rest : List ℕ)
    → m ≤ n
    → n ≤ length memory
    → take m (take n memory ++ rest) ≡ take m memory
take-take zero n memory rest h k = refl
take-take (suc m) zero memory rest h k = absurd (omega arith)
take-take (suc m) (suc n) [] rest h k = absurd (omega arith)
take-take (suc m) (suc n) (x ∷ memory) rest h k =
    ap (λ r. x ∷ r) (take-take m n memory rest (omega arith) (omega arith))

before :
    (o m n : ℕ) (memory rest : List ℕ)
    → o + m ≤ n
    → n ≤ length memory
    → take m (drop o (take n memory ++ rest)) ≡ take m (drop o memory)
before zero m n memory rest h k = take-take m n memory rest (omega arith) k
before (suc o) m zero memory rest h k = absurd (omega arith)
before (suc o) m (suc n) [] rest h k = absurd (omega arith)
before (suc o) m (suc n) (x ∷ memory) rest h k =
    before o m n memory rest (omega arith) (omega arith)

after :
    (offset o : ℕ) (value memory : List ℕ)
    → offset + length value ≤ o
    → offset + length value ≤ length memory
    → drop o (splice offset value memory) ≡ drop o memory
after offset o value memory h k =
    let rest = drop (offset + length value) memory in
    let j = o - (offset + length value) in
    let o_is : o ≡ offset + (length value + j) = omega arith in
    let split : offset + length value + j ≡ o = omega arith in
    ap (λ n. drop n (splice offset value memory)) o_is
    ∙ sym (drop-drop offset (length value + j) (splice offset value memory))
    ∙ ap (λ xs. drop (length value + j) xs) (drop-take offset memory (value ++ rest) (omega arith))
    ∙ drop_append value rest j
    ∙ drop-drop (offset + length value) j memory
    ∙ ap (λ n. drop n memory) split

-- A value that fits into memory is written, can be read where it was written, and leaves the rest.
pub record Written (offset : ℕ) (value memory : List ℕ) : Type 0 where
  pub written : List ℕ
  pub result : write_at offset value memory ≡ some written
  pub same_size : length written ≡ length memory
  pub reads : take (length value) (drop offset written) ≡ value
  pub leaves_before : (o m : ℕ) → o + m ≤ offset → take m (drop o written) ≡ take m (drop o memory)
  pub leaves_after :
      (o m : ℕ) → offset + length value ≤ o → take m (drop o written) ≡ take m (drop o memory)

pub write_at-Written :
    (offset : ℕ) (value memory : List ℕ)
    → offset + length value ≤ length memory
    → Written offset value memory
unfolding write_at
write_at-Written offset value memory h =
    let fits : ltb (length memory) (offset + length value) ≡ false = ground arith in
    let rest = drop (offset + length value) memory in
    record {
      written = splice offset value memory;
      result = rw fits refl;
      same_size = omega (
        arith,
        length-append (take offset memory) (value ++ rest),
        length-append value rest,
        length-take offset memory,
        length-drop (offset + length value) memory,
      );
      reads =
          ap (λ xs. take (length value) xs) (drop-take offset memory (value ++ rest) (omega arith))
          ∙ take_append value rest;
      leaves_before = λ o m b. before o m offset memory (value ++ rest) b (omega arith);
      leaves_after = λ o m b. ap (λ xs. take m xs) (after offset o value memory b h);
    }
