-- ===== src/Json/Batches.antt =====
-- The loops over batches of odpi/src/dpiJson.c read what one loop over all items would.
use godror.Base.{
  ℕ, zero, suc, ◌+◌, ◌-◌, ◌≤◌, ◌≡◌, refl, sym, ap, ◌∙◌, false, Option, none, some, List, [], ◌∷◌,
  ◌++◌, length, length-append, drop, Result, ok, err, arith,
}
use godror.Json.Dom.{IsBatched}
use godror.Json.Tree.{Node, cons, field}
use godror.Json.Buffers.{Json, Action, ◌>>=◌, then_with, give}
use godror.Json.Read.{
  append_elements, append_fields, read_batch, read_field_batch, read_batches, overruns,
}

-- Actions that give the same in every state are chained to the same.
pub then_with_cong :
    {A B : Type 0} (x y : Option (Result A × Json)) (f g : A → Action B)
    → x ≡ y
    → ((a : A) (j : Json) → f a j ≡ g a j)
    → then_with f x ≡ then_with g y
then_with_cong none y f g e h = rw (← e) refl
then_with_cong (some (err e', j)) y f g e h = rw (← e) refl
then_with_cong (some (ok a, j)) y f g e h = rw (← e) (h a j)

pub length-drop {ℓ} : {A : Type ℓ} (n : ℕ) (xs : List A) → length (drop n xs) ≡ length xs - n
length-drop zero xs = omega arith
length-drop (suc n) [] = omega arith
length-drop (suc n) (x ∷ xs) = omega (arith, length-drop n xs)

eq-nil {ℓ} : {A : Type ℓ} (xs : List A) → length xs ≡ 0 → xs ≡ []
eq-nil [] h = refl
eq-nil (x ∷ xs) h = absurd (omega arith)

drop-nil {ℓ} : {A : Type ℓ} (n : ℕ) → drop {A = A} n [] ≡ []
drop-nil zero = refl
drop-nil (suc n) = refl

drop-drop {ℓ} : {A : Type ℓ} (m n : ℕ) (xs : List A) → drop (m + n) xs ≡ drop n (drop m xs)
drop-drop zero n xs = let e : 0 + n ≡ n = omega arith in rw e refl
drop-drop {A} (suc m) n [] =
    let e : suc m + n ≡ suc (m + n) = omega arith in rw e (sym (drop-nil {A = A} n))
drop-drop (suc m) n (x ∷ xs) =
    let e : suc m + n ≡ suc (m + n) = omega arith in rw e (drop-drop m n xs)

drop_append {ℓ} : {A : Type ℓ} (xs ys : List A) → drop (length xs) (xs ++ ys) ≡ ys
drop_append [] ys = refl
drop_append (x ∷ xs) ys = drop_append xs ys

-- reading all items, where it can be cut in two anywhere
module _ {H R : Type 0} (all : List H → Action R) (append : R → R → R) (empty : R)
    (all_nil : (j : Json) → all [] j ≡ give empty j)
    (all_append : (xs ys : List H) (j : Json)
      → all (xs ++ ys) j ≡ (all xs >>= λ a. all ys >>= λ b. give (append a b)) j)
    (items : List H) (batch : ℕ → List H) (batched : IsBatched items batch) where
  pub read_batches_lem :
      (rounds pos left : ℕ)
      → left ≤ rounds
      → pos + left ≡ length items
      → (j : Json) → read_batches all append empty batch rounds pos left j ≡ all (drop pos items) j
  unfolding read_batches
  read_batches_lem rounds pos zero le e j =
      let gone : drop pos items ≡ [] = eq-nil _ (omega (arith, length-drop pos items)) in
      rw gone (sym (all_nil j))
  read_batches_lem zero pos (suc left) le e j = absurd (omega arith)
  read_batches_lem (suc rounds) pos (suc left) le e j =
      let (back, more, fits, split) = batched pos (omega arith) in
      let front = batch pos in
      let whole : length front + length back ≡ suc left =
        omega (arith, length-drop pos items, ap length split, length-append front back) in
      let sound : overruns (suc left) (length front) ≡ false = ground arith in
      let rest : drop (pos + length front) items ≡ back =
        drop-drop pos (length front) items
        ∙ ap (drop (length front)) split
        ∙ drop_append front back in
      let ih =
        read_batches_lem rounds (pos + length front) (suc left - length front) (omega arith)
          (omega arith) in
      rw (sound, split)
        (then_with_cong _ _ _ _ refl
            (λ a j'. then_with_cong _ _ _ _ (ih j' ∙ ap (λ hs. all hs j') rest) (λ b j''. refl))
          ∙ sym (all_append front back j))

-- One more item, `n`, read before a list that is read in two parts.
module _ {N R : Type 0} (append : R → R → R) (put : N → R → R)
    (put-append : (n : N) (a b : R) → append (put n a) b ≡ put n (append a b))
    (second : Action R) where
  put_last :
      (n : N) (a : R) (z : Option (Result R × Json))
      → then_with (λ ns. give (put n ns)) (then_with (λ b. give (append a b)) z)
        ≡ then_with (λ b. give (append (put n a) b)) z
  put_last n a none = refl
  put_last n a (some (err e, j)) = refl
  put_last n a (some (ok b, j)) = ap (λ ns. some (ok ns, j)) (sym (put-append n a b))

  put_both :
      (n : N) (y : Option (Result R × Json))
      → then_with (λ ns. give (put n ns)) (then_with (λ a. second >>= λ b. give (append a b)) y)
        ≡ then_with (λ a. second >>= λ b. give (append a b)) (then_with (λ ns. give (put n ns)) y)
  put_both n none = refl
  put_both n (some (err e, j)) = refl
  put_both n (some (ok a, j)) = put_last n a (second j)

  pub read_step :
      (x : Option (Result N × Json)) (whole first : Action R)
      → ((j : Json) → whole j ≡ (first >>= λ a. second >>= λ b. give (append a b)) j)
      → then_with (λ n. whole >>= λ ns. give (put n ns)) x
        ≡ then_with
            (λ a. second >>= λ b. give (append a b))
            (then_with (λ n. first >>= λ ns. give (put n ns)) x)
  read_step none whole first h = refl
  read_step (some (err e, j)) whole first h = refl
  read_step (some (ok n, j)) whole first h =
      ap (then_with (λ ns. give (put n ns))) (h j) ∙ put_both n (first j)

then_with-give : {R : Type 0} (x : Option (Result R × Json)) → x ≡ then_with give x
then_with-give none = refl
then_with-give (some (err e, j)) = refl
then_with-give (some (ok a, j)) = refl

pub read_batch-append :
    {H : Type 0} (convert : H → Action Node) (xs ys : List H) (j : Json)
    → read_batch convert (xs ++ ys) j
      ≡ (read_batch convert xs >>= λ a. read_batch convert ys >>= λ b. give (append_elements a b)) j
unfolding read_batch
read_batch-append convert [] ys j = then_with-give (read_batch convert ys j)
read_batch-append convert (x ∷ xs) ys j =
    read_step append_elements cons (λ n a b. refl) (read_batch convert ys) (convert x j)
      (read_batch convert (xs ++ ys)) (read_batch convert xs) (read_batch-append convert xs ys)

pub read_field_batch-append :
    {H : Type 0} (convert : H → Action Node) (xs ys : List (List ℕ × H)) (j : Json)
    → read_field_batch convert (xs ++ ys) j
      ≡ (read_field_batch convert xs >>= λ a.
            read_field_batch convert ys >>= λ b. give (append_fields a b))
          j
unfolding read_field_batch
read_field_batch-append convert [] ys j = then_with-give (read_field_batch convert ys j)
read_field_batch-append convert ((name, x) ∷ xs) ys j =
    read_step append_fields (field name) (λ n a b. refl) (read_field_batch convert ys) (convert x j)
      (read_field_batch convert (xs ++ ys)) (read_field_batch convert xs)
      (read_field_batch-append convert xs ys)
