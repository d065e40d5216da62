-- ===== src/Var/Owned.antt =====
-- The references of a variable are counted: every handle counts those of the variable beside the
-- others that are owed to it.
use godror.Base.{
  ℕ, zero, suc, ◌+◌, ◌<◌, ◌≡◌, refl, ap, sym, ◌∙◌, subst, ◌≢◌, inl, inr, false, Bool-cases, Option,
  none, some, List, [], ◌∷◌, ◌==◌, ==→eq, eq→==, if◌then◌else◌, length, length-set, get_or,
  get_or-set_self, get_or-set_ne, set, ℤ, pos, negsuc, arith,
}
use godror.Gen.Handle.{Base, add_count, set_ref_count}
use godror.Var.References.{no_handle, change, drop_reference, refers_to}

abbrev pub count : List Base → ℕ → ℕ
count store h = (get_or store h no_handle).ref_count

-- how often a handle is referred to
abbrev pub one : ℕ → Option ℕ → ℕ
one h r = if refers_to h r then 1 else 0

abbrev pub references_to : ℕ → List (Option ℕ) → ℕ
references_to h [] = 0
references_to h (r ∷ refs) = one h r + references_to h refs

pub references_to-set :
    (h i : ℕ) (refs : List (Option ℕ)) (new : Option ℕ)
    → i < length refs
    → references_to h (set refs i new) + one h (get_or refs i none)
      ≡ references_to h refs + one h new
references_to-set h i [] new lt = absurd (omega arith)
references_to-set h zero (r ∷ refs) new lt = omega arith
references_to-set h (suc i) (r ∷ refs) new lt =
    omega (arith, references_to-set h i refs new (omega arith))

set_ref_count-count : (b : Base) (k : ℤ) → (set_ref_count b k).ref_count ≡ add_count b.ref_count k
unfolding set_ref_count
set_ref_count-count b k = elim (Bool-cases (add_count b.ref_count k == 0)) [
  | inl gone ↦ rw (set_ref_count, gone) refl
  | inr held ↦ rw (set_ref_count, held) refl
]

change-count_self :
    (store : List Base) (h : ℕ) (k : ℤ)
    → h < length store
    → count (change store h k) h ≡ add_count (count store h) k
change-count_self store h k lt =
    let b = get_or store h no_handle in
    ap (λ (x : Base). x.ref_count) (get_or-set_self store h (set_ref_count b k) no_handle lt)
    ∙ set_ref_count-count b k

change-count_ne :
    (store : List Base) (h g : ℕ) (k : ℤ) → h ≢ g → count (change store h k) g ≡ count store g
change-count_ne store h g k differs =
    let b = get_or store h no_handle in
    ap (λ (x : Base). x.ref_count) (get_or-set_ne store h g (set_ref_count b k) no_handle differs)

-- a handle with references is there
pub count_there : (store : List Base) (h : ℕ) → 0 < count store h → h < length store
count_there [] h lt = absurd (omega arith)
count_there (b ∷ store) zero lt = omega arith
count_there (b ∷ store) (suc h) lt = omega (arith, count_there store h lt)

-- The counts are what is wanted, below the largest `unsigned`.
abbrev pub CountsAs : (ℕ → ℕ) → List Base → Type 0
CountsAs want store = (h : ℕ) → (count store h ≡ want h) × (want h < 4294967295)

pub one_self : (k : ℕ) → one k (some k) ≡ 1
one_self k = rw (eq→== k k refl) refl

pub one_other : (g k : ℕ) → (g == k) ≡ false → one g (some k) ≡ 0
one_other g k other = rw other refl

not_same : (g k : ℕ) → (g == k) ≡ false → k ≢ g
not_same g k other e = absurd (ground arith)

-- A handle whose count goes from what it was to what it shall be, and the others as they were.
changed-CountsAs :
    (want next : ℕ → ℕ) (store : List Base) (k : ℕ) (by : ℤ)
    → CountsAs want store
    → k < length store
    → add_count (want k) by ≡ next k
    → ((g : ℕ) → (g == k) ≡ false → want g ≡ next g)
    → ((g : ℕ) → next g < 4294967295)
    → CountsAs next (change store k by)
changed-CountsAs want next store k by h lt self others small g = elim (Bool-cases (g == k)) [
  | inl same ↦
      let at_k = change-count_self store k by lt ∙ ap (λ n. add_count n by) (h k).0 ∙ self in
      (subst (λ x. count (change store k by) x ≡ next x) (sym (==→eq g k same)) at_k, small g)
  | inr other ↦
      (change-count_ne store k g by (not_same g k other) ∙ (h g).0 ∙ others g other, small g)
]

pub dropped-CountsAs :
    (want rest : ℕ → ℕ) (store : List Base) (old : Option ℕ)
    → CountsAs want store
    → ((g : ℕ) → want g ≡ one g old + rest g)
    → CountsAs rest (drop_reference store old)
unfolding add_count
dropped-CountsAs want rest store none h split g =
    (omega (arith, (h g).0, split g), omega (arith, (h g).1, split g))
dropped-CountsAs want rest store (some k) h split g =
    changed-CountsAs want rest store k (negsuc 0) h
      (count_there store k (omega (arith, (h k).0, split k, one_self k)))
      (omega (arith, (h k).1, split k, one_self k))
      (λ g other. omega (arith, split g, one_other g k other))
      (λ g. omega (arith, (h g).1, split g)) g

pub added-CountsAs :
    (want next : ℕ → ℕ) (store : List Base) (k : ℕ)
    → CountsAs want store
    → k < length store
    → ((g : ℕ) → next g ≡ one g (some k) + want g)
    → ((g : ℕ) → next g < 4294967295)
    → CountsAs next (change store k (pos 1))
unfolding add_count
added-CountsAs want next store k h lt join small =
    changed-CountsAs want next store k (pos 1) h lt (omega (arith, (h k).1, join k, one_self k))
      (λ g other. omega (arith, join g, one_other g k other)) small

pub drop-length :
    (store : List Base) (old : Option ℕ) → length (drop_reference store old) ≡ length store
drop-length store none = refl
drop-length store (some k) =
    length-set store k (set_ref_count (get_or store k no_handle) (negsuc 0))
