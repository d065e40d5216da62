-- ===== src/Var/Counted.antt =====
-- The references of a variable are counted by the handles: the counts after a handle is set, after a
-- prefetch, and after the buffer is finalized.
use godror.Base.{
  ℕ, zero, suc, ◌+◌, ◌-◌, ◌≤◌, ◌<◌, ◌≡◌, refl, ap, sym, subst, ◌⊎◌, inl, inr, true, Bool-cases, not,
  Option, none, some, List, [], ◌∷◌, ◌==◌, ==→eq, length, get_or, get_or-set_self, set, Error,
  Result, Result-cases, is_ok-then, is_ok-fail_if, fail_if, leb, invalid_array_position,
  not_supported, ok, err, ◌>>◌, arith,
}
use godror.Gen.Types.{HandleType, var}
use godror.Gen.Handle.{Base, check_handle, start_public_fn}
use godror.Var.State.{Var}
use godror.Var.References.{
  no_handle, drop_reference, refers_to, Outcome, keep_reference, set_reference, release_references,
}
use godror.Var.Owned.{
  count, one, references_to, references_to-set, CountsAs, dropped-CountsAs, added-CountsAs,
  drop-length, one_other,
}
use godror.Var.References.{public_set}
use godror.Var.Store.{check_array_size}

-- Every handle counts the references of the variable beside the others that are owed to it, fewer than
-- 2^32 - 1 in all.
abbrev pub IsCounted : (ℕ → ℕ) → List Base → List (Option ℕ) → Type 0
IsCounted owed store refs = CountsAs (λ h. owed h + references_to h refs) store

references_to-get :
    (g i : ℕ) (refs : List (Option ℕ)) → one g (get_or refs i none) ≤ references_to g refs
references_to-get g i [] = omega arith
references_to-get g zero (r ∷ refs) = omega arith
references_to-get g (suc i) (r ∷ refs) = omega (arith, references_to-get g i refs)

one_le : (g h : ℕ) → one g (some h) ≤ 1
one_le g h = ground arith

pub kept_small :
    (owed : ℕ → ℕ) (store : List Base) (refs : List (Option ℕ)) (i h g : ℕ)
    → IsCounted owed store refs
    → i < length refs
    → count store h < 4294967294
    → owed g + references_to g (set refs i (some h)) < 4294967295
kept_small owed store refs i h g counted lt room = elim (Bool-cases (g == h)) [
  | inl same ↦
      let room_g = subst (λ k. count store k < 4294967294) (sym (==→eq g h same)) room in
      omega (arith, references_to-set g i refs (some h) lt, one_le g h, (counted g).0, room_g)
  | inr other ↦
      omega (arith, references_to-set g i refs (some h) lt, one_other g h other, (counted g).1)
]

refers_to-same : (h : ℕ) (r : Option ℕ) → refers_to h r ≡ true → r ≡ some h
refers_to-same h none e = absurd (cc)
refers_to-same h (some k) e = ap some (sym (==→eq h k e))

keep_reference-IsCounted :
    (owed : ℕ → ℕ) (store : List Base) (v : Var) (i h : ℕ)
    → IsCounted owed store v.buffer.references
    → i < length v.buffer.references
    → h < length store
    → count store h < 4294967294
    → let out = keep_reference store v i h in
      IsCounted owed out.1 out.2.buffer.references
      × (get_or out.2.buffer.references i none ≡ some h)
      × (out.0 ≡ ok tt)
unfolding keep_reference
keep_reference-IsCounted owed store v i h counted lt there room =
    let refs = v.buffer.references in
    let old = get_or refs i none in
    let want = λ (g : ℕ). owed g + references_to g refs in
    elim (Bool-cases (refers_to h old)) [
      | inl same ↦ rw (keep_reference, same) (counted, refers_to-same h old same, refl)
      | inr other ↦
          rw (keep_reference, other)
            (
              added-CountsAs (λ g. want g - one g old)
                  (λ g. owed g + references_to g (set refs i (some h))) (drop_reference store old) h
                  (dropped-CountsAs want (λ g. want g - one g old) store old counted
                    (λ g. omega (arith, references_to-get g i refs)))
                  (omega (arith, drop-length store old))
                  (λ g.
                    omega
                      (arith, references_to-set g i refs (some h) lt, references_to-get g i refs))
                  (λ g. kept_small owed store refs i h g counted lt room),
              get_or-set_self refs i (some h) none lt,
              refl,
            )
    ]

-- A handle was kept at a position, or refused and nothing changed.
abbrev pub IsKeptOrRefused : List Base → Var → ℕ → ℕ → Outcome → Type 0
IsKeptOrRefused store v i h out =
    ((out.0 ≡ ok tt) × (get_or out.2.buffer.references i none ≡ some h))
    ⊎ ((e : Error) × (out ≡ (err e, store, v)))

-- what a call does to the references
abbrev pub IsCountedCall : (ℕ → ℕ) → List Base → Var → ℕ → ℕ → Outcome → Type 0
IsCountedCall owed store v i h out =
    IsCounted owed out.1 out.2.buffer.references × IsKeptOrRefused store v i h out

check_array_size-within :
    (init : Result (Unit {0})) (base : Option Base) (v : Var) (i : ℕ) (u : Unit {0})
    → check_array_size init base v i ≡ ok u
    → i < v.buffer.max_array_size
unfolding check_array_size
check_array_size-within init base v i u h =
    let (w, started, rest) =
      is_ok-then (start_public_fn init base var)
        (λ done. fail_if (leb v.buffer.max_array_size i) invalid_array_position) u h in
    let within = is_ok-fail_if (leb v.buffer.max_array_size i) invalid_array_position u rest in
    ground arith

set_reference-IsCountedCall :
    (type : HandleType) (checked : Result (Unit {0})) (owed : ℕ → ℕ) (store : List Base) (v : Var)
    (i h : ℕ)
    → IsCounted owed store v.buffer.references
    → i < length v.buffer.references
    → h < length store
    → count store h < 4294967294
    → IsCountedCall owed store v i h (set_reference type checked store v i h)
unfolding set_reference
set_reference-IsCountedCall type checked owed store v i h counted lt there room =
    elim (Result-cases (check_handle (some (get_or store h no_handle)) type >> checked)) [
      | inl (e, c) ↦ rw (set_reference, c) (counted, inr (e, refl))
      | inr (u, c) ↦
          let k = keep_reference-IsCounted owed store v i h counted lt there room in
          rw (set_reference, c) (k.0, inl (k.2, k.1))
    ]

-- Where the handles count the references of a variable, beside the others owed to them, they do so
-- after any of the public functions that set a handle at a position, which end with the handle
-- kept there, or are refused and change nothing. The variable must have as many references as
-- positions, and the handle be one of those there are, and count less than 2^32 - 2 references.
pub public_set-IsCountedCall :
    (native : ℕ) (type : HandleType) (checked init : Result (Unit {0})) (base : Option Base)
    (owed : ℕ → ℕ) (store : List Base) (v : Var) (i h : ℕ)
    → IsCounted owed store v.buffer.references
    → length v.buffer.references ≡ v.buffer.max_array_size
    → h < length store
    → count store h < 4294967294
    → IsCountedCall owed store v i h
        (public_set native (set_reference type checked) init base store v i h)
unfolding public_set
public_set-IsCountedCall native type checked init base owed store v i h counted sized there room =
    let native_test = fail_if (not (v.native_type_num == native)) not_supported in
    elim (Result-cases (check_array_size init base v i >> native_test)) [
      | inl (e, c) ↦ rw (public_set, c) (counted, inr (e, refl))
      | inr (u, c) ↦
          let (w, passed, _) =
            is_ok-then (check_array_size init base v i) (λ done. native_test) u c in
          let within = check_array_size-within init base v i w passed in
          rw (public_set, c)
            (set_reference-IsCountedCall type checked owed store v i h counted
              (omega (arith, sized, within)) there room)
    ]

pub CountsAs-ext :
    (want next : ℕ → ℕ) (store : List Base)
    → CountsAs want store
    → ((g : ℕ) → want g ≡ next g)
    → CountsAs next store
CountsAs-ext want next store h e g = (omega (arith, (h g).0, e g), omega (arith, (h g).1, e g))

-- After a buffer is finalized, the handles count the references that are owed besides.
pub release_references-CountsAs :
    (owed : ℕ → ℕ) (store : List Base) (refs : List (Option ℕ))
    → IsCounted owed store refs
    → CountsAs owed (release_references store refs)
unfolding release_references
release_references-CountsAs owed store [] h = CountsAs-ext _ owed store h (λ g. omega arith)
release_references-CountsAs owed store (old ∷ refs) h =
    release_references-CountsAs owed (drop_reference store old) refs (
      dropped-CountsAs (λ g. owed g + references_to g (old ∷ refs))
        (λ g. owed g + references_to g refs) store old h (λ g. omega arith))
