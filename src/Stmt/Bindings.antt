-- ===== src/Stmt/Bindings.antt =====
-- The counts of the variables that a statement holds, when one is bound.
use godror.Base.{
  ℕ, suc, ◌+◌, ◌<◌, ◌≡◌, refl, ap, sym, ◌∙◌, subst, inl, inr, false, Bool-cases, ◌&&◌, not, Option,
  Option-cases, none, some, List, [], ◌∷◌, ◌++◌, ◌==◌, if◌then◌else◌, length, length-set,
  length-append, get_or, get_or-set_self, set, Result, Result-cases, arith,
}
use godror.Var.References.{refers_to}
use godror.Var.Owned.{
  count, one, references_to, references_to-set, dropped-CountsAs, added-CountsAs, drop-length,
}
use godror.Var.Counted.{IsCounted, CountsAs-ext, kept_small}
use godror.Stmt.Rebind.{bind_fresh}
use godror.Stmt.Bind.{
  Key, same_key, Binding, Answers, Bound, find_key, is_unnamed, add_entry, release_entry,
  bind_entry, then_bind, bind,
}

-- Each entry has a key and a place for a variable, and the variables count the entries that hold
-- them beside what is owed to them.
pub record IsHolding (owed : ℕ → ℕ) (s : Binding) : Type 0 where
  pub sizes : length s.vars ≡ length s.keys
  pub counted : IsCounted owed s.handles s.vars

references_to-append :
    (g : ℕ) (refs : List (Option ℕ)) → references_to g (refs ++ none ∷ []) ≡ references_to g refs
references_to-append g [] = omega arith
references_to-append g (r ∷ refs) = omega (arith, references_to-append g refs)

get_or-none : (refs : List (Option ℕ)) → get_or (refs ++ none ∷ []) (length refs) none ≡ none
get_or-none [] = refl
get_or-none (r ∷ refs) = get_or-none refs

find_key_within :
    (key : Key) (i n : ℕ) (keys : List Key) → find_key key i keys ≡ some n → n < i + length keys
unfolding find_key
find_key_within key i n [] h = absurd (cc)
find_key_within key i n (k ∷ keys) h = elim (Bool-cases (same_key k key)) [
  | inl same ↦
      let here : some i ≡ some n = cc in let same_place : i ≡ n = cc in omega (arith, same_place)
  | inr other ↦ omega (arith, find_key_within key (suc i) n keys (cc))
]

set_empty :
    (owed : ℕ → ℕ) (g i h : ℕ) (refs : List (Option ℕ))
    → i < length refs
    → get_or refs i none ≡ none
    → owed g + references_to g (set refs i (some h))
      ≡ one g (some h) + (owed g + references_to g refs)
set_empty owed g i h refs lt empty =
    let was : one g (get_or refs i none) ≡ 0 = rw empty refl in
    omega (arith, references_to-set g i refs (some h) lt, was)

release_entry-IsHolding :
    (owed : ℕ → ℕ) (s : Binding) (i : ℕ)
    → IsHolding owed s
    → i < length s.vars
    → IsHolding owed (release_entry i s)
unfolding release_entry
release_entry-IsHolding owed s i h lt = record {
  sizes = length-set s.vars i none ∙ h.sizes;
  counted =
      dropped-CountsAs (λ g. owed g + references_to g s.vars)
        (λ g. owed g + references_to g (set s.vars i none)) s.handles (get_or s.vars i none)
        h.counted (λ g. omega (arith, references_to-set g i s.vars none lt));
}

bind_entry-IsHolding :
    (owed : ℕ → ℕ) (answers : Answers) (key : Key) (v : Bound) (i : ℕ) (s : Binding)
    → IsHolding owed s
    → i < length s.vars
    → get_or s.vars i none ≡ none
    → v.number < length s.handles
    → count s.handles v.number < 4294967294
    → IsHolding owed (bind_entry answers key v i s).1
unfolding bind_entry
bind_entry-IsHolding owed answers key v i s h lt empty there room =
    elim (Result-cases answers.converted) [
      | inl (e, c) ↦ rw (bind_entry, c) h
      | inr (u, c) ↦
          rw (bind_entry, c)
            (record {
              sizes = length-set s.vars i (some v.number) ∙ h.sizes;
              counted =
                  added-CountsAs (λ g. owed g + references_to g s.vars)
                    (λ g. owed g + references_to g (set s.vars i (some v.number))) s.handles
                    v.number h.counted there (λ g. set_empty owed g i v.number s.vars lt empty)
                    (λ g. kept_small owed s.handles s.vars i v.number g h.counted lt room);
            })
    ]

add_entry-IsHolding :
    (owed : ℕ → ℕ) (answers : Answers) (key : Key) (v : Bound) (s : Binding)
    → IsHolding owed s
    → v.number < length s.handles
    → count s.handles v.number < 4294967294
    → IsHolding owed (then_bind answers key v (length s.keys) (add_entry answers key s)).1
unfolding add_entry
add_entry-IsHolding owed answers key v s h there room =
    elim (Bool-cases (length s.keys == s.allocated && not answers.entries_found)) [
      | inl no_entries ↦ rw (add_entry, no_entries) h
      | inr entries ↦ elim (Bool-cases (not (is_unnamed key.name) && not answers.name_found)) [
        | inl no_name ↦
            rw (add_entry, entries, no_name) (record { sizes = h.sizes; counted = h.counted })
        | inr name ↦
            rw (add_entry, entries, name)
              (bind_entry-IsHolding owed answers key v (length s.keys)
                (record {
                  keys = s.keys ++ key ∷ [];
                  vars = s.vars ++ none ∷ [];
                  allocated = if length s.keys == s.allocated then s.allocated + 8 else s.allocated;
                  handles = s.handles;
                  binds = s.binds;
                })
                (record {
                  sizes = omega (
                    arith,
                    h.sizes,
                    length-append {0} s.vars (none ∷ []),
                    length-append {0} s.keys (key ∷ []),
                  );
                  counted =
                      CountsAs-ext (λ g. owed g + references_to g s.vars)
                        (λ g. owed g + references_to g (s.vars ++ none ∷ [])) s.handles h.counted
                        (λ g. omega (arith, references_to-append g s.vars));
                })
                (omega (arith, h.sizes, length-append {0} s.vars (none ∷ [])))
                (ap (λ n. get_or (s.vars ++ none ∷ []) n none) (sym h.sizes) ∙ get_or-none s.vars)
                there room)
      ]
    ]

rebound-IsHolding :
    (owed : ℕ → ℕ) (answers : Answers) (key : Key) (v : Bound) (i : ℕ) (s : Binding)
    → IsHolding owed s
    → i < length s.vars
    → v.number < length s.handles
    → count s.handles v.number < 4294967294
    → IsHolding owed (bind_entry answers key v i (release_entry i s)).1
unfolding release_entry
rebound-IsHolding owed answers key v i s h lt there room =
    let released = release_entry-IsHolding owed s i h lt in
    let old = get_or s.vars i none in
    bind_entry-IsHolding owed answers key v i (release_entry i s) released
      (omega (arith, length-set s.vars i none)) (get_or-set_self s.vars i none none lt)
      (omega (arith, drop-length s.handles old))
      (omega (
        arith,
        (released.counted v.number).0,
        (h.counted v.number).0,
        references_to-set v.number i s.vars none lt,
      ))

bind_named :
    (owed : ℕ → ℕ) (answers : Answers) (key : Key) (v : Bound) (s : Binding)
    → IsHolding owed s
    → v.number < length s.handles
    → count s.handles v.number < 4294967294
    → (key.position == 0 && is_unnamed key.name) ≡ false
    → v.holds_statement ≡ false
    → IsHolding owed (bind answers key v s).1
unfolding bind bind_entry
bind_named owed answers key v s h there room named other =
    elim (Option-cases (find_key key 0 s.keys)) [
      | inl fresh ↦
          subst (λ (r : Result (Unit {0}) × Binding). IsHolding owed r.1)
            (sym (bind_fresh answers key v s named other fresh))
            (add_entry-IsHolding owed answers key v s h there room)
      | inr (i, found) ↦
          let lt : i < length s.vars =
            omega (arith, h.sizes, find_key_within key 0 i s.keys found) in
          elim (Bool-cases (refers_to v.number (get_or s.vars i none))) [
            | inl same ↦ rw (bind, named, other, found, same) h
            | inr differs ↦
                rw (bind, named, other, found, differs)
                  (rebound-IsHolding owed answers key v i s h lt there room)
          ]
    ]

-- Where the variables count the entries of a statement that hold them, beside what is owed to them, they
-- do so after a variable is bound, in whatever way that ends: refused, already bound by the key, in
-- place of another, by a new key, or failed on the way. The variable must be there and count less
-- than 2^32 - 2 references.
pub bind-IsHolding :
    (owed : ℕ → ℕ) (answers : Answers) (key : Key) (v : Bound) (s : Binding)
    → IsHolding owed s
    → v.number < length s.handles
    → count s.handles v.number < 4294967294
    → IsHolding owed (bind answers key v s).1
unfolding bind
bind-IsHolding owed answers key v s h there room =
    elim (Bool-cases (key.position == 0 && is_unnamed key.name)) [
      | inl unnamed ↦ rw (bind, unnamed) h
      | inr named ↦ elim (Bool-cases v.holds_statement) [
        | inl holds ↦ rw (bind, named, holds) h
        | inr other ↦ bind_named owed answers key v s h there room named other
      ]
    ]
