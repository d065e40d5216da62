-- ===== src/Stmt/Rebind.antt =====
-- The variables that a statement holds: the counts of their references, and a bind that failed.
use godror.Base.{
  ℕ, suc, ◌+◌, ◌≡◌, refl, ap, ◌∙◌, inl, inr, true, false, Bool-cases, ◌&&◌, not, none, some, List,
  [], ◌∷◌, ◌++◌, ◌==◌, eq→==, if◌then◌else◌, length, length-append, get_or, get_or-set_self, set,
  Error, ok, err, pos, arith,
}
use godror.Var.References.{change, refers_to}
use godror.Stmt.Bind.{
  Key, same_name, same_key, Binding, Answers, Bound, find_key, is_unnamed, add_entry, bind_entry,
  then_bind, bind,
}

same_name_self : (name : List ℕ) → same_name name name ≡ true
same_name_self [] = refl
same_name_self (a ∷ rest) = ground (arith, same_name_self rest)

same_key_self : (key : Key) → same_key key key ≡ true
same_key_self key = ground (arith, same_name_self key.name)

find_key-append :
    (key : Key) (i : ℕ) (keys : List Key)
    → find_key key i keys ≡ none
    → find_key key i (keys ++ key ∷ []) ≡ some (i + length keys)
unfolding find_key
find_key-append key i [] h = rw (find_key, same_key_self key) (ap some (omega arith))
find_key-append key i (k ∷ keys) h = elim (Bool-cases (same_key k key)) [
  | inl same ↦ absurd (cc)
  | inr other ↦
      let sum : suc i + length keys ≡ i + suc (length keys) = omega arith in
      rw (find_key, other) (find_key-append key (suc i) keys (cc) ∙ ap some sum)
]

refers_to_self : (h : ℕ) → refers_to h (some h) ≡ true
refers_to_self h = eq→== h h refl

pub bind_fresh :
    (answers : Answers) (key : Key) (v : Bound) (s : Binding)
    → (key.position == 0 && is_unnamed key.name) ≡ false
    → v.holds_statement ≡ false
    → find_key key 0 s.keys ≡ none
    → bind answers key v s ≡ then_bind answers key v (length s.keys) (add_entry answers key s)
unfolding bind bind_entry
bind_fresh answers key v s named other fresh = rw (bind, named, other, fresh) refl

bind_again :
    (answers : Answers) (key : Key) (v : Bound) (s : Binding) (i : ℕ)
    → (key.position == 0 && is_unnamed key.name) ≡ false
    → v.holds_statement ≡ false
    → find_key key 0 s.keys ≡ some i
    → get_or s.vars i none ≡ some v.number
    → bind answers key v s ≡ (ok tt, s)
unfolding bind
bind_again answers key v s i named other found here =
    let self = refers_to_self v.number in rw (bind, named, other, found, here, self) refl

-- Where OCI refuses to bind a variable by a new key, the call fails; and binding it again by that key
-- succeeds, whatever is found, without a call of OCI. Memory must be found for the entry, and the
-- conversion to a LOB succeed where it is made.
pub bind_again_skipped :
    (answers next : Answers) (key : Key) (v : Bound) (s : Binding) (e : Error)
    → (key.position == 0 && is_unnamed key.name) ≡ false
    → v.holds_statement ≡ false
    → find_key key 0 s.keys ≡ none
    → length s.vars ≡ length s.keys
    → answers.entries_found ≡ true
    → answers.name_found ≡ true
    → answers.converted ≡ ok tt
    → answers.bound ≡ err e
    → (s₁ : Binding) × (bind answers key v s ≡ (err e, s₁)) × (bind next key v s₁ ≡ (ok tt, s₁))
unfolding add_entry bind_entry
bind_again_skipped answers next key v s e named other fresh sizes entries name converted refused =
    let full = length s.keys == s.allocated in
    let n = length s.keys in
    let s₁ : Binding = record {
      keys = s.keys ++ key ∷ [];
      vars = set (s.vars ++ none ∷ []) n (some v.number);
      allocated = if full then s.allocated + 8 else s.allocated;
      handles = change s.handles v.number (pos 1);
      binds = (key, v.number) ∷ s.binds;
    } in
    let entry_test : (full && false) ≡ false = ground arith in
    let name_test : (not (is_unnamed key.name) && false) ≡ false = ground arith in
    (
      s₁,
      bind_fresh answers key v s named other fresh
          ∙ rw (add_entry, entries, name)
              (rw (entry_test, name_test) (rw (bind_entry, converted, refused) refl)),
      bind_again next key v s₁ n named other
          (find_key-append key 0 s.keys fresh ∙ ap some (omega arith))
          (get_or-set_self (s.vars ++ none ∷ []) n (some v.number) none
            (omega (arith, sizes, length-append {0} s.vars (none ∷ [])))),
    )
