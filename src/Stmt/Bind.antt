-- ===== src/Stmt/Bind.antt =====
-- Binding a variable to a statement: `dpiStmt__bind` of odpi/src/dpiStmt.c.
use godror.Base.{
  ℕ, suc, ◌+◌, Bool, true, false, ◌&&◌, not, Option, none, some, List, [], ◌∷◌, ◌++◌, ◌==◌,
  if◌then◌else◌, length, get_or, set, Result, ok, err, ◌>>◌, no_memory, not_supported, pos,
}
use godror.Gen.Handle.{Base}
use godror.Var.References.{change, drop_reference, refers_to}

-- What a variable is bound by: a position from 1 on, or a name where it is 0, which holds no zero byte.
pub record Key : Type 0 where
  pub position : ℕ
  pub name : List ℕ

abbrev pub same_name : List ℕ → List ℕ → Bool
same_name [] [] = true
same_name [] (b ∷ bs) = false
same_name (a ∷ rest) [] = false
same_name (a ∷ rest) (b ∷ bs) = a == b && same_name rest bs

abbrev pub same_key : Key → Key → Bool
same_key a b = a.position == b.position && same_name a.name b.name

-- The fields of dpiStmt that are used: the keys of `bindVars` up to `numBindVars`, the variables there
-- by number, and how many there is memory for. `handles` has the bases of the variables, and
-- `binds` the calls of OCI that bind a variable.
pub record Binding : Type 0 where
  pub keys : List Key
  pub vars : List (Option ℕ)
  pub allocated : ℕ
  pub handles : List Base
  pub binds : List (Key × ℕ)

-- What is found: memory for more entries and for the name, the result of `dpiVar__convertToLob`, which is
-- called for a dynamic variable of PL/SQL, that of the function of OCI that binds, and that of the
-- calls which set the bind up.
pub record Answers : Type 0 where
  pub entries_found : Bool
  pub name_found : Bool
  pub converted : Result (Unit {0})
  pub bound : Result (Unit {0})
  pub set_up : Result (Unit {0})

-- The variable: its number, and whether it is one of statements that holds the statement itself.
pub record Bound : Type 0 where
  pub number : ℕ
  pub holds_statement : Bool

-- the position of a key in the list, from a position on
unfoldable pub find_key : Key → ℕ → List Key → Option ℕ
find_key key i [] = none
find_key key i (k ∷ keys) =
    let rest = find_key key (suc i) keys in if same_key k key then some i else rest

abbrev pub is_unnamed : List ℕ → Bool
is_unnamed [] = true
is_unnamed (a ∷ rest) = false

-- an entry for a new key
unfoldable pub add_entry : Answers → Key → Binding → Result (Unit {0}) × Binding
add_entry answers key s =
    let full = length s.keys == s.allocated in
    if full && not answers.entries_found
    then (err no_memory, s)
    else (let grown = record s { allocated = if full then s.allocated + 8 else s.allocated } in
        if not (is_unnamed key.name) && not answers.name_found
        then (err no_memory, grown)
        else (ok tt, record grown { keys = s.keys ++ key ∷ []; vars = s.vars ++ none ∷ [] }))

-- the variable that was bound by the key released
unfoldable pub release_entry : ℕ → Binding → Binding
release_entry i s = record s {
  vars = set s.vars i none;
  handles = drop_reference s.handles (get_or s.vars i none);
}

-- the actual bind, for the entry at a position
unfoldable pub bind_entry : Answers → Key → Bound → ℕ → Binding → Result (Unit {0}) × Binding
bind_entry answers key v i s = elim answers.converted [
  | err e ↦ (err e, s)
  | ok done ↦ (
    answers.bound >> answers.set_up,
    record s {
      vars = set s.vars i (some v.number);
      handles = change s.handles v.number (pos 1);
      binds = (key, v.number) ∷ s.binds;
    },
  )
]

abbrev pub then_bind :
    Answers → Key → Bound → ℕ → Result (Unit {0}) × Binding → Result (Unit {0}) × Binding
then_bind answers key v i (err e, s) = (err e, s)
then_bind answers key v i (ok done, s) = bind_entry answers key v i s

-- `dpiStmt__bind`
unfoldable pub bind : Answers → Key → Bound → Binding → Result (Unit {0}) × Binding
bind answers key v s =
    if key.position == 0 && is_unnamed key.name
    then (err not_supported, s)
    else if v.holds_statement
    then (err not_supported, s)
    else elim (find_key key 0 s.keys) [
      | some i ↦
          if refers_to v.number (get_or s.vars i none)
          then (ok tt, s)
          else bind_entry answers key v i (release_entry i s)
      | none ↦ then_bind answers key v (length s.keys) (add_entry answers key s)
    ]
