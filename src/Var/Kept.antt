-- ===== src/Var/Kept.antt =====
-- The value of a variable at one position, stored and read, and those at the others.
use godror.Base.{
  ℕ, ◌*◌, ◌≤◌, ◌<◌, ◌≡◌, refl, ap, sym, ◌∙◌, ◌≢◌, ◌⊎◌, inl, inr, Bool, true, false, Bool-cases,
  some, List, ltb, ltb→lt, if◌then◌else◌, length, get_or, get_or-set_self, get_or-set_ne, set-set,
  set, take, drop, ok, err, buffer_size_too_small, arith,
}
use godror.Var.State.{Env, Data, Var, null_data}
use godror.Var.Bounds.{IsBytesInPlace}
use godror.Var.Arrays.{slot_fits}
use godror.Var.Store.{
  LobCalls, is_too_long, set_in_place, set_from_bytes, set_value_bytes, get_value_bytes, value_of,
  succeeds,
}
use godror.Var.Stored.{
  Copied, set_length-LengthSet, get_or-set_zero, parts, filled_data, set_in_place-Stored,
  set_value_lem, get_value_lem,
}

-- the part of the memory that a position has
abbrev pub slot : Var → ℕ → List ℕ
slot v i = take v.size_in_bytes (drop (i * v.size_in_bytes) v.buffer.memory)

-- What is stored at a position is read from it after it was passed to a statement, and position `i`
-- keeps its memory and its `dpiData`.
pub record KeepsValue (env : Env) (chunks_found found : Bool) (lob : LobCalls) (v : Var) (pos i : ℕ)
    (value : List ℕ) : Type 0 where
  pub stored : Var
  pub final : Var
  pub is_set : set_from_bytes env chunks_found found lob v pos value ≡ some (ok tt, stored)
  pub got : get_value_bytes (set_value_bytes stored pos) pos ≡ (ok tt, final)
  pub reads : value_of final pos ≡ value
  pub same_slot : slot final i ≡ slot v i
  pub same_data :
      get_or final.buffer.external_data i null_data ≡ get_or v.buffer.external_data i null_data

set_from_bytes_in_place :
    (env : Env) (chunks_found found : Bool) (lob : LobCalls) (v : Var) (pos : ℕ) (value : List ℕ)
    → IsBytesInPlace v
    → set_from_bytes env chunks_found found lob v pos value ≡ (
        if ltb v.size_in_bytes (length value)
        then some (err buffer_size_too_small, v)
        else succeeds (set_in_place env v pos value))
unfolding set_from_bytes is_too_long
set_from_bytes_in_place env chunks_found found lob v pos value h =
    rw (set_from_bytes, h.no_references, h.no_temp, h.static.no_chunks) refl

kept_slot :
    (v : Var) (pos i : ℕ) (value : List ℕ) (c : Copied (pos * v.size_in_bytes) value v.buffer)
    → i ≢ pos
    → length value ≤ v.size_in_bytes
    → take v.size_in_bytes (drop (i * v.size_in_bytes) c.memory) ≡ slot v i
kept_slot v pos i value c differs le = elim (Bool-cases (ltb i pos)) [
  | inl less ↦
      c.leaves_before (i * v.size_in_bytes) v.size_in_bytes
        (slot_fits i pos v.size_in_bytes (ground arith))
  | inr more ↦
      let below : pos < i = ground arith in
      c.leaves_after (i * v.size_in_bytes) v.size_in_bytes
        (omega (arith, slot_fits pos i v.size_in_bytes below))
]

value_lem :
    (v : Var) (pos offset n : ℕ) (indicator : List Bool) (codes lengths32 lengths16 memory : List ℕ)
    (external : List Data)
    → get_or external pos null_data ≡ filled_data offset n
    → value_of (parts v indicator codes lengths32 lengths16 external memory) pos
      ≡ take n (drop offset memory)
unfolding value_of
value_lem v pos offset n indicator codes lengths32 lengths16 memory external here =
    rw (value_of, here) refl

kept :
    (env : Env) (chunks_found found : Bool) (lob : LobCalls) (v : Var) (pos i : ℕ) (value : List ℕ)
    → IsBytesInPlace v
    → pos < v.buffer.max_array_size
    → i ≢ pos
    → length value ≤ v.size_in_bytes
    → KeepsValue env chunks_found found lob v pos i value
kept env chunks_found found lob v pos i value h lt differs le =
    let size = v.size_in_bytes in
    let n = length value in
    let fits : ltb size n ≡ false = ground arith in
    let s = set_in_place-Stored env v pos value h lt le in
    let new = filled_data (pos * size) n in
    let external = set v.buffer.external_data pos new in
    let here : get_or external pos null_data ≡ new =
      get_or-set_self v.buffer.external_data pos new null_data
        (omega (arith, h.static.data_size)) in
    let w = parts v v.buffer.indicator s.codes s.lengths32 s.lengths16 external s.copied.memory in
    let indicator = set v.buffer.indicator pos false in
    let l =
      set_length-LengthSet (record w.buffer { indicator = indicator }) pos n s.sizes lt
        (omega (arith, h.static.small)) in
    let codes = set s.codes pos 0 in
    let passed =
      set_value_lem v pos (pos * size) n v.buffer.indicator s.codes s.lengths32 s.lengths16
        l.lengths32 l.lengths16 s.copied.memory external here l.result in
    let got =
      get_value_lem v pos (pos * size) n indicator codes l.lengths32 l.lengths16 s.copied.memory
        external here
        (get_or-set_self v.buffer.indicator pos false true (omega (arith, h.static.indicators)))
        (get_or-set_zero s.codes pos) l.single l.reads in
    let same : set (set external pos new) pos new ≡ external =
      set-set external pos new new ∙ set-set v.buffer.external_data pos new new in
    record {
      stored = w;
      final = parts v indicator codes l.lengths32 l.lengths16 external s.copied.memory;
      is_set =
          set_from_bytes_in_place env chunks_found found lob v pos value h
          ∙ rw (fits, s.result) refl;
      got =
          ap (λ u. get_value_bytes u pos) passed
          ∙ got
          ∙ ap
              (λ (e : List Data).
                (ok tt, parts v indicator codes l.lengths32 l.lengths16 e s.copied.memory))
              same;
      reads =
          value_lem v pos (pos * size) n indicator codes l.lengths32 l.lengths16 s.copied.memory
            external here
          ∙ s.copied.reads;
      same_slot = kept_slot v pos i value s.copied differs le;
      same_data = get_or-set_ne v.buffer.external_data pos i new null_data (λ e. differs (sym e));
    }

-- Where a variable holds its bytes in place and the position is within its array, a byte string of at
-- most its size is stored, passed to a statement and read again as it was, and another position keeps
-- its memory and its `dpiData`; a longer byte string is refused, and nothing changes.
pub set_from_bytes-KeepsValue :
    (env : Env) (chunks_found found : Bool) (lob : LobCalls) (v : Var) (pos i : ℕ) (value : List ℕ)
    → IsBytesInPlace v
    → pos < v.buffer.max_array_size
    → i ≢ pos
    → (length value ≤ v.size_in_bytes) × KeepsValue env chunks_found found lob v pos i value
      ⊎ (v.size_in_bytes < length value)
        × (set_from_bytes env chunks_found found lob v pos value
            ≡ some (err buffer_size_too_small, v))
set_from_bytes-KeepsValue env chunks_found found lob v pos i value h lt differs =
    elim (Bool-cases (ltb v.size_in_bytes (length value))) [
      | inl large ↦ inr (
        ltb→lt _ _ large,
        set_from_bytes_in_place env chunks_found found lob v pos value h ∙ rw large refl,
      )
      | inr fits ↦
          let le : length value ≤ v.size_in_bytes = ground arith in
          inl (le, kept env chunks_found found lob v pos i value h lt differs le)
    ]
