-- ===== src/Var/Stored.antt =====
-- A byte string stored in a variable is the one that is read from it: `set_from_bytes`, then
-- `set_value_bytes` before a statement is executed and `get_value_bytes` after it.
use godror.Base.{
  ℕ, zero, suc, ◌+◌, ◌*◌, ◌%◌, ◌≤◌, ◌<◌, ◌≡◌, refl, ap, ◌∙◌, inl, inr, Bool, true, false,
  Bool-cases, ◌&&◌, some, List, [], ◌∷◌, ◌==◌, if◌then◌else◌, length, length-set, get_or,
  get_or-set_self, set, take, drop, ok, arith,
}
use godror.Var.State.{Env, Place, in_data, Data, Buffer, Var, type_size, null_data}
use godror.Var.Allocate.{is_there}
use godror.Var.Bounds.{IsBytesInPlace, Placed-get_or}
use godror.Var.Arrays.{HasLengths, slot_fits}
use godror.Var.Memory.{write_at-Written}
use godror.Var.Store.{set_length, copy_to, set_in_place, set_value_bytes, get_value_bytes}

is_there-length : {A : Type 0} (xs : List A) → 0 < length xs → is_there xs ≡ true
is_there-length [] h = absurd (omega arith)
is_there-length (x ∷ xs) h = refl

pub get_or-set_zero : (xs : List ℕ) (i : ℕ) → get_or (set xs i 0) i 0 ≡ 0
get_or-set_zero [] i = refl
get_or-set_zero (x ∷ xs) zero = refl
get_or-set_zero (x ∷ xs) (suc i) = get_or-set_zero xs i

-- the actual lengths after one is set, as they are read
pub record LengthSet (b : Buffer) (pos n : ℕ) : Type 0 where
  pub lengths32 : List ℕ
  pub lengths16 : List ℕ
  pub result :
      set_length pos n b ≡ record b { actual_length32 = lengths32; actual_length16 = lengths16 }
  pub sizes : HasLengths b.max_array_size lengths32 lengths16
  pub single : (is_there lengths16 && is_there lengths32) ≡ false
  pub reads : (if is_there lengths16 then get_or lengths16 pos 0 else get_or lengths32 pos 0) ≡ n

pub set_length-LengthSet :
    (b : Buffer) (pos n : ℕ)
    → HasLengths b.max_array_size b.actual_length32 b.actual_length16
    → pos < b.max_array_size
    → n < 65536
    → LengthSet b pos n
set_length-LengthSet b pos n (inl (size, gone)) lt small =
    let there = is_there-length b.actual_length32 (omega arith) in
    let same = length-set b.actual_length32 pos n in
    record {
      lengths32 = set b.actual_length32 pos n;
      lengths16 = b.actual_length16;
      result = rw there refl;
      sizes = inl (same ∙ size, gone);
      single = rw gone refl;
      reads = rw gone (get_or-set_self b.actual_length32 pos n 0 (omega arith));
    }
set_length-LengthSet b pos n (inr (size, gone)) lt small =
    let same = length-set b.actual_length16 pos n in
    let there = is_there-length (set b.actual_length16 pos n) (omega arith) in
    let narrow : n % 65536 ≡ n = omega arith in
    record {
      lengths32 = b.actual_length32;
      lengths16 = set b.actual_length16 pos n;
      result = rw (gone, narrow) refl;
      sizes = inr (same ∙ size, gone);
      single = rw (gone, there) refl;
      reads = rw there (get_or-set_self b.actual_length16 pos n 0 (omega arith));
    }

-- a value copied into the memory of a buffer
pub record Copied (offset : ℕ) (value : List ℕ) (b : Buffer) : Type 0 where
  pub memory : List ℕ
  pub result : copy_to (in_data offset) value b ≡ some (record b { memory = memory })
  pub same_size : length memory ≡ length b.memory
  pub reads : take (length value) (drop offset memory) ≡ value
  pub leaves_before : (o m : ℕ) → o + m ≤ offset → take m (drop o memory) ≡ take m (drop o b.memory)
  pub leaves_after :
      (o m : ℕ) → offset + length value ≤ o → take m (drop o memory) ≡ take m (drop o b.memory)

copy_to-Copied :
    (offset : ℕ) (value : List ℕ) (b : Buffer)
    → offset + length value ≤ length b.memory
    → Copied offset value b
unfolding copy_to
copy_to-Copied offset [] b h = record {
  memory = b.memory;
  result = refl;
  same_size = refl;
  reads = refl;
  leaves_before = λ o m k. refl;
  leaves_after = λ o m k. refl;
}
copy_to-Copied offset (x ∷ value) b h =
    let w = write_at-Written offset (x ∷ value) b.memory h in
    record {
      memory = w.written;
      result = rw (copy_to, w.result) refl;
      same_size = w.same_size;
      reads = w.reads;
      leaves_before = w.leaves_before;
      leaves_after = w.leaves_after;
    }

-- a variable with other arrays
abbrev pub parts : Var → List Bool → List ℕ → List ℕ → List ℕ → List Data → List ℕ → Var
parts v indicator codes lengths32 lengths16 external memory = record v {
  buffer = record v.buffer {
    indicator = indicator;
    return_code = codes;
    actual_length32 = lengths32;
    actual_length16 = lengths16;
    external_data = external;
    memory = memory;
  };
}

abbrev pub filled_data : ℕ → ℕ → Data
filled_data offset n = record { is_null = false; place = in_data offset; length = n }

-- the first step
pub record StoredInPlace (env : Env) (v : Var) (pos : ℕ) (value : List ℕ) : Type 0 where
  pub codes : List ℕ
  pub lengths32 : List ℕ
  pub lengths16 : List ℕ
  pub copied : Copied (pos * v.size_in_bytes) value v.buffer
  pub result :
      set_in_place env v pos value
      ≡ some (
          parts v v.buffer.indicator codes lengths32 lengths16
            (set v.buffer.external_data pos (filled_data (pos * v.size_in_bytes) (length value)))
            copied.memory)
  pub sizes : HasLengths v.buffer.max_array_size lengths32 lengths16

set_in_place_lem :
    (env : Env) (v : Var) (pos : ℕ) (value : List ℕ) (offset : ℕ)
    (memory lengths32 lengths16 : List ℕ)
    → (get_or v.buffer.external_data pos null_data).place ≡ in_data offset
    → copy_to (in_data offset) value v.buffer ≡ some (record v.buffer { memory = memory })
    → (if type_size env v.type.size_in_bytes == 0
        then set_length pos (length value) (record v.buffer { memory = memory })
        else record v.buffer { memory = memory })
      ≡ record v.buffer {
        memory = memory;
        actual_length32 = lengths32;
        actual_length16 = lengths16;
      }
    → set_in_place env v pos value
      ≡ some (
          parts v v.buffer.indicator
            (set v.buffer.return_code pos 0)
            lengths32
            lengths16
            (set v.buffer.external_data pos (filled_data offset (length value)))
            memory)
unfolding set_in_place
set_in_place_lem env v pos value offset memory lengths32 lengths16 place copied sizes =
    rw (set_in_place, place, copied, sizes)
      (ap
        (λ (p : Place).
          let filled : Data = record { is_null = false; place = p; length = length value } in
          some (
            parts v v.buffer.indicator (set v.buffer.return_code pos 0) lengths32 lengths16
              (set v.buffer.external_data pos filled) memory))
        place)

pub set_in_place-Stored :
    (env : Env) (v : Var) (pos : ℕ) (value : List ℕ)
    → IsBytesInPlace v
    → pos < v.buffer.max_array_size
    → length value ≤ v.size_in_bytes
    → StoredInPlace env v pos value
set_in_place-Stored env v pos value ready lt le =
    let h = ready.static in
    let fits = slot_fits pos v.buffer.max_array_size v.size_in_bytes lt in
    let c =
      copy_to-Copied (pos * v.size_in_bytes) value v.buffer (omega (arith, fits, h.memory_size)) in
    let from_zero : 0 + pos ≡ pos = omega arith in
    let place =
      Placed-get_or v.size_in_bytes 0 pos v.buffer.external_data ready.places
        (omega (arith, h.data_size))
      ∙ ap (λ k. in_data (k * v.size_in_bytes)) from_zero in
    let bound : length value < 65536 = omega (arith, h.small) in
    let l =
      set_length-LengthSet (record v.buffer { memory = c.memory }) pos (length value) h.lengths lt
        bound in
    elim (Bool-cases (type_size env v.type.size_in_bytes == 0)) [
      | inl varies ↦ record {
        codes = set v.buffer.return_code pos 0;
        lengths32 = l.lengths32;
        lengths16 = l.lengths16;
        copied = c;
        result =
            set_in_place_lem env v pos value (pos * v.size_in_bytes) c.memory l.lengths32
              l.lengths16 place c.result (rw varies l.result);
        sizes = l.sizes;
      }
      | inr fixed ↦ record {
        codes = set v.buffer.return_code pos 0;
        lengths32 = v.buffer.actual_length32;
        lengths16 = v.buffer.actual_length16;
        copied = c;
        result =
            set_in_place_lem env v pos value (pos * v.size_in_bytes) c.memory
              v.buffer.actual_length32 v.buffer.actual_length16 place c.result (rw fixed refl);
        sizes = h.lengths;
      }
    ]

pub set_value_lem :
    (v : Var) (pos offset n : ℕ) (indicator : List Bool)
    (codes lengths32 lengths16 new32 new16 memory : List ℕ) (external : List Data)
    → get_or external pos null_data ≡ filled_data offset n
    → (let w = parts v indicator codes lengths32 lengths16 external memory in
        set_length pos n (record w.buffer { indicator = set indicator pos false })
        ≡ record w.buffer {
          indicator = set indicator pos false;
          actual_length32 = new32;
          actual_length16 = new16;
        })
    → set_value_bytes (parts v indicator codes lengths32 lengths16 external memory) pos
      ≡ parts v (set indicator pos false) (set codes pos 0) new32 new16 external memory
unfolding set_value_bytes
set_value_lem v pos offset n indicator codes lengths32 lengths16 new32 new16 memory external stored
      lengths =
    rw (set_value_bytes, stored, lengths) refl

pub get_value_lem :
    (v : Var) (pos offset n : ℕ) (indicator : List Bool) (codes lengths32 lengths16 memory : List ℕ)
    (external : List Data)
    → get_or external pos null_data ≡ filled_data offset n
    → get_or indicator pos true ≡ false
    → get_or codes pos 0 ≡ 0
    → (is_there lengths16 && is_there lengths32) ≡ false
    → (if is_there lengths16 then get_or lengths16 pos 0 else get_or lengths32 pos 0) ≡ n
    → get_value_bytes (parts v indicator codes lengths32 lengths16 external memory) pos ≡ (
      ok tt,
      parts v indicator codes lengths32 lengths16
          (set (set external pos (filled_data offset n)) pos (filled_data offset n))
          memory,
    )
unfolding get_value_bytes
get_value_lem v pos offset n indicator codes lengths32 lengths16 memory external stored here code
      single reads =
    let no_code : (is_there codes && false) ≡ false = ground arith in
    rw (get_value_bytes, stored, here, code, single, reads) (rw no_code refl)
