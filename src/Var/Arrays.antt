-- ===== src/Var/Arrays.antt =====
-- The arrays of a variable that is made with memory for its values: `dpiVar__initBuffer`.
use godror.Base.{
  ℕ, zero, suc, ◌+◌, ◌*◌, ◌%◌, ◌≤◌, ◌<◌, ◌≡◌, refl, ap, ◌∙◌, subst, ◌≢◌, inl, inr, ◌⊎◌, true, false,
  Bool-cases, ◌&&◌, not, Option, List, [], ◌∷◌, ◌==◌, ltb, if◌then◌else◌, length, get_or,
  length-replicate, ok, arith,
}
use godror.OracleTypes.Numbers.{type_number, native_bytes}
use godror.OracleTypes.Table.{max_basic_buffer_size}
use godror.Gen.Handle.{Base}
use godror.Var.State.{Env, Place, in_data, Data, Buffer, Var, null_data, empty_buffer}
use godror.Var.Allocate.{
  Request, Platform, new_var, allocate_var, init_arrays, init_pointers, init_lengths, has_value,
  int_max, set_places, place_of, temp_size,
}
use godror.Var.Made.{allocate_var_inv, init_buffer_inv, init_values_static}

length-set_places :
    (place : ℕ → Place → Place) (i : ℕ) (ds : List Data)
    → length (set_places place i ds) ≡ length ds
length-set_places place i [] = refl
length-set_places place i (d ∷ ds) = ap suc (length-set_places place (suc i) ds)

get_or-set_places :
    (place : ℕ → Place → Place) (i j : ℕ) (ds : List Data)
    → j < length ds
    → (get_or (set_places place i ds) j null_data).place
      ≡ place (i + j) (get_or ds j null_data).place
get_or-set_places place i j [] lt = absurd (omega arith)
get_or-set_places place i zero (d ∷ ds) lt = ap (λ k. place k d.place) (omega arith)
get_or-set_places place i (suc j) (d ∷ ds) lt =
    get_or-set_places place (suc i) j ds (omega arith)
    ∙ ap (λ k. place k (get_or ds j null_data).place) (omega arith)

-- There is one array of actual lengths, of 32 or of 16 bits.
abbrev pub HasLengths : ℕ → List ℕ → List ℕ → Type 0
HasLengths n lengths32 lengths16 =
    ((length lengths32 ≡ n) × (lengths16 ≡ [])) ⊎ ((length lengths16 ≡ n) × (lengths32 ≡ []))

-- The arrays of a variable whose values have their memory at once.
pub record IsStatic (v : Var) : Type 0 where
  pub static : v.is_dynamic ≡ false
  pub memory_size : length v.buffer.memory ≡ v.buffer.max_array_size * v.size_in_bytes
  pub bounded : v.buffer.max_array_size * v.size_in_bytes ≤ int_max
  pub data_size : length v.buffer.external_data ≡ v.buffer.max_array_size
  pub no_chunks : v.buffer.dynamic_bytes ≡ []
  pub small : v.size_in_bytes ≤ max_basic_buffer_size
  pub indicators : length v.buffer.indicator ≡ v.buffer.max_array_size
  pub lengths : HasLengths v.buffer.max_array_size v.buffer.actual_length32 v.buffer.actual_length16

-- what the types of such a variable tell of its arrays
pub record Typed (v : Var) : Type 0 where
  pub in_place :
      (i : ℕ)
      → i < v.buffer.max_array_size
      → v.native_type_num ≡ native_bytes
      → v.buffer.temp_buffer ≡ []
      → (get_or v.buffer.external_data i null_data).place ≡ in_data (i * v.size_in_bytes)
  pub no_temp : v.type.oracle_type_num ≢ type_number → v.buffer.temp_buffer ≡ []
  pub no_references : v.type.requires_pre_fetch ≡ false → v.buffer.references ≡ []

-- the parts of the buffer that are made before the pointers are set
record HasArrays (v : Var) (b : Buffer) : Type 0 where
  memory_size : length b.memory ≡ b.max_array_size * v.size_in_bytes
  bounded : b.max_array_size * v.size_in_bytes ≤ int_max
  data_size : length b.external_data ≡ b.max_array_size
  no_chunks : b.dynamic_bytes ≡ []
  indicators : length b.indicator ≡ b.max_array_size
  lengths : HasLengths b.max_array_size b.actual_length32 b.actual_length16
  no_temp : v.type.oracle_type_num ≢ type_number → b.temp_buffer ≡ []
  no_references : b.references ≡ []

temp_none :
    (env : Env) (p : Platform) (v : Var) (n : ℕ)
    → v.type.oracle_type_num ≢ type_number
    → (if v.type.oracle_type_num == type_number && v.native_type_num == native_bytes
        then p.fresh (n * temp_size env v)
        else [])
      ≡ []
temp_none env p v n other =
    let test : (v.type.oracle_type_num == type_number) ≡ false = ground arith in rw test refl

init_arrays-HasArrays :
    (env : Env) (p : Platform) (v : Var) (n a : ℕ)
    → (length (p.fresh (n * v.size_in_bytes)) ≡ n * v.size_in_bytes)
    → v.is_dynamic ≡ false
    → n * v.size_in_bytes ≤ int_max
    → HasArrays v (
        init_arrays env p true v
          (record (empty_buffer n a) { memory = p.fresh (n * v.size_in_bytes) }))
unfolding init_arrays init_lengths temp_size
init_arrays-HasArrays env p v n a fresh static small =
    elim (Bool-cases (ltb env.version_info.version_num 12)) [
      | inl old ↦
          rw (init_arrays, static, old)
            (record {
              memory_size = fresh;
              bounded = small;
              data_size = length-replicate n null_data;
              no_chunks = refl;
              indicators = length-replicate n true;
              lengths = inr (length-replicate n (v.size_in_bytes % 65536), refl);
              no_temp = λ other. temp_none env p v n other;
              no_references = refl;
            })
      | inr later ↦
          rw (init_arrays, static, later)
            (record {
              memory_size = fresh;
              bounded = small;
              data_size = length-replicate n null_data;
              no_chunks = refl;
              indicators = length-replicate n true;
              lengths = inl (length-replicate n v.size_in_bytes, refl);
              no_temp = λ other. temp_none env p v n other;
              no_references = refl;
            })
    ]

-- a part of the memory lies within it
pub slot_fits : (i n size : ℕ) → i < n → i * size + size ≤ n * size
slot_fits i n size lt =
    let rows : suc i ≤ n = omega arith in
    let grows : suc i * size ≤ n * size = grind arith in omega arith

place_of_static :
    (env : Env) (v : Var) (b : Buffer) (i : ℕ) (old : Place)
    → v.is_dynamic ≡ false
    → HasArrays v b
    → i < b.max_array_size
    → b.temp_buffer ≡ []
    → place_of env v b i old ≡ in_data (i * v.size_in_bytes)
unfolding place_of
place_of_static env v b i old static h lt temp =
    let below = slot_fits i b.max_array_size v.size_in_bytes lt in
    let same : i * v.size_in_bytes % 4294967296 ≡ i * v.size_in_bytes =
      omega (arith, below, h.bounded) in
    rw (place_of, temp, static, h.no_chunks, same) refl

placed :
    (env : Env) (v : Var) (b : Buffer) (i : ℕ)
    → v.is_dynamic ≡ false
    → HasArrays v b
    → i < b.max_array_size
    → b.temp_buffer ≡ []
    → (get_or (set_places (place_of env v b) 0 b.external_data) i null_data).place
      ≡ in_data (i * v.size_in_bytes)
placed env v b i static h lt temp =
    let old = (get_or b.external_data i null_data).place in
    let from_zero : 0 + i ≡ i = omega arith in
    get_or-set_places (place_of env v b) 0 i b.external_data (omega (arith, h.data_size))
    ∙ ap (λ j. place_of env v b j old) from_zero
    ∙ place_of_static env v b i old static h lt temp

init_pointers-IsStatic :
    (env : Env) (v : Var) (made : List (Option ℕ)) (b : Buffer)
    → v.is_dynamic ≡ false
    → v.size_in_bytes ≤ max_basic_buffer_size
    → HasArrays v b
    → IsStatic (record v { buffer = init_pointers env v made b })
      × Typed (record v { buffer = init_pointers env v made b })
unfolding init_pointers
init_pointers-IsStatic env v made b static small h =
    let no_references : v.type.requires_pre_fetch ≡ false
        → (if v.type.requires_pre_fetch && not v.is_dynamic then made else b.references) ≡ [] =
      λ none_needed. rw none_needed h.no_references in
    elim (Bool-cases (v.native_type_num == native_bytes)) [
      | inl text ↦
          rw (init_pointers, text)
            (
              record {
                static = static;
                memory_size = h.memory_size;
                bounded = h.bounded;
                data_size = length-set_places (place_of env v b) 0 b.external_data ∙ h.data_size;
                no_chunks = h.no_chunks;
                small = small;
                indicators = h.indicators;
                lengths = h.lengths;
              },
              record {
                in_place = λ i lt native temp. placed env v b i static h lt temp;
                no_temp = h.no_temp;
                no_references = no_references;
              },
            )
      | inr other ↦
          rw (init_pointers, other)
            (
              record {
                static = static;
                memory_size = h.memory_size;
                bounded = h.bounded;
                data_size = h.data_size;
                no_chunks = h.no_chunks;
                small = small;
                indicators = h.indicators;
                lengths = h.lengths;
              },
              record {
                in_place = λ i lt native temp. absurd (ground arith);
                no_temp = h.no_temp;
                no_references = no_references;
              },
            )
    ]

pub made-IsStatic :
    (env : Env) (p : Platform) (conn : Base) (given : Option Base) (r : Request) (v : Var)
    → ((n : ℕ) → length (p.fresh n) ≡ n)
    → (allocate_var env p conn given r).result ≡ ok v
    → v.is_dynamic ≡ false
    → IsStatic v × Typed v
unfolding new_var
made-IsStatic env p conn given r v fresh h static =
    let m = allocate_var_inv env p conn given r v h in
    let v₀ = new_var env r m.type in
    let (b₁, made, values, pointers) =
      init_buffer_inv env p true (has_value given) v₀ v₀.buffer m.filled m.inited in
    let static₀ : v₀.is_dynamic ≡ false = ap (λ (w : Var). w.is_dynamic) m.made ∙ static in
    let (small, filled) = init_values_static p v₀ v₀.buffer b₁ static₀ values in
    let arrays =
      init_arrays-HasArrays env p v₀ r.max_array_size (if r.is_array then 0 else r.max_array_size)
        (fresh (r.max_array_size * v₀.size_in_bytes)) static₀ small in
    let with_values = subst (λ b. HasArrays v₀ (init_arrays env p true v₀ b)) filled arrays in
    let ready =
      init_pointers-IsStatic env v₀ made (init_arrays env p true v₀ b₁) static₀ (ground arith)
        with_values in
    subst (λ w. IsStatic w × Typed w) m.made
      (subst (λ b. IsStatic (record v₀ { buffer = b }) × Typed (record v₀ { buffer = b })) pointers
        ready)
