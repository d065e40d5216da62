-- ===== src/Var/Made.antt =====
-- What a variable that `dpiVar__allocate` made comes from: the calls before that succeeded.
use godror.Base.{
  ℕ, ◌*◌, ◌≤◌, ◌≡◌, inl, inr, Bool, true, false, Bool-cases, ◌&&◌, not, Option, List, ◌==◌, ltb,
  Result-cases, ok, arith,
}
use godror.OracleTypes.Numbers.{type_object}
use godror.OracleTypes.Table.{OracleType}
use godror.Gen.Handle.{Base}
use godror.Var.State.{Env, Buffer, Var}
use godror.Var.Allocate.{
  Request, Platform, check_request, new_var, fill_var, allocate_var, init_buffer, init_values,
  init_arrays, init_pointers, check_object_type, has_value, int_max,
}

-- what a variable that was made comes from
pub record MadeFrom (env : Env) (p : Platform) (r : Request) (object : Bool) (v : Var)
    : Type 0 where
  pub type : OracleType
  pub filled : Buffer
  pub checked : check_request env r ≡ ok type
  pub inited :
      init_buffer env p true object (new_var env r type) (new_var env r type).buffer ≡ ok filled
  pub made : record (new_var env r type) { buffer = filled } ≡ v

fill_var_inv :
    (env : Env) (p : Platform) (conn : Base) (given : Option Base) (v w : Var)
    → (fill_var env p conn given v).result ≡ ok w
    → (b : Buffer) × (init_buffer env p true (has_value given) v v.buffer ≡ ok b)
      × (record v { buffer = b } ≡ w)
unfolding fill_var
fill_var_inv env p conn given v w h = elim (Result-cases (check_object_type given)) [
  | inl (e, c) ↦ absurd (cc)
  | inr (u, c) ↦ elim (Result-cases (init_buffer env p true (has_value given) v v.buffer)) [
    | inl (e, i) ↦ absurd (cc)
    | inr (b, i) ↦ (b, i, cc)
  ]
]

pub allocate_var_inv :
    (env : Env) (p : Platform) (conn : Base) (given : Option Base) (r : Request) (v : Var)
    → (allocate_var env p conn given r).result ≡ ok v
    → MadeFrom env p r (has_value given) v
unfolding allocate_var
allocate_var_inv env p conn given r v h = elim (Result-cases (check_request env r)) [
  | inl (e, c) ↦ absurd (cc)
  | inr (type, c) ↦ elim (Bool-cases p.var_found) [
    | inr none_found ↦ absurd (cc)
    | inl found ↦
        let (b, i, same) = fill_var_inv env p conn given (new_var env r type) v (cc) in
        record { type = type; filled = b; checked = c; inited = i; made = same }
  ]
]

pub init_buffer_inv :
    (env : Env) (p : Platform) (is_main object : Bool) (v : Var) (b₀ b : Buffer)
    → init_buffer env p is_main object v b₀ ≡ ok b
    → (b₁ : Buffer) × (made : List (Option ℕ)) × (init_values p v b₀ ≡ ok b₁)
      × (init_pointers env v made (init_arrays env p is_main v b₁) ≡ b)
unfolding init_buffer
init_buffer_inv env p is_main object v b₀ b h = elim (Result-cases (init_values p v b₀)) [
  | inl (e, i) ↦ absurd (cc)
  | inr (b₁, i) ↦ elim (Bool-cases p.rest_found) [
    | inr none_found ↦ absurd (cc)
    | inl found ↦ elim (Bool-cases (v.type.oracle_type_num == type_object && not object)) [
      | inl missing ↦ absurd (cc)
      | inr there ↦ elim (Result-cases p.descriptors) [
        | inl (e, d) ↦ absurd (cc)
        | inr (made, d) ↦ (b₁, made, i, cc)
      ]
    ]
  ]
]

-- the values of a variable that is not dynamic
pub init_values_static :
    (p : Platform) (v : Var) (b b₁ : Buffer)
    → v.is_dynamic ≡ false
    → init_values p v b ≡ ok b₁
    → (b.max_array_size * v.size_in_bytes ≤ int_max)
      × (record b { memory = p.fresh (b.max_array_size * v.size_in_bytes) } ≡ b₁)
unfolding init_values
init_values_static p v b b₁ static h =
    elim (Bool-cases (ltb int_max (b.max_array_size * v.size_in_bytes))) [
      | inl large ↦ absurd (cc)
      | inr small ↦ elim (Bool-cases p.values_found) [
        | inr none_found ↦ absurd (cc)
        | inl found ↦ (ground arith, cc)
      ]
    ]
