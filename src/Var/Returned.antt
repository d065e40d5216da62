-- ===== src/Var/Returned.antt =====
-- What `dpiVar__outBindCallback` gives OCI for the rows that a statement returns.
use godror.Base.{
  ℕ, ◌≤◌, ◌<◌, ◌≡◌, refl, ap, ◌∙◌, Bool, true, false, none, some, List, [], ◌∷◌, ltb, length,
  length-set, get_or, get_or-set_self, Result, ok, err, no_memory, arith,
}
use godror.Var.State.{Env, Buffer, Var, empty_buffer}
use godror.Var.Allocate.{Platform, is_there, init_buffer, init_values}
use godror.Var.Returning.{
  Returning, finalize_buffer, finalize_handles, init_left, Supply, with_buffer, resize, offer_piece,
  make_buffers, offer, then_offer, out_bind_callback,
}

pub is_there-length : {A : Type 0} (xs : List A) → 0 < length xs → is_there xs ≡ true
is_there-length [] h = absurd (omega arith)
is_there-length (x ∷ xs) h = refl

-- a call for the first row of an iteration, once there are buffers
pub first_row :
    (env : Env) (supply : Supply) (object : Bool) (rows : Result ℕ) (one_piece : Bool)
    (s : Returning) (iter : ℕ)
    → iter < length s.buffers
    → out_bind_callback env supply object rows one_piece s iter 0
      ≡ then_offer supply one_piece iter 0 (resize env supply object rows s iter)
unfolding out_bind_callback make_buffers
first_row env supply object rows one_piece s iter lt =
    let there = is_there-length s.buffers (omega arith) in
    let within : ltb iter (length s.buffers) ≡ true = ground arith in
    rw (out_bind_callback, make_buffers, there, within) refl

abbrev pub buffer_of : Returning → ℕ → Buffer
buffer_of s iter = get_or s.buffers iter (empty_buffer 0 0)

-- the state after memory for the rows was not found
abbrev pub failed : Returning → ℕ → ℕ → Returning
failed s iter rows =
    with_buffer iter (record (finalize_buffer (buffer_of s iter)) { max_array_size = rows })
      (record s { handles = finalize_handles s.handles (buffer_of s iter) })

left_size :
    (b : Buffer) (rows later : ℕ)
    → later ≤ rows
    → later ≤ (record (finalize_buffer b) { max_array_size = rows }).max_array_size
left_size b rows later le = le

left_chunks :
    (b : Buffer) (rows later : ℕ)
    → (record (finalize_buffer b) {
      max_array_size = rows;
      actual_array_size = later;
    }).dynamic_bytes
      ≡ []
unfolding finalize_buffer
left_chunks b rows later = refl

init_values_missing :
    (p : Platform) (v : Var) (b : Buffer)
    → v.is_dynamic ≡ true
    → p.values_found ≡ false
    → init_values p v b ≡ err no_memory
unfolding init_values
init_values_missing p v b dynamic missing = rw (init_values, dynamic, missing) refl

init_buffer_missing :
    (env : Env) (p : Platform) (object : Bool) (v : Var) (b : Buffer)
    → v.is_dynamic ≡ true
    → p.values_found ≡ false
    → (init_buffer env p false object v b ≡ err no_memory) × (init_left env p v b ≡ b)
unfolding init_buffer init_left
init_buffer_missing env p object v b dynamic missing =
    let none_found = init_values_missing p v b dynamic missing in
    (rw (init_buffer, none_found) refl, rw (init_left, none_found) refl)

resize-failed :
    (env : Env) (supply : Supply) (object : Bool) (rows : ℕ) (s : Returning) (iter : ℕ)
    → s.var.is_dynamic ≡ true
    → supply.platform.values_found ≡ false
    → (buffer_of s iter).max_array_size < rows
    → resize env supply object (ok rows) s iter ≡ (err no_memory, failed s iter rows)
unfolding resize
resize-failed env supply object rows s iter dynamic missing small =
    let larger : ltb (buffer_of s iter).max_array_size rows ≡ true = ground arith in
    let b = record (finalize_buffer (buffer_of s iter)) { max_array_size = rows } in
    let (fails, same) = init_buffer_missing env supply.platform object s.var b dynamic missing in
    rw (resize, larger, fails, same) refl

-- a buffer that is large enough is not made again
resize_enough :
    (env : Env) (supply : Supply) (object : Bool) (rows : ℕ) (s : Returning) (iter : ℕ) (b : Buffer)
    → buffer_of s iter ≡ b
    → rows ≤ b.max_array_size
    → resize env supply object (ok rows) s iter
      ≡ (ok tt, with_buffer iter (record b { actual_array_size = rows }) s)
unfolding resize
resize_enough env supply object rows s iter b here le =
    let enough : ltb b.max_array_size rows ≡ false = ground arith in rw (resize, here, enough) refl

-- a buffer without chunks
offer_nothing :
    (supply : Supply) (one_piece : Bool) (s : Returning) (iter : ℕ) (b : Buffer)
    → s.var.is_dynamic ≡ true
    → buffer_of s iter ≡ b
    → b.dynamic_bytes ≡ []
    → offer supply one_piece s iter 0 ≡ none
unfolding offer offer_piece
offer_nothing supply one_piece s iter b dynamic here nothing =
    rw (offer, dynamic) (rw (offer_piece, here, nothing) refl)

-- A call that is asked for more rows than the buffer of its iteration has, for a dynamic variable, and
-- that finds no memory for them, fails with `no_memory`; and the next call for that iteration that
-- is asked for no more rows than it, whatever it finds, is undefined: it uses the array that is gone.
pub out_bind_callback_faults :
    (env : Env) (supply next : Supply) (object one_piece again : Bool) (rows later : ℕ)
    (s : Returning) (iter : ℕ)
    → s.var.is_dynamic ≡ true
    → iter < length s.buffers
    → (get_or s.buffers iter (empty_buffer 0 0)).max_array_size < rows
    → supply.platform.values_found ≡ false
    → later ≤ rows
    → (s₁ : Returning) × (out_bind_callback env supply object (ok rows) one_piece s iter 0
        ≡ some (err no_memory, s₁))
      × (out_bind_callback env next object (ok later) again s₁ iter 0 ≡ none)
out_bind_callback_faults env supply next object one_piece again rows later s iter dynamic lt small
      missing le =
    let left = record (finalize_buffer (buffer_of s iter)) { max_array_size = rows } in
    let s₁ = failed s iter rows in
    let lt₁ : iter < length s₁.buffers = omega (arith, length-set s.buffers iter left) in
    let here : buffer_of s₁ iter ≡ left =
      get_or-set_self s.buffers iter left (empty_buffer 0 0) lt in
    let b = record left { actual_array_size = later } in
    let s₂ = with_buffer iter b s₁ in
    let here₂ : buffer_of s₂ iter ≡ b = get_or-set_self s₁.buffers iter b (empty_buffer 0 0) lt₁ in
    (
      s₁,
      first_row env supply object (ok rows) one_piece s iter lt
          ∙ ap (λ r. then_offer supply one_piece iter 0 r)
              (resize-failed env supply object rows s iter dynamic missing small),
      first_row env next object (ok later) again s₁ iter lt₁
          ∙ ap (λ r. then_offer next again iter 0 r)
              (resize_enough env next object later s₁ iter left here
                (left_size (buffer_of s iter) rows later le))
          ∙ offer_nothing next again s₂ iter b dynamic here₂
              (left_chunks (buffer_of s iter) rows later),
    )
