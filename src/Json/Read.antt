-- ===== src/Json/Read.antt =====
-- `dpiJsonNode__fromOracleToNative` of odpi/src/dpiJson.c with the functions for arrays and objects. The
-- nodes that a failed call has filled in are left out. Fuel bounds the depth of the calls: `none` also
-- stands for a call that has not returned.
use godror.Base.{
  ℕ, zero, suc, ◌+◌, ◌-◌, Bool, ◌||◌, List, [], ◌∷◌, ◌==◌, ltb, if◌then◌else◌, length, err,
  unhandled_json_node_type,
}
use godror.OracleTypes.Numbers.{type_json_array, type_json_object}
use godror.Json.Tree.{Node, node, Value, Elements, nil, cons, Fields, end, field}
use godror.Json.Dom.{Dom, jzndom_scalar, jzndom_object, jzndom_array, batch_nodes}
use godror.Json.Buffers.{Action, ◌>>=◌, ◌>>◌, give, lift, undefined, allocate_memory}
use godror.Json.Scalars.{Reader, read_scalar}

-- nodes put before those that the rest of a loop gives
abbrev pub append_elements : Elements → Elements → Elements
append_elements nil rest = rest
append_elements (cons n ns) rest = cons n (append_elements ns rest)

abbrev pub append_fields : Fields → Fields → Fields
append_fields end rest = rest
append_fields (field name n fs) rest = field name n (append_fields fs rest)

-- the loop over a batch of elements
unfoldable pub read_batch : {H : Type 0} → (H → Action Node) → List H → Action Elements
read_batch convert [] = give nil
read_batch convert (h ∷ hs) = do n ← convert h; ns ← read_batch convert hs; give (cons n ns)

-- the loop over a batch of fields
unfoldable pub read_field_batch :
    {H : Type 0} → (H → Action Node) → List (List ℕ × H) → Action Fields
read_field_batch convert [] = give end
read_field_batch convert ((name, h) ∷ hs) = do
  n ← convert h
  fs ← read_field_batch convert hs
  give (field name n fs)

-- A batch that is longer than the array on the stack, or than what is left of the array of nodes, is
-- written past its end.
abbrev pub overruns : ℕ → ℕ → Bool
overruns left n = ltb batch_nodes n || ltb left n

-- The loop over the batches, `rounds` of them at most, from a position on with so many items left.
-- Where items are left after as many rounds as there were items, a batch was empty, and the C loop
-- goes on asking for it.
unfoldable pub read_batches :
    {H R : Type 0} → (List H → Action R) → (R → R → R) → R → (ℕ → List H) → ℕ → ℕ → ℕ → Action R
read_batches convert append empty batch rounds pos zero = give empty
read_batches convert append empty batch zero pos (suc left) = undefined
read_batches convert append empty batch (suc rounds) pos (suc left) =
    let items = batch pos in
    let rest =
      read_batches convert append empty batch rounds (pos + length items)
        (suc left - length items) in
    if overruns (suc left) (length items)
    then undefined
    else convert items >>= λ first. rest >>= λ others. give (append first others)

module _ (dom : Dom) (r : Reader) (convert : dom.Handle → Action Node) where
  -- `dpiJsonNode__fromOracleArrayToNative`
  unfoldable pub read_array : dom.Handle → Action Node
  unfolding read_batch read_batches allocate_memory
  read_array n =
      let size = dom.get_array_size n in
      if size == 0 then give (node type_json_array (Value.json_array nil)) else (do
        allocate_memory r.found
        allocate_memory r.found
        elements ←
            read_batches (read_batch convert) append_elements nil
              (λ pos. dom.get_array_elem_batch n pos batch_nodes) size 0 size
        give (node type_json_array (Value.json_array elements)))

  -- `dpiJsonNode__fromOracleObjectToNative`
  unfoldable pub read_object : dom.Handle → Action Node
  unfolding read_field_batch read_batches allocate_memory
  read_object n =
      let size = dom.get_num_obj_field n in
      if size == 0 then give (node type_json_object (Value.json_object end)) else (do
        allocate_memory r.found
        allocate_memory r.found
        allocate_memory r.found
        allocate_memory r.found
        fields ←
            read_batches (read_field_batch convert) append_fields end
              (λ pos. dom.get_field_names_and_vals_batch n pos batch_nodes) size 0 size
        give (node type_json_object (Value.json_object fields)))

  -- the choice of `dpiJsonNode__fromOracleToNative`
  unfoldable pub read_node : dom.Handle → Action Node
  unfolding read_array read_object read_scalar
  read_node n =
      let type = dom.get_node_type n in
      if type == jzndom_array
      then read_array n
      else if type == jzndom_object
      then read_object n
      else if type == jzndom_scalar
      then read_scalar r (dom.get_scalar_info n)
      else lift (err unhandled_json_node_type)

-- `dpiJsonNode__fromOracleToNative`
unfoldable pub from_oracle : (dom : Dom) → Reader → ℕ → dom.Handle → Action Node
unfolding read_node
from_oracle dom r zero n = undefined
from_oracle dom r (suc fuel) n = read_node dom r (from_oracle dom r fuel) n
