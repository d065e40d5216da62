-- ===== src/Json/Reads.antt =====
-- Reading a document of odpi/src/dpiJson.c in batches gives what Json.Native says of it.
use godror.Base.{
  ℕ, zero, suc, ◌<◌, ◌≤◌, ◌≡◌, refl, ap, ◌∙◌, ◌==◌, false, List, [], ◌∷◌, length, arith,
}
use mathlib.Core.Path.{fun_ext}
use godror.OracleTypes.Numbers.{type_json_array, type_json_object}
use godror.Json.Tree
use godror.Json.Tree.{Node, Elements, Fields, node, json_array, json_object, nil, end}
use godror.Json.Dom.{
  Dom, Doc, scalar, array, object, Docs, none_left, doc, Members, no_more, member, Represents,
  RepresentsAll, RepresentsMembers,
}
use godror.Json.Buffers.{Json, Action, ◌>>=◌, ◌>>◌, give, allocate_memory}
use godror.Json.Scalars.{Reader}
use godror.Json.Read.{
  append_elements, append_fields, read_batch, read_field_batch, read_node, from_oracle,
}
use godror.Json.Native.{native, native_all, native_members, depth, depth_all, depth_members}
use godror.Json.Batches.{
  then_with_cong, read_batches_lem, read_batch-append, read_field_batch-append,
}

depth_pos : (d : Doc) → 0 < depth d
unfolding depth
depth_pos (scalar s) = omega arith
depth_pos (array ds) = omega arith
depth_pos (object ms) = omega arith

module _ (dom : Dom) (r : Reader) (convert : dom.Handle → Action Node) where
  read_node-array :
      (ds : Docs) (n : dom.Handle)
      → Represents dom n (array ds)
      → ((ns : List dom.Handle)
          → RepresentsAll dom ns ds
          → (j : Json) → read_batch convert ns j ≡ native_all r ds j)
      → (j : Json) → read_node dom r convert n j ≡ native r (array ds) j
  unfolding read_node Represents native
  read_node-array none_left n ([], type, size, batched, all) ih j = rw (type, size) refl
  read_node-array none_left n (i ∷ is, type, size, batched, all) ih j = absurd all
  read_node-array (doc d ds) n ([], type, size, batched, all) ih j = absurd all
  read_node-array (doc d ds) n (i ∷ is, type, size, batched, all) ih j =
      let some_items : (suc (length is) == 0) ≡ false = ground arith in
      rw (type, size, some_items)
        (ap
          (λ (a : Action Elements).
            (allocate_memory r.found
                >> (allocate_memory r.found
                    >> (a >>= λ es. give (node type_json_array (json_array es)))))
              j)
          (fun_ext (λ j'.
            read_batches_lem (read_batch convert) append_elements nil (λ j''. refl)
              (read_batch-append convert) (i ∷ is) _ batched (suc (length is)) 0 (suc (length is))
              (omega arith) (omega arith) j'
            ∙ ih (i ∷ is) all j')))

  read_node-object :
      (ms : Members) (n : dom.Handle)
      → Represents dom n (object ms)
      → ((ns : List (List ℕ × dom.Handle))
          → RepresentsMembers dom ns ms
          → (j : Json) → read_field_batch convert ns j ≡ native_members r ms j)
      → (j : Json) → read_node dom r convert n j ≡ native r (object ms) j
  unfolding read_node Represents native
  read_node-object no_more n ([], type, size, batched, all) ih j = rw (type, size) refl
  read_node-object no_more n (i ∷ is, type, size, batched, all) ih j = absurd all
  read_node-object (member name d ms) n ([], type, size, batched, all) ih j = absurd all
  read_node-object (member name d ms) n (i ∷ is, type, size, batched, all) ih j =
      let some_items : (suc (length is) == 0) ≡ false = ground arith in
      rw (type, size, some_items)
        (ap
          (λ (a : Action Fields).
            (allocate_memory r.found
                >> (allocate_memory r.found
                    >> (allocate_memory r.found
                        >> (allocate_memory r.found
                            >> (a >>= λ fs. give (node type_json_object (json_object fs)))))))
              j)
          (fun_ext (λ j'.
            read_batches_lem (read_field_batch convert) append_fields end (λ j''. refl)
              (read_field_batch-append convert) (i ∷ is) _ batched (suc (length is)) 0
              (suc (length is)) (omega arith) (omega arith) j'
            ∙ ih (i ∷ is) all j')))

module _ (dom : Dom) (r : Reader) where
  mutual
    unfolding Represents depth native from_oracle read_batch read_field_batch

    node-native :
        (d : Doc) (n : dom.Handle) (fuel : ℕ)
        → Represents dom n d
        → depth d ≤ fuel
        → (j : Json) → from_oracle dom r fuel n j ≡ native r d j
    node-native d n zero h le j = absurd (omega (arith, depth_pos d))
    node-native (scalar s) n (suc fuel) h le j = rw (h.0, h.1) refl
    node-native (array ds) n (suc fuel) h le j =
        read_node-array dom r (from_oracle dom r fuel) ds n h
          (λ ns all j'. read_batch-native ds ns fuel all (omega arith) j') j
    node-native (object ms) n (suc fuel) h le j =
        read_node-object dom r (from_oracle dom r fuel) ms n h
          (λ ns all j'. read_field_batch-native ms ns fuel all (omega arith) j') j

    read_batch-native :
        (ds : Docs) (ns : List dom.Handle) (fuel : ℕ)
        → RepresentsAll dom ns ds
        → depth_all ds ≤ fuel
        → (j : Json) → read_batch (from_oracle dom r fuel) ns j ≡ native_all r ds j
    read_batch-native none_left [] fuel h le j = refl
    read_batch-native none_left (n ∷ ns) fuel h le j = absurd h
    read_batch-native (doc d ds) [] fuel h le j = absurd h
    read_batch-native (doc d ds) (n ∷ ns) fuel h le j =
        then_with_cong _ _ _ _ (node-native d n fuel h.0 (omega arith) j) (λ a j'.
          then_with_cong _ _ _ _ (read_batch-native ds ns fuel h.1 (omega arith) j')
            (λ b j''. refl))

    read_field_batch-native :
        (ms : Members) (ns : List (List ℕ × dom.Handle)) (fuel : ℕ)
        → RepresentsMembers dom ns ms
        → depth_members ms ≤ fuel
        → (j : Json) → read_field_batch (from_oracle dom r fuel) ns j ≡ native_members r ms j
    read_field_batch-native no_more [] fuel h le j = refl
    read_field_batch-native no_more (i ∷ is) fuel h le j = absurd h
    read_field_batch-native (member name d ms) [] fuel h le j = absurd h
    read_field_batch-native (member name d ms) ((name', n) ∷ is) fuel h le j =
        then_with_cong _ _ _ _ (node-native d n fuel h.1 (omega arith) j) (λ a j'.
          then_with_cong _ _ _ _ (read_field_batch-native ms is fuel h.2 (omega arith) j')
            (λ b j''. ap (λ (l : List ℕ). give (Tree.field l a b) j'') h.0))

-- Reading a node that stands for a finite document, in batches as the library gives them, is what the
-- document says item by item, in every state: the same values or the same error, the same requests for
-- memory and the same texts of numbers. The calls may go as deep as the document is.
pub from_oracle-native :
    (dom : Dom) (r : Reader) (d : Doc) (n : dom.Handle) (fuel : ℕ)
    → Represents dom n d
    → depth d ≤ fuel
    → (j : Json) → from_oracle dom r fuel n j ≡ native r d j
from_oracle-native dom r d n fuel h le j = node-native dom r d n fuel h le j
