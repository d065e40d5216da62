-- ===== src/Json/Plain.antt =====
-- The trees that odpi/src/dpiJson.c reads as it wrote them, and what is documented of a document that is
-- built and then read.
use godror.Base.{
  ℕ, ◌<◌, ◌≡◌, ◌≢◌, Bool, true, Option, none, some, List, [], ◌∷◌, ◌++◌, All, length, take,
  if◌then◌else◌,
}
use godror.OracleTypes.Numbers.{
  type_none, type_varchar, type_raw, type_json_id, type_boolean, type_vector, type_json_array,
  type_json_object,
}
use godror.Json.Tree.{
  Node, node, null, boolean, bytes, json_array, json_object, Elements, nil, cons, Fields, end,
  field, Scalar,
}
use godror.Json.Dom.{
  Dom, Doc, scalar, array, object, Docs, none_left, doc, Members, no_more, member, jzndom_scalar,
  jzndom_array, jzndom_object, batch_nodes, IsBatched,
}
use godror.Json.Write.{
  Builder, NewScalar, new_binary, new_id, new_string, new_vector, new_true, new_false, new_null,
  new_double, new_float,
}

abbrev pub names : Fields → List (List ℕ)
names end = []
names (field name n fs) = name ∷ names fs

abbrev pub AreDistinct : List (List ℕ) → Type 0
AreDistinct [] = Unit
AreDistinct (name ∷ others) = All (λ other. name ≢ other) others × AreDistinct others

-- Trees of texts, bytes, vectors, Booleans, nulls, arrays and objects, each with the document that it
-- stands for. A JSON_ID counts only where the reader asks for it. The names of an object are distinct, and
-- their lengths fit in a `uint16_t`.
mutual
  pub data IsPlain (use_json_id : Bool) : Node → Doc → Type 0 where
    null_node : IsPlain use_json_id (node type_none null) (scalar Scalar.null_val)
    boolean_node :
        (b : Bool)
        → IsPlain use_json_id
            (node type_boolean (boolean b))
            (scalar (if b then Scalar.true_val else Scalar.false_val))
    string_node :
        (b : List ℕ)
        → IsPlain use_json_id (node type_varchar (bytes b)) (scalar (Scalar.string_val b))
    binary_node :
        (b : List ℕ) → IsPlain use_json_id (node type_raw (bytes b)) (scalar (Scalar.binary_val b))
    vector_node :
        (b : List ℕ)
        → IsPlain use_json_id (node type_vector (bytes b)) (scalar (Scalar.vector_val b))
    id_node :
        (b : List ℕ)
        → use_json_id ≡ true
        → IsPlain use_json_id (node type_json_id (bytes b)) (scalar (Scalar.id_val b))
    array_node :
        (es : Elements) (ds : Docs)
        → ArePlain use_json_id es ds
        → IsPlain use_json_id (node type_json_array (json_array es)) (array ds)
    object_node :
        (fs : Fields) (ms : Members)
        → AreDistinct (names fs)
        → ArePlainFields use_json_id fs ms
        → IsPlain use_json_id (node type_json_object (json_object fs)) (object ms)

  pub data ArePlain (use_json_id : Bool) : Elements → Docs → Type 0 where
    no_elements : ArePlain use_json_id nil none_left
    more_elements :
        (t : Node) (d : Doc) (es : Elements) (ds : Docs)
        → IsPlain use_json_id t d
        → ArePlain use_json_id es ds
        → ArePlain use_json_id (cons t es) (doc d ds)

  pub data ArePlainFields (use_json_id : Bool) : Fields → Members → Type 0 where
    no_fields : ArePlainFields use_json_id end no_more
    more_fields :
        (name : List ℕ) (t : Node) (d : Doc) (fs : Fields) (ms : Members)
        → length name < 65536
        → IsPlain use_json_id t d
        → ArePlainFields use_json_id fs ms
        → ArePlainFields use_json_id (field name t fs) (member name d ms)

-- What is told of a scalar that was made. Those of the other kinds are stored in formats of the library.
abbrev pub kept : NewScalar → Option Scalar
kept (new_binary b) = some (Scalar.binary_val b)
kept (new_id b) = some (Scalar.id_val b)
kept (new_string b) = some (Scalar.string_val b)
kept (new_vector b) = some (Scalar.vector_val b)
kept (new_double d) = some (Scalar.double_val d)
kept (new_float f) = some (Scalar.float_val f)
kept new_true = some Scalar.true_val
kept new_false = some Scalar.false_val
kept new_null = some Scalar.null_val
kept other = none

-- The library's documents: a node that was made has the type that it was made with, a scalar gives its
-- value, an array the items appended in order, and an object its fields in the order in which new
-- names came.
pub record IsDocument (dom : Dom) (b : Builder dom.Handle) : Type 0 where
  pub items : dom.Handle → List dom.Handle
  pub members : dom.Handle → List (List ℕ × dom.Handle)
  pub scalar_type : (s : NewScalar) → dom.get_node_type (b.new_scalar_val s) ≡ jzndom_scalar
  pub scalar_info :
      (s : NewScalar) (k : Scalar) → kept s ≡ some k → dom.get_scalar_info (b.new_scalar_val s) ≡ k
  pub array_type : (n : ℕ) → dom.get_node_type (b.new_array n) ≡ jzndom_array
  pub array_items : (n : ℕ) → items (b.new_array n) ≡ []
  pub append_type :
      (a c : dom.Handle)
      → dom.get_node_type a ≡ jzndom_array
      → dom.get_node_type (b.append_item a c) ≡ jzndom_array
  pub append_items :
      (a c : dom.Handle)
      → dom.get_node_type a ≡ jzndom_array
      → items (b.append_item a c) ≡ items a ++ (c ∷ [])
  pub array_size :
      (a : dom.Handle)
      → dom.get_node_type a ≡ jzndom_array
      → dom.get_array_size a ≡ length (items a)
  pub array_batches :
      (a : dom.Handle)
      → dom.get_node_type a ≡ jzndom_array
      → IsBatched (items a) (λ pos. dom.get_array_elem_batch a pos batch_nodes)
  pub object_type : (n : ℕ) → dom.get_node_type (b.new_object n) ≡ jzndom_object
  pub object_members : (n : ℕ) → members (b.new_object n) ≡ []
  pub put_type :
      (o c : dom.Handle) (name : List ℕ) (n : ℕ)
      → dom.get_node_type o ≡ jzndom_object
      → dom.get_node_type (b.put_field_value o name n c) ≡ jzndom_object
  pub put_members :
      (o c : dom.Handle) (name : List ℕ) (n : ℕ)
      → dom.get_node_type o ≡ jzndom_object
      → All (λ m. m.0 ≢ take n name) (members o)
      → members (b.put_field_value o name n c) ≡ members o ++ ((take n name, c) ∷ [])
  pub object_size :
      (o : dom.Handle)
      → dom.get_node_type o ≡ jzndom_object
      → dom.get_num_obj_field o ≡ length (members o)
  pub object_batches :
      (o : dom.Handle)
      → dom.get_node_type o ≡ jzndom_object
      → IsBatched (members o) (λ pos. dom.get_field_names_and_vals_batch o pos batch_nodes)
