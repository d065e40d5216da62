-- ===== src/Json/Tests.antt =====
-- Runs of odpi/src/dpiJson.c on the document of Json.Documents: an object with an array, a text and a
-- Boolean, and an array with a number.
use godror.Base.{
  ℕ, ◌+◌, ◌≡◌, ◌≢◌, refl, Bool, true, false, none, some, List, [], ◌∷◌, ok, err, oci, no_memory,
  unhandled_conversion_to_json, arith,
}
use godror.OracleTypes.Numbers.{
  type_none, type_varchar, type_boolean, type_json_array, type_json_object,
}
use godror.Number.Parse.{single_byte}
use godror.Json.Tree.{Node, node, Value, Scalar, nil, cons, end, field}
use godror.Json.Dom.{Doc, scalar, array, object, none_left, doc, no_more, member, Represents}
use godror.Json.Buffers.{Encoding, one_byte, two_bytes, Json, from_number_as_text}
use godror.Json.Scalars.{Reader, Doubles}
use godror.Json.Read.{from_oracle}
use godror.Json.Native.{native, depth}
use godror.Json.Reads.{from_oracle-native}
use godror.Json.Texts.{IsSound, Wrote, from_number_as_text-Wrote}
use godror.Json.Returns.{Returned, IsReadable, IsReadableDoc, from_oracle-Returns}
use godror.Json.Write.{Encoders, Writing, to_oracle, set_value}
use godror.Json.Balance.{IsBalanced, to_oracle-IsBalanced}
use godror.Json.Plain.{
  IsPlain, null_node, boolean_node, string_node, array_node, object_node, no_elements,
  more_elements, no_fields, more_fields,
}
use godror.Json.RoundTrip.{set_value-from_oracle}
use godror.Json.Faults.{number_as_text_faults}
use godror.Json.Documents.{
  tree_dom, tree_builder, tree_dom-IsDocument, take-IsBatched, node_type, info, items,
}

abbrev plenty : ℕ → Bool
plenty n = true

abbrev scarce : ℕ → Bool
scarce n = false

abbrev doubles : Doubles
doubles = record {
  number_as_double = λ b. err oci;
  date_as_double = λ t. err oci;
  add_to_double = λ d n. d + n;
}

abbrev reader : Reader
reader = record {
  found = plenty;
  encoding = one_byte;
  doubles = doubles;
  use_json_id = true;
  options = 1;
}

abbrev fresh : Json
fresh = record {
  temp_buffers = [];
  allocated_temp_buffers = 0;
  num_temp_buffers = 0;
  temp_buffer_used = 0;
  allocations = 0;
}

fresh-IsSound : IsSound fresh
fresh-IsSound = record { unused = refl; sized = refl; within = omega arith }

abbrev encoders : Encoders
encoders = record {
  charset = single_byte;
  alloc_timestamp = err oci;
  alloc_interval_ds = err oci;
  alloc_interval_ym = err oci;
  number_from_double = λ d. err oci;
  number_from_integer = λ n. err oci;
  number_from_unsigned_integer = λ n. err oci;
  date_from_double = λ d. err oci;
  to_timestamp = λ t. err oci;
  timestamp_from_double = λ d. err oci;
  to_interval_ds = λ i. err oci;
  to_interval_ym = λ i. err oci;
}

abbrev idle : Writing
idle = record {
  conv_timestamp = false;
  conv_interval_ds = false;
  conv_interval_ym = false;
  loose = 0;
}

-- {"a": ["x", null], "b": true}
abbrev sample : Node
sample = node type_json_object (
    Value.json_object (
      field (b'a' ∷ [])
        (node type_json_array (
          Value.json_array (
            cons (node type_varchar (Value.bytes (b'x' ∷ [])))
              (cons (node type_none Value.null) nil))))
        (field (b'b' ∷ []) (node type_boolean (Value.boolean true)) end)))

abbrev sample_doc : Doc
sample_doc = object (
    member (b'a' ∷ [])
      (array
        (doc (scalar (Scalar.string_val (b'x' ∷ []))) (doc (scalar Scalar.null_val) none_left)))
      (member (b'b' ∷ []) (scalar Scalar.true_val) no_more))

abbrev name_a : List ℕ
name_a = b'a' ∷ []

abbrev name_b : List ℕ
name_b = b'b' ∷ []

a-ne-b : name_a ≢ name_b
a-ne-b e = ground arith

sample-IsPlain : IsPlain true sample sample_doc
sample-IsPlain =
    object_node _ _ ((a-ne-b, tt), (tt, tt))
      (more_fields _ _ _ _ _ (omega arith)
        (array_node _ _
          (more_elements _ _ _ _ (string_node _) (more_elements _ _ _ _ null_node no_elements)))
        (more_fields _ _ _ _ _ (omega arith) (boolean_node true) no_fields))

depth_sample : depth sample_doc ≡ 3
unfolding depth
depth_sample = refl

set_value-from_oracle_example :
    let set =
      set_value (ok tt) (ok tt) (ok tt) sample_doc tree_builder encoders sample sample_doc idle in
    (set.result ≡ ok tt)
    × ((k : Json) × (from_oracle tree_dom reader 3 set.root fresh ≡ some (ok sample, k)))
set_value-from_oracle_example =
    set_value-from_oracle tree_dom tree_builder tree_dom-IsDocument encoders reader sample
      sample_doc sample_doc sample_doc idle 3 fresh (λ n. refl) sample-IsPlain
      (omega (arith, depth_sample))

-- [5]
abbrev five : List ℕ
five = 2 ∷ 193 ∷ 6 ∷ []

abbrev five_doc : Doc
five_doc = array (doc (scalar (Scalar.number_val five)) none_left)

five-Represents : Represents tree_dom five_doc five_doc
unfolding Represents node_type info items
five-Represents =
    (scalar (Scalar.number_val five) ∷ [], refl, refl, take-IsBatched _, ((refl, refl), tt))

depth_five : depth five_doc ≡ 2
unfolding depth
depth_five = refl

five-IsReadable : IsReadableDoc five_doc
unfolding IsReadableDoc IsReadable
five-IsReadable = (refl, tt)

from_oracle-native_example :
    from_oracle tree_dom reader 2 five_doc fresh ≡ native reader five_doc fresh
from_oracle-native_example =
    from_oracle-native tree_dom reader five_doc five_doc 2 five-Represents
      (omega (arith, depth_five)) fresh

from_oracle-Returns_example : Returned fresh (from_oracle tree_dom reader 2 five_doc fresh)
from_oracle-Returns_example =
    from_oracle-Returns tree_dom reader five_doc five_doc 2 five-Represents
      (omega (arith, depth_five)) five-IsReadable fresh fresh-IsSound

abbrev utf16_le : Encoding
utf16_le = two_bytes (λ c. (c, 0))

from_number_as_text-Wrote_example :
    Wrote utf16_le five fresh (from_number_as_text plenty utf16_le five fresh)
from_number_as_text-Wrote_example =
    from_number_as_text-Wrote utf16_le plenty five fresh refl fresh-IsSound

-- ["x", a number of no type]
abbrev unwritable : Node
unwritable = node type_json_array (
    Value.json_array (
      cons (node type_varchar (Value.bytes (b'x' ∷ [])))
        (cons (node type_none (Value.double 0)) nil)))

to_oracle-IsBalanced_example : IsBalanced 0 (to_oracle tree_builder encoders unwritable idle)
to_oracle-IsBalanced_example = to_oracle-IsBalanced tree_builder encoders unwritable idle

unwritable_frees :
    to_oracle tree_builder encoders unwritable idle ≡ (err unhandled_conversion_to_json, idle)
unfolding to_oracle
unwritable_frees = refl

number_as_text_faults_example :
    (k : Json) × (from_number_as_text scarce one_byte five fresh ≡ some (err no_memory, k))
    × (from_number_as_text plenty one_byte five k ≡ none)
number_as_text_faults_example =
    number_as_text_faults scarce plenty one_byte five five fresh fresh-IsSound refl refl

seven-Represents : Represents tree_dom (scalar (Scalar.float_val 7)) (scalar (Scalar.float_val 7))
unfolding Represents node_type info
seven-Represents = (refl, refl)
