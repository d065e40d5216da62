-- ===== src/Json/Native.antt =====
-- What reading a document of odpi/src/dpiJson.c is to give: the values of its scalars, each converted in
-- the order of the document, with the memory for the nodes of an array or an object asked for first.
use godror.Base.{ℕ, suc}
use Prim.Native.Nat.{max}
use godror.OracleTypes.Numbers.{type_json_array, type_json_object}
use godror.Json.Tree.{Node, node, Value, Elements, nil, cons, Fields, end, field}
use godror.Json.Dom.{Doc, scalar, array, object, Docs, none_left, doc, Members, no_more, member}
use godror.Json.Buffers.{Action, ◌>>=◌, ◌>>◌, give, allocate_memory}
use godror.Json.Scalars.{Reader, read_scalar}

unfoldable mutual
  pub native : Reader → Doc → Action Node
  native r (scalar s) = read_scalar r s
  native r (array none_left) = give (node type_json_array (Value.json_array nil))
  native r (array (doc d ds)) = do
    allocate_memory r.found
    allocate_memory r.found
    elements ← native_all r (doc d ds)
    give (node type_json_array (Value.json_array elements))
  native r (object no_more) = give (node type_json_object (Value.json_object end))
  native r (object (member name d ms)) = do
    allocate_memory r.found
    allocate_memory r.found
    allocate_memory r.found
    allocate_memory r.found
    fields ← native_members r (member name d ms)
    give (node type_json_object (Value.json_object fields))

  pub native_all : Reader → Docs → Action Elements
  native_all r none_left = give nil
  native_all r (doc d ds) = do n ← native r d; ns ← native_all r ds; give (cons n ns)

  pub native_members : Reader → Members → Action Fields
  native_members r no_more = give end
  native_members r (member name d ms) = do
    n ← native r d
    fs ← native_members r ms
    give (field name n fs)

-- how deep a document is nested
unfoldable mutual
  pub depth : Doc → ℕ
  depth (scalar s) = 1
  depth (array ds) = suc (depth_all ds)
  depth (object ms) = suc (depth_members ms)

  pub depth_all : Docs → ℕ
  depth_all none_left = 0
  depth_all (doc d ds) = max (depth d) (depth_all ds)

  pub depth_members : Members → ℕ
  depth_members no_more = 0
  depth_members (member name d ms) = max (depth d) (depth_members ms)
