-- ===== src/Json/Documents.antt =====
-- A document that does as the library documents, whose nodes are the trees that they stand for: it shows
-- that the hypotheses on documents can hold.
use godror.Base.{
  ℕ, zero, suc, ◌≡◌, refl, ap, some, List, [], ◌∷◌, ◌++◌, length, length-take, take, drop, arith,
}
use godror.Json.Tree.{Scalar}
use godror.Json.Dom.{
  Dom, Doc, scalar, array, object, Docs, none_left, doc, Members, no_more, member, IsBatched,
}
use godror.Json.Batches.{length-drop}
use godror.Json.Write.{
  Builder, NewScalar, new_binary, new_id, new_string, new_vector, new_true, new_false, new_double,
  new_float, oci_number,
}
use godror.Json.Plain.{IsDocument, kept}

unfoldable pub docs_list : Docs → List Doc
docs_list none_left = []
docs_list (doc d ds) = d ∷ docs_list ds

unfoldable pub members_list : Members → List (List ℕ × Doc)
members_list no_more = []
members_list (member name d ms) = (name, d) ∷ members_list ms

unfoldable pub put_last : Docs → Doc → Docs
put_last none_left c = doc c none_left
put_last (doc d ds) c = doc d (put_last ds c)

unfoldable pub put_member : Members → List ℕ → Doc → Members
put_member no_more name c = member name c no_more
put_member (member other d ms) name c = member other d (put_member ms name c)

unfoldable pub node_type : Doc → ℕ
node_type (scalar s) = 1
node_type (object ms) = 2
node_type (array ds) = 3

unfoldable pub info : Doc → Scalar
info (scalar s) = s
info other = Scalar.null_val

unfoldable pub items : Doc → List Doc
unfolding docs_list
items (array ds) = docs_list ds
items other = []

unfoldable pub fields : Doc → List (List ℕ × Doc)
unfolding members_list
fields (object ms) = members_list ms
fields other = []

unfoldable pub append : Doc → Doc → Doc
unfolding put_last
append (array ds) c = array (put_last ds c)
append other c = other

unfoldable pub put : Doc → List ℕ → ℕ → Doc → Doc
unfolding put_member
put (object ms) name n c = object (put_member ms (take n name) c)
put other name n c = other

-- the scalars whose formats are the library's own are made null here
unfoldable pub stored : NewScalar → Scalar
stored (new_binary b) = Scalar.binary_val b
stored (new_id b) = Scalar.id_val b
stored (new_string b) = Scalar.string_val b
stored (new_vector b) = Scalar.vector_val b
stored (new_double d) = Scalar.double_val d
stored (new_float f) = Scalar.float_val f
stored (oci_number b) = Scalar.number_val b
stored new_true = Scalar.true_val
stored new_false = Scalar.false_val
stored other = Scalar.null_val

abbrev pub tree_dom : Dom
tree_dom = record {
  Handle = Doc;
  get_node_type = node_type;
  get_scalar_info = info;
  get_array_size = λ d. length (items d);
  get_array_elem_batch = λ d pos n. take n (drop pos (items d));
  get_num_obj_field = λ d. length (fields d);
  get_field_names_and_vals_batch = λ d pos n. take n (drop pos (fields d));
}

abbrev pub tree_builder : Builder Doc
tree_builder = record {
  new_scalar_val = λ s. scalar (stored s);
  new_array = λ n. array none_left;
  append_item = append;
  new_object = λ n. object no_more;
  put_field_value = put;
}

take-drop {ℓ} : {A : Type ℓ} (n : ℕ) (xs : List A) → xs ≡ take n xs ++ drop n xs
take-drop zero xs = refl
take-drop (suc n) [] = refl
take-drop (suc n) (x ∷ xs) = ap (λ r. x ∷ r) (take-drop n xs)

pub take-IsBatched {ℓ} : {A : Type ℓ} (xs : List A) → IsBatched xs (λ pos. take 64 (drop pos xs))
take-IsBatched xs pos h = (
  drop 64 (drop pos xs),
  omega (arith, length-take 64 (drop pos xs), length-drop pos xs),
  omega (arith, length-take 64 (drop pos xs)),
  take-drop 64 (drop pos xs),
)

docs_list-put_last : (ds : Docs) (c : Doc) → docs_list (put_last ds c) ≡ docs_list ds ++ (c ∷ [])
unfolding docs_list put_last
docs_list-put_last none_left c = refl
docs_list-put_last (doc d ds) c = ap (λ r. d ∷ r) (docs_list-put_last ds c)

members_list-put_member :
    (ms : Members) (name : List ℕ) (c : Doc)
    → members_list (put_member ms name c) ≡ members_list ms ++ ((name, c) ∷ [])
unfolding members_list put_member
members_list-put_member no_more name c = refl
members_list-put_member (member other d ms) name c =
    ap (λ (r : List (List ℕ × Doc)). (other, d) ∷ r) (members_list-put_member ms name c)

stored-kept : (s : NewScalar) (k : Scalar) → kept s ≡ some k → stored s ≡ k
unfolding stored
stored-kept (new_binary b) k h = cc
stored-kept s k h = ground arith

node_type-append : (a c : Doc) → node_type a ≡ 3 → node_type (append a c) ≡ 3
unfolding node_type append
node_type-append (scalar s) c h = h
node_type-append (object ms) c h = h
node_type-append (array ds) c h = refl

items-append : (a c : Doc) → node_type a ≡ 3 → items (append a c) ≡ items a ++ (c ∷ [])
unfolding node_type append items
items-append (scalar s) c h = absurd (omega arith)
items-append (object ms) c h = absurd (omega arith)
items-append (array ds) c h = docs_list-put_last ds c

node_type-put :
    (o c : Doc) (name : List ℕ) (n : ℕ) → node_type o ≡ 2 → node_type (put o name n c) ≡ 2
unfolding node_type put
node_type-put (scalar s) c name n h = h
node_type-put (object ms) c name n h = refl
node_type-put (array ds) c name n h = h

fields-put :
    (o c : Doc) (name : List ℕ) (n : ℕ)
    → node_type o ≡ 2
    → fields (put o name n c) ≡ fields o ++ ((take n name, c) ∷ [])
unfolding node_type put fields
fields-put (scalar s) c name n h = absurd (omega arith)
fields-put (object ms) c name n h = members_list-put_member ms (take n name) c
fields-put (array ds) c name n h = absurd (omega arith)

pub tree_dom-IsDocument : IsDocument tree_dom tree_builder
unfolding node_type info items fields
tree_dom-IsDocument = record {
  items = items;
  members = fields;
  scalar_type = λ s. refl;
  scalar_info = stored-kept;
  array_type = λ n. refl;
  array_items = λ n. refl;
  append_type = node_type-append;
  append_items = items-append;
  array_size = λ a h. refl;
  array_batches = λ a h. take-IsBatched (items a);
  object_type = λ n. refl;
  object_members = λ n. refl;
  put_type = node_type-put;
  put_members = λ o c name n h fresh. fields-put o c name n h;
  object_size = λ o h. refl;
  object_batches = λ o h. take-IsBatched (fields o);
}
