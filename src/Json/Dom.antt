-- ===== src/Json/Dom.antt =====
-- A document of the Oracle client library, `dpiJznDomDoc` of odpi/src/dpiImpl.h, as far as
-- odpi/src/dpiJson.c reads it. The functions behind it are not in the repository: they are parameters,
-- with what the library documents of them as hypotheses.
use godror.Base.{ℕ, ◌<◌, ◌≡◌, List, [], ◌∷◌, length, ◌≤◌, ◌++◌, drop}
use godror.Json.Tree.{Scalar}

-- The `methods` of a document that reading calls. A node is what its pointer stands for.
pub record Dom : Type 1 where
  pub Handle : Type 0
  pub get_node_type : Handle → ℕ
  pub get_scalar_info : Handle → Scalar
  pub get_array_size : Handle → ℕ
  -- from a position on, at most so many
  pub get_array_elem_batch : Handle → ℕ → ℕ → List Handle
  pub get_num_obj_field : Handle → ℕ
  pub get_field_names_and_vals_batch : Handle → ℕ → ℕ → List (List ℕ × Handle)

-- DPI_JZNDOM_SCALAR, DPI_JZNDOM_OBJECT and DPI_JZNDOM_ARRAY
abbrev pub jzndom_scalar : ℕ
jzndom_scalar = 1

abbrev pub jzndom_object : ℕ
jzndom_object = 2

abbrev pub jzndom_array : ℕ
jzndom_array = 3

-- DPI_JSON_BATCH_NODES
abbrev pub batch_nodes : ℕ
batch_nodes = 64

-- What the document says: a finite tree.
mutual
  pub data Doc : Type 0 where
    scalar : Scalar → Doc
    array : Docs → Doc
    object : Members → Doc

  pub data Docs : Type 0 where
    none_left : Docs
    doc : Doc → Docs → Docs

  pub data Members : Type 0 where
    no_more : Members
    member : List ℕ → Doc → Members → Members

-- A batch has at least one of the items that are left, from the position on, and at most 64.
abbrev pub IsBatched {ℓ} : {A : Type ℓ} → List A → (ℕ → List A) → Type ℓ
IsBatched {A} items batch =
    (pos : ℕ)
    → pos < length items
    → (back : List A) × (0 < length (batch pos))
      × (length (batch pos) ≤ batch_nodes)
      × (drop pos items ≡ batch pos ++ back)

-- What a node of the document stands for, where the library reads the document as it is.
unfoldable mutual
  pub Represents : (dom : Dom) → dom.Handle → Doc → Type 0
  Represents dom n (scalar s) = (dom.get_node_type n ≡ jzndom_scalar) × (dom.get_scalar_info n ≡ s)
  Represents dom n (array ds) =
      (items : List dom.Handle) × (dom.get_node_type n ≡ jzndom_array)
      × (dom.get_array_size n ≡ length items)
      × IsBatched items (λ pos. dom.get_array_elem_batch n pos batch_nodes)
      × RepresentsAll dom items ds
  Represents dom n (object ms) =
      (items : List (List ℕ × dom.Handle)) × (dom.get_node_type n ≡ jzndom_object)
      × (dom.get_num_obj_field n ≡ length items)
      × IsBatched items (λ pos. dom.get_field_names_and_vals_batch n pos batch_nodes)
      × RepresentsMembers dom items ms

  pub RepresentsAll : (dom : Dom) → List dom.Handle → Docs → Type 0
  RepresentsAll dom [] none_left = Unit
  RepresentsAll dom [] (doc d ds) = ⊥
  RepresentsAll dom (n ∷ ns) none_left = ⊥
  RepresentsAll dom (n ∷ ns) (doc d ds) = Represents dom n d × RepresentsAll dom ns ds

  pub RepresentsMembers : (dom : Dom) → List (List ℕ × dom.Handle) → Members → Type 0
  RepresentsMembers dom [] no_more = Unit
  RepresentsMembers dom [] (member name d ms) = ⊥
  RepresentsMembers dom (i ∷ is) no_more = ⊥
  RepresentsMembers dom (i ∷ is) (member name d ms) =
      (i.0 ≡ name) × Represents dom i.1 d × RepresentsMembers dom is ms
