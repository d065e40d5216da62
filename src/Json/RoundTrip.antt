-- ===== src/Json/RoundTrip.antt =====
-- The round trip of a tree through a document: `dpiJson__setValue` and then
-- `dpiJsonNode__fromOracleToNative` of odpi/src/dpiJson.c.
use godror.Base.{ℕ, ◌+◌, ◌≤◌, ◌≡◌, refl, ◌∙◌, true, false, some, Result, ok}
use godror.Json.Tree.{Node, Elements, Fields}
use godror.Json.Dom.{Dom, Doc, Docs, Members}
use godror.Json.Buffers.{Json, Action, ◌>>◌, allocate_memory}
use godror.Json.Scalars.{Reader, read_scalar}
use godror.Json.Read.{from_oracle}
use godror.Json.Native.{native, native_all, native_members, depth}
use godror.Json.Reads.{from_oracle-native}
use godror.Json.Write.{Builder, Encoders, Writing, set_root, set_value, to_oracle}
use godror.Json.Plain.{
  IsPlain, null_node, boolean_node, string_node, binary_node, vector_node, id_node, array_node,
  object_node, ArePlain, no_elements, more_elements, ArePlainFields, no_fields, more_fields,
  IsDocument,
}
use godror.Json.Represented.{Makes, makes, to_oracle-Makes}

module _ (r : Reader) (all_found : (n : ℕ) → r.found n ≡ true) where
  given :
      {A : Type 0} (m : Action A) (j : Json)
      → (allocate_memory r.found >> m) j ≡ m (record j { allocations = j.allocations + 1 })
  unfolding allocate_memory
  given m j = rw (all_found j.allocations) refl

  mutual
    unfolding native read_scalar

    native-plain :
        (t : Node) (d : Doc)
        → IsPlain r.use_json_id t d
        → (j : Json) → (k : Json) × (native r d j ≡ some (ok t, k))
    native-plain t d null_node j = (j, refl)
    native-plain t d (boolean_node true) j = (j, refl)
    native-plain t d (boolean_node false) j = (j, refl)
    native-plain t d (string_node b) j = (j, refl)
    native-plain t d (binary_node b) j = (j, refl)
    native-plain t d (vector_node b) j = (j, refl)
    native-plain t d (id_node b e) j = (j, rw e refl)
    native-plain t d (array_node es ds no_elements) j = (j, refl)
    native-plain t d (array_node es ds (more_elements t' d' es' ds' h hs)) j =
        let (k, e) =
          native_all-plain es ds (more_elements t' d' es' ds' h hs)
            (record j { allocations = j.allocations + 1 + 1 }) in
        (k, given _ j ∙ given _ _ ∙ rw e refl)
    native-plain t d (object_node fs ms distinct no_fields) j = (j, refl)
    native-plain t d (object_node fs ms distinct (more_fields name t' d' fs' ms' short h hs)) j =
        let (k, e) =
          native_members-plain fs ms (more_fields name t' d' fs' ms' short h hs)
            (record j { allocations = j.allocations + 1 + 1 + 1 + 1 }) in
        (k, given _ j ∙ given _ _ ∙ given _ _ ∙ given _ _ ∙ rw e refl)

    native_all-plain :
        (es : Elements) (ds : Docs)
        → ArePlain r.use_json_id es ds
        → (j : Json) → (k : Json) × (native_all r ds j ≡ some (ok es, k))
    native_all-plain es ds no_elements j = (j, refl)
    native_all-plain es ds (more_elements t d es' ds' h hs) j =
        let (k, e) = native-plain t d h j in
        let (l, e') = native_all-plain es' ds' hs k in (l, rw (e, e') refl)

    native_members-plain :
        (fs : Fields) (ms : Members)
        → ArePlainFields r.use_json_id fs ms
        → (j : Json) → (k : Json) × (native_members r ms j ≡ some (ok fs, k))
    native_members-plain fs ms no_fields j = (j, refl)
    native_members-plain fs ms (more_fields name t d fs' ms' short h hs) j =
        let (k, e) = native-plain t d h j in
        let (l, e') = native_members-plain fs' ms' hs k in (l, rw (e, e') refl)

module _ (dom : Dom) (b : Builder dom.Handle) (laws : IsDocument dom b) (enc : Encoders) where
  -- the root that was set, read
  read_root :
      (r : Reader) (t : Node) (d : Doc) (root : dom.Handle) (fuel : ℕ) (j : Json)
      (x : Result dom.Handle × Writing)
      → ((n : ℕ) → r.found n ≡ true)
      → IsPlain r.use_json_id t d
      → depth d ≤ fuel
      → Makes dom b laws enc d x
      → ((set_root root x).result ≡ ok tt)
        × ((k : Json) × (from_oracle dom r fuel (set_root root x).root j ≡ some (ok t, k)))
  read_root r t d root fuel j x all_found plain deep (makes h w rep) =
      let (k, e) = native-plain r all_found t d plain j in
      (refl, (k, from_oracle-native dom r d h fuel rep deep j ∙ e))

  -- A tree of texts, bytes, vectors, Booleans, nulls, arrays and objects is set in a document where the
  -- first three calls succeed, whatever was there before, and reading the root gives that tree, if
  -- the document does as documented, memory is found, and the calls may go as deep as the tree; where
  -- a JSON_ID is in it, the reader asks for these. The names of an object are distinct, with lengths
  -- below 65536.
  pub set_value-from_oracle :
      (r : Reader) (t : Node) (d : Doc) (zero_root root : dom.Handle) (w : Writing) (fuel : ℕ)
      (j : Json)
      → ((n : ℕ) → r.found n ≡ true)
      → IsPlain r.use_json_id t d
      → depth d ≤ fuel
      → let set = set_value (ok tt) (ok tt) (ok tt) zero_root b enc t root w in
        (set.result ≡ ok tt) × ((k : Json) × (from_oracle dom r fuel set.root j ≡ some (ok t, k)))
  unfolding set_value
  set_value-from_oracle r t d zero_root root w fuel j all_found plain deep =
      read_root r t d zero_root fuel j (to_oracle b enc t w) all_found plain deep
        (to_oracle-Makes dom b laws enc r.use_json_id t d w plain)
