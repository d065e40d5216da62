-- ===== src/Json/Represented.antt =====
-- What odpi/src/dpiJson.c writes to a document is read from it again.
use godror.Base.{
  ℕ, ◌%◌, ◌≡◌, ◌≢◌, refl, sym, ap, ap₂, ◌∙◌, subst, Bool, true, false, some, List, [], ◌∷◌, ◌++◌,
  append_assoc, append-nil, All, All-append, length, take, take_all, Result, ok, arith,
}
use godror.Json.Tree.{Node, Elements, Fields, Scalar}
use godror.Json.Dom.{
  Dom, Doc, scalar, array, object, Docs, doc, Members, member, Represents, RepresentsAll,
  RepresentsMembers, IsBatched, batch_nodes, jzndom_array, jzndom_object,
}
use godror.Json.Write.{
  Builder, Encoders, Writing, NewScalar, with_child, to_oracle, write_elements, write_fields,
}
use godror.Json.Plain.{
  IsPlain, null_node, boolean_node, string_node, binary_node, vector_node, id_node, array_node,
  object_node, ArePlain, no_elements, more_elements, ArePlainFields, no_fields, more_fields, names,
  AreDistinct, IsDocument, kept,
}

module _ (dom : Dom) (b : Builder dom.Handle) (laws : IsDocument dom b) (enc : Encoders) where
  open laws use {
    items, members, scalar_type, scalar_info, array_type, array_items, append_type, append_items,
    array_size, array_batches, object_type, object_members, put_type, put_members, object_size,
    object_batches,
  }

  -- a call that makes a node for a document
  pub data Makes (d : Doc) : Result dom.Handle × Writing → Type 0 where
    makes : (h : dom.Handle) (w : Writing) → Represents dom h d → Makes d (ok h, w)

  -- a call that puts more items in an array
  data Fills (done : List dom.Handle) (ds : Docs) : Result dom.Handle × Writing → Type 0 where
    fills :
        (a : dom.Handle) (w : Writing) (hs : List dom.Handle)
        → dom.get_node_type a ≡ jzndom_array
        → items a ≡ done ++ hs
        → RepresentsAll dom hs ds
        → Fills done ds (ok a, w)

  data Puts (done : List (List ℕ × dom.Handle)) (ms : Members)
      : Result dom.Handle × Writing → Type 0 where
    puts :
        (o : dom.Handle) (w : Writing) (hs : List (List ℕ × dom.Handle))
        → dom.get_node_type o ≡ jzndom_object
        → members o ≡ done ++ hs
        → RepresentsMembers dom hs ms
        → Puts done ms (ok o, w)

  made_scalar :
      (s : NewScalar) (k : Scalar) (w : Writing)
      → kept s ≡ some k
      → Makes (scalar k) (ok (b.new_scalar_val s), w)
  unfolding Represents
  made_scalar s k w e = makes (b.new_scalar_val s) w (scalar_type s, scalar_info s k e)

  array_of : (ds : Docs) (x : Result dom.Handle × Writing) → Fills [] ds x → Makes (array ds) x
  unfolding Represents
  array_of ds x (fills a w hs type all reps) = makes a w (
    hs,
    type,
    array_size a type ∙ ap length all,
    subst (λ (l : List dom.Handle). IsBatched l (λ pos. dom.get_array_elem_batch a pos batch_nodes))
        all (array_batches a type),
    reps,
  )

  object_of : (ms : Members) (x : Result dom.Handle × Writing) → Puts [] ms x → Makes (object ms) x
  unfolding Represents
  object_of ms x (puts o w hs type all reps) = makes o w (
    hs,
    type,
    object_size o type ∙ ap length all,
    subst
        (λ (l : List (List ℕ × dom.Handle)).
          IsBatched l (λ pos. dom.get_field_names_and_vals_batch o pos batch_nodes))
        all (object_batches o type),
    reps,
  )

  one_more :
      (c : dom.Handle) (d : Doc) (ds : Docs) (done : List dom.Handle)
      (x : Result dom.Handle × Writing)
      → Represents dom c d
      → Fills (done ++ (c ∷ [])) ds x
      → Fills done (doc d ds) x
  unfolding Represents
  one_more c d ds done x rep (fills a w hs type all reps) =
      fills a w (c ∷ hs) type (all ∙ append_assoc done (c ∷ []) hs) (rep, reps)

  one_field :
      (name : List ℕ) (c : dom.Handle) (d : Doc) (ms : Members) (done : List (List ℕ × dom.Handle))
      (x : Result dom.Handle × Writing)
      → Represents dom c d
      → Puts (done ++ ((name, c) ∷ [])) ms x
      → Puts done (member name d ms) x
  unfolding Represents
  one_field name c d ms done x rep (puts o w hs type all reps) =
      puts o w ((name, c) ∷ hs) type (all ∙ append_assoc done ((name, c) ∷ []) hs) (refl, rep, reps)

  after_made :
      (P : Result dom.Handle × Writing → Type 0) (d : Doc)
      (next : dom.Handle → Writing → Result dom.Handle × Writing) (x : Result dom.Handle × Writing)
      → Makes d x
      → ((c : dom.Handle) (w : Writing) → Represents dom c d → P (next c w))
      → P (with_child b next x)
  after_made P d next x (makes c w rep) step = step c _ rep

  -- the names that are still to come are not among those of the fields
  abbrev AreNew : List (List ℕ × dom.Handle) → List (List ℕ) → Type 0
  AreNew done ns = All (λ name. All (λ m. m.0 ≢ name) done) ns

  AreNew-append :
      (done : List (List ℕ × dom.Handle)) (name : List ℕ) (c : dom.Handle) (ns : List (List ℕ))
      → AreNew done ns
      → All (λ other. name ≢ other) ns
      → AreNew (done ++ ((name, c) ∷ [])) ns
  AreNew-append done name c [] h k = tt
  AreNew-append done name c (n ∷ ns) h k = (
    All-append (λ m. m.0 ≢ n) done ((name, c) ∷ []) h.0 (k.0, tt),
    AreNew-append done name c ns h.1 k.1,
  )

  AreNew-nil : (ns : List (List ℕ)) → AreNew [] ns
  AreNew-nil [] = tt
  AreNew-nil (n ∷ ns) = (tt, AreNew-nil ns)

  put_named :
      (o c : dom.Handle) (name : List ℕ) (n : ℕ) (done : List (List ℕ × dom.Handle))
      → take n name ≡ name
      → All (λ m. m.0 ≢ name) done
      → dom.get_node_type o ≡ jzndom_object
      → members o ≡ done
      → members (b.put_field_value o name n c) ≡ done ++ ((name, c) ∷ [])
  put_named o c name n done cut new type all =
      let fresh : All (λ m. m.0 ≢ take n name) (members o) = rw (all, cut) new in
      put_members o c name n type fresh
      ∙ ap₂ (λ (l : List (List ℕ × dom.Handle)) (k : List ℕ). l ++ ((k, c) ∷ [])) all cut

  module _ (id : Bool) where
    mutual
      unfolding to_oracle Represents

      pub to_oracle-Makes :
          (t : Node) (d : Doc) (w : Writing) → IsPlain id t d → Makes d (to_oracle b enc t w)
      to_oracle-Makes t d w null_node = made_scalar _ _ _ refl
      to_oracle-Makes t d w (boolean_node true) = made_scalar _ _ _ refl
      to_oracle-Makes t d w (boolean_node false) = made_scalar _ _ _ refl
      to_oracle-Makes t d w (string_node s) = made_scalar _ _ _ refl
      to_oracle-Makes t d w (binary_node s) = made_scalar _ _ _ refl
      to_oracle-Makes t d w (vector_node s) = made_scalar _ _ _ refl
      to_oracle-Makes t d w (id_node s e) = made_scalar _ _ _ refl
      to_oracle-Makes t d w (array_node es ds h) =
          array_of ds _ (write_elements-Fills es ds _ [] _ h (array_type _) (array_items _))
      to_oracle-Makes t d w (object_node fs ms distinct h) = object_of ms _ (
          write_fields-Puts fs ms _ [] _ h distinct (AreNew-nil (names fs)) (object_type _)
            (object_members _))

      write_elements-Fills :
          (es : Elements) (ds : Docs) (a : dom.Handle) (done : List dom.Handle) (w : Writing)
          → ArePlain id es ds
          → dom.get_node_type a ≡ jzndom_array
          → items a ≡ done
          → Fills done ds (write_elements b enc a es w)
      write_elements-Fills es ds a done w no_elements type all =
          fills a w [] type (all ∙ sym (append-nil done)) tt
      write_elements-Fills es ds a done w (more_elements t d ts ds' h hs) type all =
          after_made (Fills done (doc d ds')) d (λ c. write_elements b enc (b.append_item a c) ts)
            (to_oracle b enc t w) (to_oracle-Makes t d w h)
            (λ c k rep. one_more c d ds' done _ rep (
              write_elements-Fills ts ds' (b.append_item a c) (done ++ (c ∷ [])) k hs
                (append_type a c type)
                (append_items a c type ∙ ap (λ (l : List dom.Handle). l ++ (c ∷ [])) all)))

      write_fields-Puts :
          (fs : Fields) (ms : Members) (o : dom.Handle) (done : List (List ℕ × dom.Handle))
          (w : Writing)
          → ArePlainFields id fs ms
          → AreDistinct (names fs)
          → AreNew done (names fs)
          → dom.get_node_type o ≡ jzndom_object
          → members o ≡ done
          → Puts done ms (write_fields b enc o fs w)
      write_fields-Puts fs ms o done w no_fields distinct new type all =
          puts o w [] type (all ∙ sym (append-nil done)) tt
      write_fields-Puts fs ms o done w (more_fields name t d fs' ms' short h hs) distinct new type
            all =
          let cut : take (length name % 65536) name ≡ name =
            let fits : length name % 65536 ≡ length name = omega arith in rw fits (take_all name) in
          after_made (Puts done (member name d ms')) d
            (λ c. write_fields b enc (b.put_field_value o name (length name % 65536) c) fs')
            (to_oracle b enc t w) (to_oracle-Makes t d w h)
            (λ c k rep. one_field name c d ms' done _ rep (
              write_fields-Puts fs' ms' (b.put_field_value o name (length name % 65536) c)
                (done ++ ((name, c) ∷ [])) k hs distinct.1
                (AreNew-append done name c (names fs') new.1 distinct.0)
                (put_type o c name (length name % 65536) type)
                (put_named o c name (length name % 65536) done cut new.0 type all)))
