-- ===== src/Json/Balance.antt =====
-- The nodes that odpi/src/dpiJson.c makes in a document are attached or freed.
use godror.Base.{
  ℕ, ◌+◌, ◌≡◌, refl, Bool, true, false, ◌==◌, if◌then◌else◌, Result, ok, err, Error, arith, length,
  ◌%◌,
}
use godror.OracleTypes.Numbers.{type_json_array, type_json_object}
use godror.Json.Tree.{
  Node, node, Value, null, boolean, bytes, float, double, int64, uint64, timestamp, interval_ds,
  interval_ym, json_array, json_object, other, Elements, nil, cons, Fields, end, field,
}
use godror.Json.Write.{
  Builder, Encoders, Writing, NewScalar, prepare, new_scalar, write_scalar, write_with, with_child,
  to_oracle, write_value, write_elements, write_fields,
}

-- One more loose node where the call succeeds, and as many as before where it fails.
pub data IsBalanced {H : Type 0} (n : ℕ) : Result H × Writing → Type 0 where
  made : (h : H) (w : Writing) → w.loose ≡ n + 1 → IsBalanced n (ok h, w)
  failed : (e : Error) (w : Writing) → w.loose ≡ n → IsBalanced n (err e, w)

prepare-loose : (enc : Encoders) (type : ℕ) (w : Writing) → (prepare enc type w).1.loose ≡ w.loose
unfolding prepare
prepare-loose enc type w = ground arith

module _ {H : Type 0} (b : Builder H) (enc : Encoders) where
  write_scalar-IsBalanced :
      (s : Result NewScalar) (n : ℕ) (w : Writing) → w.loose ≡ n → IsBalanced n (write_scalar b s w)
  unfolding write_scalar
  write_scalar-IsBalanced (err e) n w h = failed e w h
  write_scalar-IsBalanced (ok s) n w h = made _ _ (omega arith)

  after_prepare :
      (n : ℕ) (f : Unit {0} → Writing → Result H × Writing) (x : Result (Unit {0}) × Writing)
      → x.1.loose ≡ n
      → ((w : Writing) → w.loose ≡ n → IsBalanced n (f tt w))
      → IsBalanced n (write_with f x)
  after_prepare n f (err e, w) h next = failed e w h
  after_prepare n f (ok u, w) h next = next w h

  after_child :
      (n : ℕ) (f : H → Writing → Result H × Writing) (x : Result H × Writing)
      → IsBalanced (n + 1) x
      → ((c : H) (w : Writing) → w.loose ≡ n + 1 → IsBalanced n (f c w))
      → IsBalanced n (with_child b f x)
  after_child n f x (made c w h) next = next c _ (omega arith)
  after_child n f x (failed e w h) next = failed e _ (omega arith)

  if-IsBalanced :
      (t : Bool) (n : ℕ) (x y : Result H × Writing)
      → IsBalanced n x
      → IsBalanced n y
      → IsBalanced n (if t then x else y)
  if-IsBalanced true n x y h k = h
  if-IsBalanced false n x y h k = k

  mutual
    unfolding to_oracle

    to_oracle-balanced :
        (t : Node) (n : ℕ) (w : Writing) → w.loose ≡ n → IsBalanced n (to_oracle b enc t w)
    to_oracle-balanced (node type value) n w h =
        after_prepare n (λ u. write_value b enc type value) (prepare enc type w)
          (omega (arith, prepare-loose enc type w)) (write_value-balanced type value n)

    write_value-balanced :
        (type : ℕ) (v : Value) (n : ℕ) (w : Writing)
        → w.loose ≡ n
        → IsBalanced n (write_value b enc type v w)
    write_value-balanced type (json_array es) n w h =
        if-IsBalanced (type == type_json_array) n _ _
          (write_elements-balanced es _ n _ (omega arith)) (failed _ w h)
    write_value-balanced type (json_object fs) n w h =
        if-IsBalanced (type == type_json_object) n _ _
          (write_fields-balanced fs _ n _ (omega arith)) (failed _ w h)
    write_value-balanced type null n w h = write_scalar-IsBalanced (new_scalar enc type null) n w h
    write_value-balanced type (boolean x) n w h =
        write_scalar-IsBalanced (new_scalar enc type (boolean x)) n w h
    write_value-balanced type (bytes x) n w h =
        write_scalar-IsBalanced (new_scalar enc type (bytes x)) n w h
    write_value-balanced type (float x) n w h =
        write_scalar-IsBalanced (new_scalar enc type (float x)) n w h
    write_value-balanced type (double x) n w h =
        write_scalar-IsBalanced (new_scalar enc type (double x)) n w h
    write_value-balanced type (int64 x) n w h =
        write_scalar-IsBalanced (new_scalar enc type (int64 x)) n w h
    write_value-balanced type (uint64 x) n w h =
        write_scalar-IsBalanced (new_scalar enc type (uint64 x)) n w h
    write_value-balanced type (timestamp x) n w h =
        write_scalar-IsBalanced (new_scalar enc type (timestamp x)) n w h
    write_value-balanced type (interval_ds x) n w h =
        write_scalar-IsBalanced (new_scalar enc type (interval_ds x)) n w h
    write_value-balanced type (interval_ym x) n w h =
        write_scalar-IsBalanced (new_scalar enc type (interval_ym x)) n w h
    write_value-balanced type (other x) n w h =
        write_scalar-IsBalanced (new_scalar enc type (other x)) n w h

    write_elements-balanced :
        (es : Elements) (array : H) (n : ℕ) (w : Writing)
        → w.loose ≡ n + 1
        → IsBalanced n (write_elements b enc array es w)
    write_elements-balanced nil array n w h = made array w h
    write_elements-balanced (cons t ts) array n w h =
        after_child n (λ child. write_elements b enc (b.append_item array child) ts)
          (to_oracle b enc t w) (to_oracle-balanced t (n + 1) w h)
          (λ child k e. write_elements-balanced ts (b.append_item array child) n k e)

    write_fields-balanced :
        (fs : Fields) (object : H) (n : ℕ) (w : Writing)
        → w.loose ≡ n + 1
        → IsBalanced n (write_fields b enc object fs w)
    write_fields-balanced end object n w h = made object w h
    write_fields-balanced (field name t fs) object n w h =
        after_child n
          (λ child.
            write_fields b enc (b.put_field_value object name (length name % 65536) child) fs)
          (to_oracle b enc t w) (to_oracle-balanced t (n + 1) w h)
          (λ child k e.
            write_fields-balanced fs (b.put_field_value object name (length name % 65536) child) n k
              e)

-- Whatever a tree is and wherever writing it fails, every node that was made in the document is
-- freed or in an array or an object that is, but for the one that a call that succeeds returns.
pub to_oracle-IsBalanced :
    {H : Type 0} (b : Builder H) (enc : Encoders) (t : Node) (w : Writing)
    → IsBalanced w.loose (to_oracle b enc t w)
to_oracle-IsBalanced b enc t w = to_oracle-balanced b enc t w.loose w refl
