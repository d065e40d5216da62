-- ===== src/Json/Write.antt =====
-- `dpiJsonNode__toOracleFromNative` of odpi/src/dpiJson.c with the functions for arrays and objects, and
-- `dpiJson__setValue`. The library's part of a document is a parameter, and so are the
-- conversions that are calls of the library. A node of the document is its value: the document changes
-- only by the call that gives the changed node.
use godror.Base.{
  ℕ, suc, ◌+◌, ◌-◌, ◌%◌, ℤ, Bool, true, List, ◌==◌, if◌then◌else◌, length, Result, ok, err,
  unhandled_conversion_to_json,
}
use godror.OracleTypes.Numbers.{
  type_none, type_varchar, type_raw, type_json_id, type_number, type_native_double,
  type_native_float, type_date, type_timestamp, type_interval_ds, type_interval_ym, type_boolean,
  type_vector, type_json_array, type_json_object,
}
use godror.Number.Parse.{Charset}
use godror.Number.Oracle.{to_oracle_number_from_text}
use godror.Json.Tree.{
  Node, node, Value, null, boolean, bytes, float, double, int64, uint64, timestamp, interval_ds,
  interval_ym, json_array, json_object, other, Elements, nil, cons, Fields, end, field, Timestamp,
  IntervalDs, IntervalYm,
}

-- dpiOciDate
pub record OciDate : Type 0 where
  pub year : ℤ
  pub month : ℕ
  pub day : ℕ
  pub hour : ℕ
  pub minute : ℕ
  pub second : ℕ

-- The types that `fnNewScalarVal` is called with, and the values. A descriptor is what it was set to.
pub data NewScalar : Type 0 where
  oci_number : List ℕ → NewScalar
  new_double new_float : ℕ → NewScalar
  new_binary new_id new_string new_vector : List ℕ → NewScalar
  oci_date : OciDate → NewScalar
  oci_datetime : Timestamp → NewScalar
  oci_interval_ds : IntervalDs → NewScalar
  oci_interval_ym : IntervalYm → NewScalar
  new_true new_false new_null : NewScalar

-- The `methods` of a document that writing calls.
pub record Builder (H : Type 0) : Type 0 where
  pub new_scalar_val : NewScalar → H
  pub new_array : ℕ → H
  pub append_item : H → H → H
  pub new_object : ℕ → H
  -- the object, the name with its length, and the value
  pub put_field_value : H → List ℕ → ℕ → H → H

-- The character set of the environment, whether the descriptors can be allocated, and the conversions
-- of odpi/src/dpiData.c that the library makes.
pub record Encoders : Type 0 where
  pub charset : Charset
  pub alloc_timestamp : Result (Unit {0})
  pub alloc_interval_ds : Result (Unit {0})
  pub alloc_interval_ym : Result (Unit {0})
  pub number_from_double : ℕ → Result (List ℕ)
  pub number_from_integer : ℤ → Result (List ℕ)
  pub number_from_unsigned_integer : ℕ → Result (List ℕ)
  pub date_from_double : ℕ → Result OciDate
  pub to_timestamp : Timestamp → Result Timestamp
  pub timestamp_from_double : ℕ → Result Timestamp
  pub to_interval_ds : IntervalDs → Result IntervalDs
  pub to_interval_ym : IntervalYm → Result IntervalYm

-- Whether `convTimestamp`, `convIntervalDS` and `convIntervalYM` are there, and how many nodes were made
-- that are neither freed nor in an array or an object.
pub record Writing : Type 0 where
  pub conv_timestamp : Bool
  pub conv_interval_ds : Bool
  pub conv_interval_ym : Bool
  pub loose : ℕ

abbrev pub Write : Type 0 → Type 0
Write A = Writing → Result A × Writing

-- what follows a call that does not fail
abbrev pub write_with : {A B : Type 0} → (A → Write B) → Result A × Writing → Result B × Writing
write_with next (err e, w) = (err e, w)
write_with next (ok a, w) = next a w

-- `dpiOci__descriptorAlloc` for the type of a value, where there is no descriptor yet
unfoldable pub prepare : Encoders → ℕ → Write (Unit {0})
prepare enc type w =
    if type == type_timestamp
    then (if w.conv_timestamp
        then (ok tt, w)
        else write_with (λ u k. (ok tt, record k { conv_timestamp = true }))
            (enc.alloc_timestamp, w))
    else if type == type_interval_ds
    then (if w.conv_interval_ds
        then (ok tt, w)
        else write_with (λ u k. (ok tt, record k { conv_interval_ds = true }))
            (enc.alloc_interval_ds, w))
    else if type == type_interval_ym
    then (if w.conv_interval_ym
        then (ok tt, w)
        else write_with (λ u k. (ok tt, record k { conv_interval_ym = true }))
            (enc.alloc_interval_ym, w))
    else (ok tt, w)

abbrev pub converted : {A : Type 0} → Result A → (A → NewScalar) → Result NewScalar
converted (err e) f = err e
converted (ok a) f = ok (f a)

-- `dpiDataBuffer__toOracleDate`
abbrev pub to_oracle_date : Timestamp → OciDate
to_oracle_date t = record {
  year = t.year;
  month = t.month;
  day = t.day;
  hour = t.hour;
  minute = t.minute;
  second = t.second;
}

abbrev pub unhandled : Result NewScalar
unhandled = err unhandled_conversion_to_json

-- bytes, by the number of the Oracle type
unfoldable pub new_bytes : Encoders → ℕ → List ℕ → Result NewScalar
unfolding to_oracle_number_from_text
new_bytes enc type b =
    if type == type_number
    then converted (to_oracle_number_from_text enc.charset b) oci_number
    else if type == type_raw
    then ok (new_binary b)
    else if type == type_json_id
    then ok (new_id b)
    else if type == type_varchar
    then ok (new_string b)
    else if type == type_vector
    then ok (new_vector b)
    else unhandled

unfoldable pub new_of_double : Encoders → ℕ → ℕ → Result NewScalar
new_of_double enc type d =
    if type == type_number
    then converted (enc.number_from_double d) oci_number
    else if type == type_native_double
    then ok (new_double d)
    else if type == type_date
    then converted (enc.date_from_double d) oci_date
    else if type == type_timestamp
    then converted (enc.timestamp_from_double d) oci_datetime
    else unhandled

-- The scalar that is made for a value, by the number of the Oracle type: the cases of the switch that
-- are not arrays or objects.
unfoldable pub new_scalar : Encoders → ℕ → Value → Result NewScalar
unfolding new_bytes new_of_double
new_scalar enc type null = if type == type_none then ok new_null else unhandled
new_scalar enc type (boolean b) =
    if type == type_boolean then ok (if b then new_true else new_false) else unhandled
new_scalar enc type (bytes b) = new_bytes enc type b
new_scalar enc type (float f) = if type == type_native_float then ok (new_float f) else unhandled
new_scalar enc type (double d) = new_of_double enc type d
new_scalar enc type (int64 n) =
    if type == type_number then converted (enc.number_from_integer n) oci_number else unhandled
new_scalar enc type (uint64 n) =
    if type == type_number
    then converted (enc.number_from_unsigned_integer n) oci_number
    else unhandled
new_scalar enc type (timestamp t) =
    if type == type_date
    then ok (oci_date (to_oracle_date t))
    else if type == type_timestamp
    then converted (enc.to_timestamp t) oci_datetime
    else unhandled
new_scalar enc type (interval_ds i) =
    if type == type_interval_ds then converted (enc.to_interval_ds i) oci_interval_ds else unhandled
new_scalar enc type (interval_ym i) =
    if type == type_interval_ym then converted (enc.to_interval_ym i) oci_interval_ym else unhandled
new_scalar enc type (json_array es) = unhandled
new_scalar enc type (json_object fs) = unhandled
new_scalar enc type (other n) = unhandled

module _ {H : Type 0} (b : Builder H) where
  -- a call that makes a node
  abbrev pub make : H → Write H
  make h w = (ok h, record w { loose = w.loose + 1 })

  -- a child that failed, for which the parent is freed, or one that is put into the parent
  abbrev pub with_child : (H → Write H) → Result H × Writing → Result H × Writing
  with_child next (err e, w) = (err e, record w { loose = w.loose - 1 })
  with_child next (ok child, w) = next child (record w { loose = w.loose - 1 })

  unfoldable pub write_scalar : Result NewScalar → Write H
  write_scalar (err e) w = (err e, w)
  write_scalar (ok s) w = make (b.new_scalar_val s) w

abbrev pub count_elements : Elements → ℕ
count_elements nil = 0
count_elements (cons n ns) = suc (count_elements ns)

abbrev pub count_fields : Fields → ℕ
count_fields end = 0
count_fields (field name n fs) = suc (count_fields fs)

unfoldable mutual
  unfolding prepare new_scalar write_scalar

  -- `dpiJsonNode__toOracleFromNative`
  pub to_oracle : {H : Type 0} → Builder H → Encoders → Node → Write H
  to_oracle b enc (node type value) w =
      write_with (λ u. write_value b enc type value) (prepare enc type w)

  pub write_value : {H : Type 0} → Builder H → Encoders → ℕ → Value → Write H
  -- `dpiJsonNode__toOracleArrayFromNative`
  write_value b enc type (json_array es) w =
      if type == type_json_array
      then write_with (λ array. write_elements b enc array es)
          (make b (b.new_array (count_elements es)) w)
      else (err unhandled_conversion_to_json, w)
  -- `dpiJsonNode__toOracleObjectFromNative`
  write_value b enc type (json_object fs) w =
      if type == type_json_object
      then write_with (λ object. write_fields b enc object fs)
          (make b (b.new_object (count_fields fs)) w)
      else (err unhandled_conversion_to_json, w)
  write_value b enc type value w = write_scalar b (new_scalar enc type value) w

  pub write_elements : {H : Type 0} → Builder H → Encoders → H → Elements → Write H
  write_elements b enc array nil w = (ok array, w)
  write_elements b enc array (cons n ns) w =
      with_child b (λ child. write_elements b enc (b.append_item array child) ns)
        (to_oracle b enc n w)

  -- the length of a name is passed as a `uint16_t`
  pub write_fields : {H : Type 0} → Builder H → Encoders → H → Fields → Write H
  write_fields b enc object end w = (ok object, w)
  write_fields b enc object (field name n fs) w =
      with_child b
        (λ child. write_fields b enc (b.put_field_value object name (length name % 65536) child) fs)
        (to_oracle b enc n w)

-- What is left of a call of `dpiJson__setValue`: the result, and the root node of the document.
pub record SetValue (H : Type 0) : Type 0 where
  pub result : Result (Unit {0})
  pub root : H
  pub writing : Writing

-- the root set to the node that was made, or left where the conversion failed
abbrev pub set_root : {H : Type 0} → H → Result H × Writing → SetValue H
set_root root (err e, w) = record { result = err e; root = root; writing = w }
set_root root (ok made, w) = record { result = ok tt; root = made; writing = w }

-- `dpiJson__setValue`, given what the calls return that make the descriptor mutable, that parse the
-- text `0` and that get the document, and the root that the text has
unfoldable pub set_value :
    {H : Type 0}
    → Result (Unit {0})
    → Result (Unit {0})
    → Result (Unit {0})
    → H
    → Builder H
    → Encoders
    → Node
    → H
    → Writing
    → SetValue H
unfolding to_oracle
set_value (err e) parsed got zero_root b enc n root w = record {
  result = err e;
  root = root;
  writing = w;
}
set_value (ok u) (err e) got zero_root b enc n root w = record {
  result = err e;
  root = root;
  writing = w;
}
set_value (ok u) (ok v) (err e) zero_root b enc n root w = record {
  result = err e;
  root = zero_root;
  writing = w;
}
set_value (ok u) (ok v) (ok d) zero_root b enc n root w = set_root zero_root (to_oracle b enc n w)
