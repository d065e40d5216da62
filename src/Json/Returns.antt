-- ===== src/Json/Returns.antt =====
-- Reading a finite document of odpi/src/dpiJson.c ends, within the memory.
use godror.Base.{
  ℕ, ◌/◌, ◌%◌, ◌≤◌, ◌≡◌, refl, Bool, true, false, Bool-cases, inl, inr, Option, some, List, ◌∷◌,
  ltb, length, Result, ok, err, Error, arith, if◌then◌else◌,
}
use godror.OracleTypes.Numbers.{
  type_number, type_date, type_timestamp, type_json_array, type_json_object,
}
use godror.Number.Proper.{IsProper}
use godror.Json.Tree
use godror.Json.Tree.{Node, node, Value, Scalar, Timestamp}
use godror.Json.Dom.{
  Dom, Doc, scalar, array, object, Docs, none_left, doc, Members, no_more, member, Represents,
}
use godror.Json.Buffers.{
  Encoding, Json, Action, then_with, ◌>>=◌, ◌>>◌, give, lift, allocate_memory, from_number_as_text,
}
use godror.Json.Scalars.{
  Reader, read_scalar, read_number, read_short_number, read_date, number_as_string, date_as_double,
}
use godror.Json.Read.{from_oracle}
use godror.Json.Native.{native, native_all, native_members, depth}
use godror.Json.Reads.{from_oracle-native}
use godror.Json.Texts.{
  IsSound, Extends, Extends-trans, Wrote, wrote, failed, from_number_as_text-Wrote,
}

-- A call that returned: where it succeeded the buffers are sound, and the buffers that were in use hold
-- what they held, whether it succeeded or not.
pub data Returned {A : Type 0} (j : Json) : Option (Result A × Json) → Type 0 where
  gave : (a : A) (j' : Json) → IsSound j' → Extends j j' → Returned j (some (ok a, j'))
  gave_up : (e : Error) (j' : Json) → Extends j j' → Returned j (some (err e, j'))

-- an action that returns from every sound state
abbrev pub Returns : {A : Type 0} → Action A → Type 0
Returns m = (j : Json) → IsSound j → Returned j (m j)

Extends-refl : (j : Json) → Extends j j
Extends-refl j = record { grown = omega arith; kept = λ i lt. refl }

Returns-give : {A : Type 0} (a : A) → Returns (give a)
Returns-give a j h = gave a j h (Extends-refl j)

Returns-lift : {A : Type 0} (r : Result A) → Returns (lift r)
Returns-lift (ok a) j h = gave a j h (Extends-refl j)
Returns-lift (err e) j h = gave_up e j (Extends-refl j)

later :
    {A : Type 0} (i j : Json) (x : Option (Result A × Json))
    → Extends i j
    → Returned j x
    → Returned i x
later i j x ext (gave a k sound more) = gave a k sound (Extends-trans ext more)
later i j x ext (gave_up e k more) = gave_up e k (Extends-trans ext more)

then_with-Returned :
    {A B : Type 0} (j : Json) (x : Option (Result A × Json)) (f : A → Action B)
    → Returned j x
    → ((a : A) → Returns (f a))
    → Returned j (then_with f x)
then_with-Returned j x f (gave a k sound ext) next = later j k _ ext (next a k sound)
then_with-Returned j x f (gave_up e k ext) next = gave_up e k ext

>>=-Returns :
    {A B : Type 0} (m : Action A) (f : A → Action B)
    → Returns m
    → ((a : A) → Returns (f a))
    → Returns (m >>= f)
>>=-Returns m f h next j sound = then_with-Returned j (m j) f (h j sound) next

allocate_memory-Returns : (found : ℕ → Bool) → Returns (allocate_memory found)
unfolding allocate_memory
allocate_memory-Returns found j h = elim (Bool-cases (found j.allocations)) [
  | inl there ↦ rw there (
      gave _ _ (record { unused = h.unused; sized = h.sized; within = h.within })
        (record { grown = omega arith; kept = λ i lt. refl }))
  | inr lacking ↦ rw lacking (gave_up _ _ (record { grown = omega arith; kept = λ i lt. refl }))
]

text-Returned :
    (encoding : Encoding) (value : List ℕ) (j : Json) (x : Option (Result _ × Json))
    → Wrote encoding value j x
    → Returned j x
text-Returned encoding value j x
      (wrote size cs t k sound ext one at start is_text holds converted) =
    gave t k sound ext
text-Returned encoding value j x (failed e k ext) = gave_up e k ext

if-Returns :
    {A : Type 0} (b : Bool) (m k : Action A) → Returns m → Returns k → Returns (if b then m else k)
if-Returns true m k h h' = h
if-Returns false m k h h' = h'

read_number-Returns :
    (r : Reader) (number : List ℕ) → IsProper number → Returns (read_number r number)
unfolding read_number
read_number-Returns r number proper =
    if-Returns (number_as_string r.options) _ _
      (>>=-Returns (from_number_as_text r.found r.encoding number)
        (λ text. give (node type_number (Value.bytes text.bytes)))
        (λ j h.
          text-Returned r.encoding number j _
            (from_number_as_text-Wrote r.encoding r.found number j proper h))
        (λ text. Returns-give _))
      (>>=-Returns (lift (r.doubles.number_as_double number))
        (λ d. give (node type_number (Value.double d))) (Returns-lift _) (λ d. Returns-give _))

read_date-Returns : (r : Reader) (type : ℕ) (t : Timestamp) → Returns (read_date r type t)
unfolding read_date
read_date-Returns r type t =
    if-Returns (date_as_double r.options) _ _
      (>>=-Returns (lift (r.doubles.date_as_double t))
        (λ d. give (node type (Value.double (r.doubles.add_to_double d (t.fsecond / 1000000)))))
        (Returns-lift _) (λ d. Returns-give _))
      (Returns-give _)

-- The mantissa bytes of a number stand for base-100 digits, and a number that comes without its length has
-- at most the 21 bytes of an OCINumber besides it.
unfoldable pub IsReadable : Scalar → Type 0
IsReadable (Scalar.number_val number) = IsProper number
IsReadable (Scalar.short_number_val number) =
    (length number ≤ 21) × IsProper ((length number % 256) ∷ number)
IsReadable s = Unit

read_scalar-Returns : (r : Reader) (s : Scalar) → IsReadable s → Returns (read_scalar r s)
unfolding read_scalar IsReadable read_short_number
read_scalar-Returns r (Scalar.string_val b) h = Returns-give _
read_scalar-Returns r (Scalar.binary_val b) h = Returns-give _
read_scalar-Returns r (Scalar.id_val b) h = Returns-give _
read_scalar-Returns r (Scalar.vector_val b) h = Returns-give _
read_scalar-Returns r (Scalar.float_val f) h = Returns-give _
read_scalar-Returns r (Scalar.double_val d) h = Returns-give _
read_scalar-Returns r (Scalar.number_val number) h = read_number-Returns r number h
read_scalar-Returns r (Scalar.short_number_val number) h =
    let fits : ltb 21 (length number) ≡ false = ground (arith, h.0) in
    rw fits (read_number-Returns r ((length number % 256) ∷ number) h.1)
read_scalar-Returns r (Scalar.date_val t) h = read_date-Returns r type_date t
read_scalar-Returns r (Scalar.timestamp_val t) h = read_date-Returns r type_timestamp t
read_scalar-Returns r (Scalar.timestamptz_val t) h = read_date-Returns r type_timestamp t
read_scalar-Returns r (Scalar.daysecond_val i) h = Returns-give _
read_scalar-Returns r (Scalar.yearmonth_val i) h = Returns-give _
read_scalar-Returns r Scalar.false_val h = Returns-give _
read_scalar-Returns r Scalar.true_val h = Returns-give _
read_scalar-Returns r Scalar.null_val h = Returns-give _
read_scalar-Returns r (Scalar.other_val n) h = Returns-lift _

-- every scalar of a document is
unfoldable mutual
  pub IsReadableDoc : Doc → Type 0
  IsReadableDoc (scalar s) = IsReadable s
  IsReadableDoc (array ds) = AreReadable ds
  IsReadableDoc (object ms) = AreReadableMembers ms

  pub AreReadable : Docs → Type 0
  AreReadable none_left = Unit
  AreReadable (doc d ds) = IsReadableDoc d × AreReadable ds

  pub AreReadableMembers : Members → Type 0
  AreReadableMembers no_more = Unit
  AreReadableMembers (member name d ms) = IsReadableDoc d × AreReadableMembers ms

module _ (r : Reader) where
  asked-Returns : {A : Type 0} (m : Action A) → Returns m → Returns (allocate_memory r.found >> m)
  asked-Returns m h =
      >>=-Returns (allocate_memory r.found) (λ u. m) (allocate_memory-Returns r.found) (λ u. h)

  wrapped-Returns :
      {A : Type 0} (m : Action A) (wrap : A → Node) → Returns m → Returns (m >>= λ a. give (wrap a))
  wrapped-Returns m wrap h = >>=-Returns m (λ a. give (wrap a)) h (λ a. Returns-give (wrap a))

  mutual
    unfolding native IsReadableDoc

    native-Returns : (d : Doc) → IsReadableDoc d → Returns (native r d)
    native-Returns (scalar s) h = read_scalar-Returns r s h
    native-Returns (array none_left) h = Returns-give _
    native-Returns (array (doc d ds)) h = asked-Returns _ (
        asked-Returns _ (
          wrapped-Returns (native_all r (doc d ds))
            (λ es. node type_json_array (Value.json_array es)) (native_all-Returns (doc d ds) h)))
    native-Returns (object no_more) h = Returns-give _
    native-Returns (object (member name d ms)) h = asked-Returns _ (
        asked-Returns _ (
          asked-Returns _ (
            asked-Returns _ (
              wrapped-Returns (native_members r (member name d ms))
                (λ fs. node type_json_object (Value.json_object fs))
                (native_members-Returns (member name d ms) h)))))

    native_all-Returns : (ds : Docs) → AreReadable ds → Returns (native_all r ds)
    native_all-Returns none_left h = Returns-give _
    native_all-Returns (doc d ds) h = >>=-Returns (native r d) _ (native-Returns d h.0) (λ n.
        >>=-Returns (native_all r ds) (λ ns. give (Tree.cons n ns)) (native_all-Returns ds h.1)
          (λ ns. Returns-give _))

    native_members-Returns : (ms : Members) → AreReadableMembers ms → Returns (native_members r ms)
    native_members-Returns no_more h = Returns-give _
    native_members-Returns (member name d ms) h =
        >>=-Returns (native r d) _ (native-Returns d h.0) (λ n.
          >>=-Returns (native_members r ms) (λ fs. give (Tree.field name n fs))
            (native_members-Returns ms h.1) (λ fs. Returns-give _))

-- Reading a node of a finite document, as deep as the calls may go or less deep, returns from every state with sound buffers, whatever memory is found and whatever conversions
-- fail, if the library gives the document in batches that are not empty and the mantissa bytes of its
-- numbers stand for base-100 digits: no access to memory is undefined, the buffers are sound again where
-- it succeeds, and no text of a number that was read before changes.
pub from_oracle-Returns :
    (dom : Dom) (r : Reader) (d : Doc) (n : dom.Handle) (fuel : ℕ)
    → Represents dom n d
    → depth d ≤ fuel
    → IsReadableDoc d
    → (j : Json) → IsSound j
    → Returned j (from_oracle dom r fuel n j)
from_oracle-Returns dom r d n fuel h le readable j sound =
    rw (from_oracle-native dom r d n fuel h le j) (native-Returns r d readable j sound)
