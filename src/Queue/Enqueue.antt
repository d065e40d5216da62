-- ===== src/Queue/Enqueue.antt =====
-- `dpiQueue__enq` of odpi/src/dpiQueue.c from the buffer on, which has been allocated. What the server and
-- the library do is a parameter.
use godror.Base.{
  ◌>>◌, ◌++◌, ℕ, ◌≡◌, ◌≢◌, refl, true, false, inl, inr, Option, none, some, List, [], ◌∷◌, Result,
  ok, err, Error, ◌>>=◌, Result-cases, arith,
}
use godror.Queue.Messages.{MsgProps, Object, Kind, Entry, check_payload, enq_entry}

-- The calls for a payload's TDO and OCIAQEnq and OCIAQEnqArray, which give the identifiers of the messages.
pub record Sender (C : Type 0) : Type 0 where
  pub get_payload_tdo : C → Result (Unit {0}) × C
  pub aq_enq : C → Entry → Result (Option ℕ) × C
  pub aq_enq_array : C → List Entry → Result (List (Option ℕ)) × C

-- the loop that fills the arrays
unfoldable pub fill_entries : Kind → List MsgProps → Result (List Entry)
unfolding check_payload enq_entry
fill_entries k [] = ok []
fill_entries k (p ∷ ps) = do check_payload k p; es ← fill_entries k ps; ok (enq_entry k p ∷ es)

-- the identifiers transferred to the message properties; an identifier that is not given is left
abbrev pub set_ids : List MsgProps → List (Option ℕ) → List MsgProps
set_ids [] ids = []
set_ids (p ∷ ps) [] = p ∷ ps
set_ids (p ∷ ps) (i ∷ ids) = record p { msg_id_raw = i } ∷ set_ids ps ids

abbrev pub sent :
    {C : Type 0} → List MsgProps → Result (List (Option ℕ)) × C → Result (List MsgProps) × C
sent ps (err e, c) = (err e, c)
sent ps (ok ids, c) = (ok (set_ids ps ids), c)

abbrev pub sent_one :
    {C : Type 0} → List MsgProps → Result (Option ℕ) × C → Result (List MsgProps) × C
sent_one ps (err e, c) = (err e, c)
sent_one ps (ok i, c) = (ok (set_ids ps (i ∷ [])), c)

-- one message is sent by OCIAQEnq, more by OCIAQEnqArray
unfoldable pub send :
    {C : Type 0} → Sender C → List MsgProps → List Entry → C → Result (List MsgProps) × C
send s ps [] c = sent ps (s.aq_enq_array c [])
send s ps (e ∷ []) c = sent_one ps (s.aq_enq c e)
send s ps (e ∷ f ∷ es) c = sent ps (s.aq_enq_array c (e ∷ f ∷ es))

abbrev pub after_type :
    {C : Type 0}
    → Sender C
    → List MsgProps
    → List Entry
    → Result (Unit {0}) × C
    → Result (List MsgProps) × C
after_type s ps es (err e, c) = (err e, c)
after_type s ps es (ok u, c) = send s ps es c

-- `dpiQueue__enq`: the messages with their identifiers, or an error
unfoldable pub enq : {C : Type 0} → Sender C → Kind → List MsgProps → C → Result (List MsgProps) × C
unfolding fill_entries send
enq s k [] c = (ok [], c)
enq s k (p ∷ ps) c = elim (fill_entries k (p ∷ ps)) [
  | err e ↦ (err e, c)
  | ok es ↦ after_type s (p ∷ ps) es (s.get_payload_tdo c)
]

-- A message fits a queue: it has the payload that the queue takes, and an object is of the type.
pub data Fits (k : Kind) (p : MsgProps) : ℕ → Type 0 where
  object_fits :
      (t : ℕ) (o : Object)
      → k.is_json ≡ false
      → k.payload_type ≡ some t
      → p.payload_obj ≡ some o
      → o.tdo ≡ t
      → Fits k p o.instance_handle
  json_fits :
      (h : ℕ) → k.payload_type ≡ none → k.is_json ≡ true → p.payload_json ≡ some h → Fits k p h
  raw_fits :
      (h : ℕ)
      → k.payload_type ≡ none
      → k.is_json ≡ false
      → p.payload_raw ≡ some h
      → p.payload_json ≡ none
      → Fits k p h

-- the messages with the payloads that they are to be sent with
pub data AllFit (k : Kind) : List MsgProps → List Entry → Type 0 where
  none_fit : AllFit k [] []
  more_fit :
      (p : MsgProps) (h : ℕ) (ps : List MsgProps) (es : List Entry)
      → Fits k p h
      → AllFit k ps es
      → AllFit k
          (p ∷ ps)
          (record { handle = p.handle; payload = some h; msg_id = p.msg_id_raw } ∷ es)

-- A message does not fit a queue: it lacks the payload that the queue takes, or is of another type.
pub data Unfit (k : Kind) (p : MsgProps) : Type 0 where
  no_object : (t : ℕ) → k.payload_type ≡ some t → p.payload_obj ≡ none → Unfit k p
  other_type :
      (t : ℕ) (o : Object)
      → k.payload_type ≡ some t
      → p.payload_obj ≡ some o
      → o.tdo ≢ t
      → Unfit k p
  no_json : k.payload_type ≡ none → k.is_json ≡ true → p.payload_json ≡ none → Unfit k p
  no_raw : k.payload_type ≡ none → k.is_json ≡ false → p.payload_raw ≡ none → Unfit k p

Unfit-passes : (k : Kind) (p : MsgProps) (u : Unit {0}) → Unfit k p → check_payload k p ≡ ok u → ⊥
unfolding check_payload
Unfit-passes k p u (no_object t type lacks) h = ground arith
Unfit-passes k p u (other_type t o type there differ) h = ground arith
Unfit-passes k p u (no_json type json lacks) h = ground arith
Unfit-passes k p u (no_raw type raw lacks) h = ground arith

check-Unfit : (k : Kind) (p : MsgProps) → Unfit k p → (e : Error) × (check_payload k p ≡ err e)
check-Unfit k p unfit = elim (Result-cases (check_payload k p)) [
  | inl (e, refused) ↦ (e, refused)
  | inr (u, passed) ↦ absurd (Unfit-passes k p u unfit passed)
]

fill-Unfit :
    (k : Kind) (ps : List MsgProps) (p : MsgProps) (qs : List MsgProps)
    → Unfit k p
    → (e : Error) × (fill_entries k (ps ++ (p ∷ qs)) ≡ err e)
unfolding fill_entries
fill-Unfit k [] p qs unfit = let (e, refused) = check-Unfit k p unfit in (e, rw refused refl)
fill-Unfit k (q ∷ ps) p qs unfit = elim (Result-cases (check_payload k q)) [
  | inl (e, refused) ↦ (e, rw refused refl)
  | inr (u, passed) ↦ let (e, later) = fill-Unfit k ps p qs unfit in (e, rw (passed, later) refl)
]

-- Where a message does not fit the queue, wherever it stands, no message is sent, and the call fails.
pub enq-Unfit :
    {C : Type 0} (s : Sender C) (k : Kind) (ps : List MsgProps) (p : MsgProps) (qs : List MsgProps)
    (c : C)
    → Unfit k p
    → (e : Error) × (enq s k (ps ++ (p ∷ qs)) c ≡ (err e, c))
unfolding enq
enq-Unfit s k [] p qs c unfit =
    let (e, refused) = fill-Unfit k [] p qs unfit in (e, rw (refused, enq) refl)
enq-Unfit s k (q ∷ ps) p qs c unfit =
    let (e, refused) = fill-Unfit k (q ∷ ps) p qs unfit in (e, rw (refused, enq) refl)
