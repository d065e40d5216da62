-- ===== src/Queue/Dequeue.antt =====
-- `dpiQueue__deq` of odpi/src/dpiQueue.c from the buffer on, which has been allocated with at least as many
-- places as messages are asked for. What the server and the library do is a parameter. What a call leaves
-- in the arrays for OCI is left out: the next call fills them before it uses them.
use godror.Base.{
  ℕ, zero, suc, not, ◌&&◌, Option, none, some, List, [], ◌∷◌, if◌then◌else◌, map, Result, ok, err,
  Error,
}
use godror.Queue.Messages.{MsgProps, Object, Kind, Entry, is_given, deq_entry}

-- what the library gives of a message: the payload and the identifier
pub record Got : Type 0 where
  pub payload : Option ℕ
  pub msg_id : Option ℕ

-- How a call ends: well, with the error 25228, which says that there are no more messages, or with another.
pub data DeqStatus : Type 0 where
  done no_messages : DeqStatus
  broken : Error → DeqStatus

-- OCIAQDeq gives a message, or ends otherwise.
pub data Answer : Type 0 where
  got : Got → Answer
  ended : DeqStatus → Answer

-- `dpiMsgProps__allocate` by the OCI handle that it makes, `dpiObject__allocate`, `dpiJson__allocate` by the
-- OCI descriptor, the calls for a payload's TDO, OCIAQDeq and OCIAQDeqArray
pub record Receiver (C : Type 0) : Type 0 where
  pub new_props : C → Result ℕ × C
  pub new_object : C → Result Object × C
  pub new_json : C → Result ℕ × C
  pub get_payload_tdo : C → Result (Unit {0}) × C
  pub aq_deq : C → Entry → Answer × C
  pub aq_deq_array : C → List Entry → List Got × DeqStatus × C

abbrev pub fresh_props : ℕ → MsgProps
fresh_props h = record {
  handle = h;
  payload_obj = none;
  payload_raw = none;
  payload_json = none;
  msg_id_raw = none;
}

-- Message properties made ready for a place of the buffer: the result, what the place holds after it, and the
-- server.
abbrev pub Prepared : Type 0 → Type 0
Prepared C = Result MsgProps × Option MsgProps × C

-- The JSON payload is made for every call; one that is there is not released.
abbrev pub with_json : {C : Type 0} → MsgProps → Result ℕ × C → Prepared C
with_json p (err e, c) = (err e, some p, c)
with_json p (ok h, c) = let q : MsgProps = record p { payload_json = some h } in (ok q, some q, c)

unfoldable pub add_json : {C : Type 0} → Receiver C → Kind → MsgProps → C → Prepared C
add_json r k p c = if k.is_json then with_json p (r.new_json c) else (ok p, some p, c)

abbrev pub with_object :
    {C : Type 0} → Receiver C → Kind → MsgProps → Result Object × C → Prepared C
with_object r k p (err e, c) = (err e, some p, c)
with_object r k p (ok o, c) = add_json r k (record p { payload_obj = some o }) c

unfoldable pub add_object : {C : Type 0} → Receiver C → Kind → MsgProps → C → Prepared C
unfolding add_json
add_object r k p c =
    if is_given k.payload_type && not (is_given p.payload_obj)
    then with_object r k p (r.new_object c)
    else add_json r k p c

abbrev pub with_props : {C : Type 0} → Receiver C → Kind → Result ℕ × C → Prepared C
with_props r k (err e, c) = (err e, none, c)
with_props r k (ok h, c) = add_object r k (fresh_props h) c

unfoldable pub prepare_place : {C : Type 0} → Receiver C → Kind → Option MsgProps → C → Prepared C
unfolding add_object
prepare_place r k none c = with_props r k (r.new_props c)
prepare_place r k (some p) c = add_object r k p c

-- the loop that fills the buffer, for `n` messages
abbrev pub next_places :
    {C : Type 0}
    → (C → Result (List MsgProps) × List (Option MsgProps) × C)
    → List (Option MsgProps)
    → Prepared C
    → Result (List MsgProps) × List (Option MsgProps) × C
next_places next places (err e, p, c) = (err e, p ∷ places, c)
next_places next places (ok q, p, c) =
    let rest = next c in
    elim rest.0 [ err e ↦ (err e, p ∷ rest.1, rest.2) | ok qs ↦ (ok (q ∷ qs), p ∷ rest.1, rest.2) ]

unfoldable pub prepare_places :
    {C : Type 0}
    → Receiver C
    → Kind
    → ℕ
    → List (Option MsgProps)
    → C
    → Result (List MsgProps) × List (Option MsgProps) × C
unfolding prepare_place
prepare_places r k zero places c = (ok [], places, c)
prepare_places r k (suc n) [] c = (ok [], [], c)
prepare_places r k (suc n) (p ∷ places) c =
    next_places (prepare_places r k n places) places (prepare_place r k p c)

-- one message more before those of the rest of the loop
abbrev pub after_got : {C : Type 0} → Got → List Got × DeqStatus × C → List Got × DeqStatus × C
after_got g (gs, s, c) = (g ∷ gs, s, c)

abbrev pub after_answer :
    {C : Type 0} → (C → List Got × DeqStatus × C) → Answer × C → List Got × DeqStatus × C
after_answer next (got g, c) = after_got g (next c)
after_answer next (ended s, c) = ([], s, c)

-- the loop over the messages of a JSON queue, which calls OCIAQDeq for each
unfoldable pub deq_each : {C : Type 0} → Receiver C → List Entry → C → List Got × DeqStatus × C
deq_each r [] c = ([], done, c)
deq_each r (e ∷ es) c = after_answer (deq_each r es) (r.aq_deq c e)

-- the call, or the calls, that dequeue
unfoldable pub receive_messages :
    {C : Type 0} → Receiver C → Kind → List Entry → C → List Got × DeqStatus × C
unfolding deq_each
receive_messages r k [] c = if k.is_json then ([], done, c) else r.aq_deq_array c []
receive_messages r k (e ∷ []) c = after_answer (λ d. ([], done, d)) (r.aq_deq c e)
receive_messages r k (e ∷ f ∷ es) c =
    if k.is_json then deq_each r (e ∷ f ∷ es) c else r.aq_deq_array c (e ∷ f ∷ es)

-- a message transferred to the caller
abbrev pub delivered : Kind → MsgProps → Got → MsgProps
delivered k p g =
    if k.is_json
    then record p { payload_json = g.payload; msg_id_raw = g.msg_id }
    else if is_given k.payload_type
    then record p { msg_id_raw = g.msg_id }
    else record p { payload_raw = g.payload; msg_id_raw = g.msg_id }

-- the messages that came, and the places that are left, of which theirs are empty
abbrev pub deliver : Kind → List MsgProps → List Got → List MsgProps
deliver k [] gs = []
deliver k (p ∷ ps) [] = []
deliver k (p ∷ ps) (g ∷ gs) = delivered k p g ∷ deliver k ps gs

abbrev pub empty_places : List (Option MsgProps) → List Got → List (Option MsgProps)
empty_places [] gs = []
empty_places (p ∷ places) [] = p ∷ places
empty_places (p ∷ places) (g ∷ gs) = none ∷ empty_places places gs

-- what a call leaves: the messages or an error, the places of the buffer, and the server
abbrev pub Left : Type 0 → Type 0
Left C = Result (List MsgProps) × List (Option MsgProps) × C

abbrev pub transfer :
    {C : Type 0} → Kind → List MsgProps → List (Option MsgProps) → List Got × DeqStatus × C → Left C
transfer k ps places (gs, broken e, c) = (err e, places, c)
transfer k ps places (gs, done, c) = (ok (deliver k ps gs), empty_places places gs, c)
transfer k ps places (gs, no_messages, c) = (ok (deliver k ps gs), empty_places places gs, c)

abbrev pub after_tdo :
    {C : Type 0}
    → Receiver C
    → Kind
    → List MsgProps
    → List (Option MsgProps)
    → Result (Unit {0}) × C
    → Left C
after_tdo r k ps places (err e, c) = (err e, places, c)
after_tdo r k ps places (ok u, c) =
    transfer k ps places (receive_messages r k (map (deq_entry k) ps) c)

abbrev pub after_prepared :
    {C : Type 0} → Receiver C → Kind → Result (List MsgProps) × List (Option MsgProps) × C → Left C
after_prepared r k (err e, places, c) = (err e, places, c)
after_prepared r k (ok ps, places, c) = after_tdo r k ps places (r.get_payload_tdo c)

-- `dpiQueue__deq` for `n` messages, given the places of the buffer
unfoldable pub deq : {C : Type 0} → Receiver C → Kind → ℕ → List (Option MsgProps) → C → Left C
unfolding prepare_places receive_messages deq_entry
deq r k n places c = after_prepared r k (prepare_places r k n places c)
