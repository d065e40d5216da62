-- ===== src/Queue/Received.antt =====
-- Which messages `dpiQueue__deq` of odpi/src/dpiQueue.c hands over of a queue of JSON messages.
use godror.Base.{
  ℕ, suc, ◌≡◌, ◌≤◌, refl, ap, ap₂, ◌∙◌, true, Option, List, [], ◌∷◌, map, length, ok, arith,
}
use godror.Queue.Messages.{MsgProps, Kind, Entry, deq_entry}
use godror.Queue.Dequeue.{
  transfer, after_tdo, after_prepared, Got, DeqStatus, done, no_messages, got, ended, Receiver,
  delivered, prepare_places, after_got, deq_each, receive_messages, deliver, empty_places, deq,
}

-- What the server does when it is asked for one message after another: it hands out messages until as many
-- came as there are entries, or until it answers otherwise.
pub data Run {C : Type 0} (r : Receiver C)
    : C → List Entry → List Got → DeqStatus → C → Type 0 where
  all : (c : C) → Run r c [] [] done c
  more :
      (c d f : C) (e : Entry) (es : List Entry) (g : Got) (gs : List Got) (s : DeqStatus)
      → r.aq_deq c e ≡ (got g, d)
      → Run r d es gs s f
      → Run r c (e ∷ es) (g ∷ gs) s f
  stop :
      (c d : C) (e : Entry) (es : List Entry) (s : DeqStatus)
      → r.aq_deq c e ≡ (ended s, d)
      → Run r c (e ∷ es) [] s d

-- the messages that the caller gets carry what the server handed out, in its order
pub record IsDelivery (gs : List Got) (ms : List MsgProps) : Type 0 where
  pub payloads : map (λ m. m.payload_json) ms ≡ map (λ g. g.payload) gs
  pub msg_ids : map (λ m. m.msg_id_raw) ms ≡ map (λ g. g.msg_id) gs

module _ {C : Type 0} (r : Receiver C) where
  deq_each-Run :
      (c f : C) (es : List Entry) (gs : List Got) (s : DeqStatus)
      → Run r c es gs s f
      → deq_each r es c ≡ (gs, s, f)
  unfolding deq_each
  deq_each-Run c f es gs s (all c') = refl
  deq_each-Run c f es gs s (more c' d f' e es' g gs' s' came rest) =
      rw came (ap (after_got g) (deq_each-Run d f es' gs' s rest))
  deq_each-Run c f es gs s (stop c' d e es' s' ends) = rw ends refl

  receive_messages-each :
      (k : Kind) (es : List Entry) (c : C)
      → k.is_json ≡ true
      → receive_messages r k es c ≡ deq_each r es c
  unfolding receive_messages
  receive_messages-each k [] c json = rw json refl
  receive_messages-each k (e ∷ []) c json = refl
  receive_messages-each k (e ∷ f ∷ es) c json = rw json refl

  length-Run :
      (c f : C) (es : List Entry) (gs : List Got) (s : DeqStatus)
      → Run r c es gs s f
      → length gs ≤ length es
  length-Run c f es gs s (all c') = omega arith
  length-Run c f es gs s (more c' d f' e es' g gs' s' came rest) =
      omega (arith, length-Run d f es' gs' s rest)
  length-Run c f es gs s (stop c' d e es' s' ends) = omega arith

  payload-delivered :
      (k : Kind) (p : MsgProps) (g : Got)
      → k.is_json ≡ true
      → (delivered k p g).payload_json ≡ g.payload
  payload-delivered k p g json = rw json refl

  msg_id-delivered :
      (k : Kind) (p : MsgProps) (g : Got)
      → k.is_json ≡ true
      → (delivered k p g).msg_id_raw ≡ g.msg_id
  msg_id-delivered k p g json = rw json refl

  deliver-IsDelivery :
      (k : Kind) (ps : List MsgProps) (gs : List Got)
      → k.is_json ≡ true
      → length gs ≤ length ps
      → IsDelivery gs (deliver k ps gs)
  deliver-IsDelivery k [] [] json h = record { payloads = refl; msg_ids = refl }
  deliver-IsDelivery k [] (g ∷ gs) json h = absurd (omega arith)
  deliver-IsDelivery k (p ∷ ps) [] json h = record { payloads = refl; msg_ids = refl }
  deliver-IsDelivery k (p ∷ ps) (g ∷ gs) json h =
      let rest = deliver-IsDelivery k ps gs json (omega arith) in
      record {
        payloads = ap₂ (λ x xs. x ∷ xs) (payload-delivered k p g json) rest.payloads;
        msg_ids = ap₂ (λ x xs. x ∷ xs) (msg_id-delivered k p g json) rest.msg_ids;
      }

  length-entries : (k : Kind) (ps : List MsgProps) → length (map (deq_entry k) ps) ≡ length ps
  length-entries k [] = refl
  length-entries k (p ∷ ps) = ap suc (length-entries k ps)

  deq-transfer :
      (k : Kind) (n : ℕ) (places left : List (Option MsgProps)) (ps : List MsgProps) (c d e f : C)
      (gs : List Got) (s : DeqStatus)
      → k.is_json ≡ true
      → prepare_places r k n places c ≡ (ok ps, left, d)
      → r.get_payload_tdo d ≡ (ok tt, e)
      → Run r e (map (deq_entry k) ps) gs s f
      → deq r k n places c ≡ transfer k ps left (gs, s, f)
  unfolding deq
  deq-transfer k n places left ps c d e f gs s json prepared tdo run =
      ap (after_prepared r k) prepared
      ∙ ap (after_tdo r k ps left) tdo
      ∙ ap (transfer k ps left) (
          receive_messages-each k (map (deq_entry k) ps) e json
          ∙ deq_each-Run e f (map (deq_entry k) ps) gs s run)

-- The call that ends without another error: with as many messages as asked for, or with no more.
pub data EndsWell : DeqStatus → Type 0 where
  with_all : EndsWell done
  with_fewer : EndsWell no_messages

ends_well :
    {C : Type 0} (k : Kind) (ps : List MsgProps) (left : List (Option MsgProps)) (gs : List Got)
    (f : C) (s : DeqStatus)
    → EndsWell s
    → transfer k ps left (gs, s, f) ≡ (ok (deliver k ps gs), empty_places left gs, f)
ends_well k ps left gs f s with_all = refl
ends_well k ps left gs f s with_fewer = refl

-- Of a queue of JSON messages, where the places are prepared and the type is found, every message that the
-- server hands out is delivered, in order, with its payload and identifier, if it ends by giving as many
-- as asked for or by having no more; their places in the buffer are empty then.
pub deq_json-Run :
    {C : Type 0} (r : Receiver C) (k : Kind) (n : ℕ) (places left : List (Option MsgProps))
    (ps : List MsgProps) (c d e f : C) (gs : List Got) (s : DeqStatus)
    → k.is_json ≡ true
    → prepare_places r k n places c ≡ (ok ps, left, d)
    → r.get_payload_tdo d ≡ (ok tt, e)
    → Run r e (map (deq_entry k) ps) gs s f
    → EndsWell s
    → (deq r k n places c ≡ (ok (deliver k ps gs), empty_places left gs, f))
      × IsDelivery gs (deliver k ps gs)
deq_json-Run r k n places left ps c d e f gs s json prepared tdo run well = (
  deq-transfer r k n places left ps c d e f gs s json prepared tdo run
      ∙ ends_well k ps left gs f s well,
  deliver-IsDelivery r k ps gs json
      (omega (arith, length-Run r e f (map (deq_entry k) ps) gs s run, length-entries r k ps)),
)
