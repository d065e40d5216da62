-- ===== src/Queue/Messages.antt =====
-- The messages of odpi/src/dpiQueue.c: the fields of `dpiMsgProps` that it uses, the checks of
-- `dpiQueue__enq`, and what both directions hand to the library. Indicators are left out.
use godror.Base.{
  ℕ, Bool, true, false, ◌&&◌, ◌||◌, not, Option, none, some, ◌==◌, if◌then◌else◌, Result, ◌>>◌,
  fail_if, queue_no_payload, queue_wrong_payload_type, wrong_type,
}

-- a `dpiObject`: its instance and the TDO of its type
pub record Object : Type 0 where
  pub instance_handle : ℕ
  pub tdo : ℕ

-- dpiMsgProps; the payload that is JSON is its OCI descriptor
pub record MsgProps : Type 0 where
  pub handle : ℕ
  pub payload_obj : Option Object
  pub payload_raw : Option ℕ
  pub payload_json : Option ℕ
  pub msg_id_raw : Option ℕ

-- the payload of a queue: the TDO of an object type, JSON, or else RAW
pub record Kind : Type 0 where
  pub payload_type : Option ℕ
  pub is_json : Bool

-- an element of the OCI arrays
pub record Entry : Type 0 where
  pub handle : ℕ
  pub payload : Option ℕ
  pub msg_id : Option ℕ

abbrev pub is_given {ℓ} : {A : Type ℓ} → Option A → Bool
is_given none = false
is_given (some a) = true

-- the TDO of the object is not that of the queue
abbrev pub differs : Option ℕ → Option Object → Bool
differs none o = false
differs (some tdo) none = false
differs (some tdo) (some o) = not (tdo == o.tdo)

-- the checks of a message that is enqueued
unfoldable pub check_payload : Kind → MsgProps → Result (Unit {0})
check_payload k p = do
  fail_if
      (not (is_given p.payload_obj)
        && not (is_given p.payload_raw)
        && not (is_given p.payload_json))
      queue_no_payload
  fail_if
      (k.is_json && not (is_given p.payload_json)
        || is_given k.payload_type && not (is_given p.payload_obj)
        || not k.is_json && not (is_given k.payload_type) && not (is_given p.payload_raw))
      queue_wrong_payload_type
  fail_if (differs k.payload_type p.payload_obj) wrong_type

abbrev pub object_instance : Option Object → Option ℕ
object_instance none = none
object_instance (some o) = some o.instance_handle

abbrev pub first_of : Option ℕ → Option ℕ → Option ℕ
first_of none other = other
first_of (some p) other = some p

-- what is put into the arrays for a message that is enqueued: for a queue without a payload type, JSON
-- where there is some, and else RAW
unfoldable pub enq_entry : Kind → MsgProps → Entry
enq_entry k p = record {
  handle = p.handle;
  payload =
      if is_given k.payload_type
      then object_instance p.payload_obj
      else first_of p.payload_json p.payload_raw;
  msg_id = p.msg_id_raw;
}

-- what is put there for a message that is to be dequeued
unfoldable pub deq_entry : Kind → MsgProps → Entry
deq_entry k p = record {
  handle = p.handle;
  payload =
      if is_given k.payload_type
      then object_instance p.payload_obj
      else if k.is_json
      then p.payload_json
      else p.payload_raw;
  msg_id = p.msg_id_raw;
}
