-- ===== src/Queue/Tests.antt =====
-- Runs of odpi/src/dpiQueue.c: a buffer for one message of a RAW queue, and a server that has some messages
-- left and then fails, or has no more.
use godror.Base.{
  ℕ, zero, suc, ◌≡◌, refl, true, false, Option, none, some, List, [], ◌∷◌, ◌++◌, map, ok, err,
  Error, no_memory, oci,
}
use godror.Queue.Buffer.{Space, Found, free_buffer, allocate_buffer}
use godror.Queue.Arrays.{
  IsReady, all_found, AreDistinct, allocate_buffer-IsReady, allocate_buffer_faults,
}
use godror.Queue.Messages.{MsgProps, Kind, Entry, deq_entry}
use godror.Queue.Enqueue.{Sender, enq, no_raw, enq-Unfit}
use godror.Queue.Dequeue.{
  Got, DeqStatus, no_messages, Answer, got, ended, Receiver, prepare_places, deliver, empty_places,
  deq,
}
use godror.Queue.Received.{IsDelivery, Run, more, stop, with_fewer, deq_json-Run}

abbrev used : Space
used = record {
  buffer = record {
    num_elements = 1;
    props = some 0;
    held = some 7 ∷ [];
    handles = some 1;
    instances = some 2;
    indicators = some 3;
    scalar_indicators = some 4;
    msg_ids = some 5;
  };
  memory = record { live = 0 ∷ 1 ∷ 2 ∷ 3 ∷ 4 ∷ 5 ∷ 6 ∷ []; next = 7; sizes = λ p. 1 };
  released = [];
}

abbrev cleared : Space
cleared = record {
  buffer = record {
    num_elements = 1;
    props = none;
    held = [];
    handles = none;
    instances = none;
    indicators = none;
    scalar_indicators = some 4;
    msg_ids = none;
  };
  memory = record { live = 6 ∷ []; next = 7; sizes = λ p. 1 };
  released = 7 ∷ [];
}

used_freed : free_buffer used ≡ some cleared
unfolding free_buffer
used_freed = refl

used-AreDistinct : AreDistinct used.memory.live
used-AreDistinct = (refl, (refl, (refl, (refl, (refl, (refl, (refl, tt)))))))

abbrev starved : Found
starved = record {
  props = false;
  handles = true;
  instances = true;
  indicators = true;
  scalar_indicators = true;
  msg_ids = true;
}

allocate_buffer-IsReady_example : IsReady 2 cleared (allocate_buffer all_found false 2 used)
allocate_buffer-IsReady_example = allocate_buffer-IsReady 2 used cleared used-AreDistinct used_freed

allocate_buffer_faults_example :
    (u : Space) × (allocate_buffer starved false 2 used ≡ some (err no_memory, u))
    × (free_buffer u ≡ none)
allocate_buffer_faults_example =
    allocate_buffer_faults starved false 2 4 used cleared used-AreDistinct refl used_freed refl

abbrev sender : Sender ℕ
sender = record {
  get_payload_tdo = λ c. (ok tt, c);
  aq_enq = λ c e. (ok (some c), suc c);
  aq_enq_array = λ c es. (ok [], c);
}

abbrev raw_kind : Kind
raw_kind = record { payload_type = none; is_json = false }

abbrev json_kind : Kind
json_kind = record { payload_type = none; is_json = true }

-- with a RAW and a JSON payload, and with a JSON payload only
abbrev both : MsgProps
both = record {
  handle = 1;
  payload_obj = none;
  payload_raw = some 2;
  payload_json = some 3;
  msg_id_raw = none;
}

abbrev json_only : MsgProps
json_only = record {
  handle = 7;
  payload_obj = none;
  payload_raw = none;
  payload_json = some 9;
  msg_id_raw = none;
}

enq-Unfit_example :
    (e : Error) × (enq sender raw_kind ((both ∷ []) ++ (json_only ∷ [])) 5 ≡ (err e, 5))
enq-Unfit_example = enq-Unfit sender raw_kind (both ∷ []) json_only [] 5 (no_raw refl refl refl)

-- a message with a RAW payload only
abbrev raw_only : MsgProps
raw_only = record both { handle = 4; payload_json = none }

abbrev raw_entry : Entry
raw_entry = record { handle = 4; payload = some 2; msg_id = none }

abbrev sample_got : Got
sample_got = record { payload = some 9; msg_id = some 8 }

abbrev answer : DeqStatus → ℕ → Answer × ℕ
answer s zero = (ended s, zero)
answer s (suc n) = (got sample_got, n)

-- the server's state is how many messages are left
abbrev receiver : DeqStatus → Receiver ℕ
receiver s = record {
  new_props = λ c. (ok 7, c);
  new_object = λ c. (err oci, c);
  new_json = λ c. (ok 9, c);
  get_payload_tdo = λ c. (ok tt, c);
  aq_deq = λ c e. answer s c;
  aq_deq_array = λ c es. ([], s, c);
}

abbrev places : List (Option MsgProps)
places = none ∷ none ∷ []

abbrev kept : List (Option MsgProps)
kept = some json_only ∷ some json_only ∷ []

places_prepared :
    (s : DeqStatus)
    → prepare_places (receiver s) json_kind 2 places 1 ≡ (ok (json_only ∷ json_only ∷ []), kept, 1)
unfolding prepare_places
places_prepared s = refl

one_then :
    (s : DeqStatus)
    → Run
        (receiver s)
        1
        (map (deq_entry json_kind) (json_only ∷ json_only ∷ []))
        (sample_got ∷ [])
        s
        0
unfolding deq_entry
one_then s = more _ _ _ _ _ _ _ _ refl (stop _ _ _ _ _ refl)

deq_json-Run_example :
    (deq (receiver no_messages) json_kind 2 places 1 ≡ (
      ok (deliver json_kind (json_only ∷ json_only ∷ []) (sample_got ∷ [])),
      empty_places kept (sample_got ∷ []),
      0,
    ))
    × IsDelivery
        (sample_got ∷ [])
        (deliver json_kind (json_only ∷ json_only ∷ []) (sample_got ∷ []))
deq_json-Run_example =
    deq_json-Run (receiver no_messages) json_kind 2 places kept (json_only ∷ json_only ∷ []) 1 1 1 0
      (sample_got ∷ []) no_messages refl (places_prepared no_messages) refl (one_then no_messages)
      with_fewer
