-- ===== src/Background.antt =====
-- The sender of availability checks (internal/background/availability_queue.go). What its `select`
-- takes up is a sequence of events: a message of the channel, a tick, or the end of the context.
pub mod Batches
use provisioning_backend.Common.{
  ℕ, Bool, true, false, Option, List, [], ◌∷◌, ◌++◌, length, leb, ltb, if◌then◌else◌, String,
}
use provisioning_backend.Errors.{Error, wrapped}
use provisioning_backend.World.{Result, ok, err}
use provisioning_backend.Kafka.{GenericMessage, Principal, Topics, Log, send, availability_message}

abbrev pub availability_status_batch_size : ℕ
availability_status_batch_size = 16

-- EnqueueAvailabilityStatusRequest: the error, and the messages of the channel, in order. Where the
-- channel is full the function waits, and then does the same.
unfoldable pub enqueue_availability_status_request :
    (String → Result String)
    → Topics
    → Principal
    → String
    → List GenericMessage
    → Result (List GenericMessage)
unfolding availability_message
enqueue_availability_status_request marshal topics id source_id channel =
    elim (availability_message marshal topics id source_id) [
      | ok m ↦ ok (channel ++ m ∷ [])
      | err x ↦ err (wrapped "cannot create message" x)
    ]

pub data Event : Type 0 where
  message : GenericMessage → Event
  tick done : Event

-- The variables of the loop, and the batches that were handed to Kafka. An error of Send is only logged: the
-- messages of that batch are not kept. `fault` tells also of the last batch, which is sent with the ended context.
pub record Sender : Type 0 where
  pub buffer : List GenericMessage
  pub log : Log
  pub running : Bool

abbrev pub idle : Sender
idle = record { buffer = []; log = []; running = true }

module _ (fault : ℕ → Option Error) where
  -- Send the buffer and empty it, where it is not empty.
  unfoldable pub send_buffer : Sender → Sender
  unfolding send
  send_buffer s =
      if ltb 0 (length s.buffer)
      then record s { buffer = []; log = (send fault s.buffer s.log).1 }
      else s

  -- One round of the loop.
  unfoldable pub sender_step : ℕ → Event → Sender → Sender
  unfolding send_buffer send
  sender_step batch_size (message m) s =
      let buffer = s.buffer ++ m ∷ [] in
      if leb batch_size (length buffer)
      then record s { buffer = []; log = (send fault buffer s.log).1 }
      else record s { buffer = buffer }
  sender_step batch_size tick s = send_buffer s
  sender_step batch_size done s = record (send_buffer s) { buffer = []; running = false }

  -- sendAvailabilityRequestMessages, from what it holds on, on the events that follow.
  unfoldable pub send_availability_request_messages : ℕ → List Event → Sender → Sender
  unfolding sender_step
  send_availability_request_messages batch_size [] s = s
  send_availability_request_messages batch_size (ev ∷ events) s =
      let rest =
        send_availability_request_messages batch_size events (sender_step batch_size ev s) in
      if s.running then rest else s
