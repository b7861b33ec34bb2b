-- ===== src/Kafka/Consumer.antt =====
-- The loop of a consumer of Kafka (kafkaBroker.Consume of internal/kafka/kafka.go) over what ReadMessage answers,
-- up to where the reader is closed or cancelled. The decoding of an identity is a parameter; traces are left out.
use provisioning_backend.Common.{String, Bool, Option, List, [], ◌∷◌}
use provisioning_backend.Kafka.{
  GenericMessage, NativeMessage, Principal, header, new_message_from_kafka,
}

-- ReadMessage: a message, io.EOF, context.Canceled, or any other error.
pub data Read : Type 0 where
  received : NativeMessage → Read
  end_of_file canceled failed : Read

-- What the handler is called with: the identity in its context if there is one, and the message.
abbrev pub Handled : Type 0
Handled = Option Principal × GenericMessage

module _ (equal_fold : String → String → Bool) (with_identity : String → Option Principal) where
  -- Consume: the calls of the handler, in order.
  unfoldable pub consume : List Read → List Handled
  unfolding new_message_from_kafka header
  consume [] = []
  consume (received m ∷ reads) =
      (with_identity (header equal_fold "X-RH-Identity" m.headers), new_message_from_kafka m)
      ∷ consume reads
  consume (end_of_file ∷ reads) = []
  consume (canceled ∷ reads) = []
  consume (failed ∷ reads) = consume reads
