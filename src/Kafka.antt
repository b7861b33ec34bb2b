-- ===== src/Kafka.antt =====
-- Messages of the package internal/kafka (message.go, avail_status_msg.go, source_result.go,
-- notification_msg.go, topics.go) and the sending of them (kafkaBroker.Send of kafka.go). JSON,
-- time, UUIDs and strings.EqualFold are parameters; a []byte that is not looked into is a text, nil
-- the blank one. WriteMessages of the Kafka library is the list of the batches it was called with,
-- and `fault` tells which of the calls fail.
pub mod Consumer
use provisioning_backend.Common.{
  ℕ, ◌+◌, String, Bool, Option, none, some, List, [], ◌∷◌, ◌++◌, map, length, str_eq, if◌then◌else◌,
}
use provisioning_backend.Errors.{Error, opaque, wrapped}
use provisioning_backend.World.{Result, ok, err}

pub record GenericHeader : Type 0 where
  pub key : String
  pub value : String

pub record GenericMessage : Type 0 where
  pub topic : String
  pub key : String
  pub value : String
  pub headers : List GenericHeader

-- The fields of kafka.Message and kafka.Header that the code uses.
pub record NativeHeader : Type 0 where
  pub key : String
  pub value : String

pub record NativeMessage : Type 0 where
  pub topic : String
  pub key : String
  pub value : String
  pub headers : List NativeHeader

abbrev pub with_header : GenericHeader → Option (List GenericHeader) → Option (List GenericHeader)
with_header h none = none
with_header h (some headers) = some (h ∷ headers)

-- GenericHeaders: the panic on an odd number of arguments is `none`.
unfoldable pub generic_headers : List String → Option (List GenericHeader)
generic_headers [] = some []
generic_headers (k ∷ []) = none
generic_headers (k ∷ v ∷ args) = with_header (record { key = k; value = v }) (generic_headers args)

unfoldable pub new_message_from_kafka : NativeMessage → GenericMessage
new_message_from_kafka km = record {
  topic = km.topic;
  key = km.key;
  value = km.value;
  headers = map (λ (h : NativeHeader). record { key = h.key; value = h.value }) km.headers;
}

unfoldable pub kafka_message : GenericMessage → NativeMessage
kafka_message m = record {
  topic = m.topic;
  key = m.key;
  value = m.value;
  headers = map (λ (h : GenericHeader). record { key = h.key; value = h.value }) m.headers;
}

module _ (equal_fold : String → String → Bool) where
  find_header : String → List GenericHeader → String
  find_header name [] = ""
  find_header name (h ∷ headers) =
      if equal_fold h.key name then h.value else find_header name headers

  -- GenericMessage.Header: blank if there is none.
  unfoldable pub message_header : GenericMessage → String → String
  unfolding find_header
  message_header m name = find_header name m.headers

  -- The function header of kafka.go.
  unfoldable pub header : String → List NativeHeader → String
  header name [] = ""
  header name (h ∷ headers) = if equal_fold h.key name then h.value else header name headers

-- What a context holds of the principal.
pub record Principal : Type 0 where
  pub org_id : String
  pub account_number : String
  pub identity_header : String

abbrev no_headers : Option (List GenericHeader) → List GenericHeader
no_headers none = []
no_headers (some headers) = headers

-- genericMessage, where `payload` is what json.Marshal answered. Ten arguments cannot panic.
unfoldable pub generic_message : Result String → Principal → String → String → Result GenericMessage
unfolding generic_headers
generic_message (err x) id key topic = err (wrapped "unable to marshal message" x)
generic_message (ok payload) id key topic = ok (record {
  topic = topic;
  key = key;
  value = payload;
  headers = no_headers (
      generic_headers (
        "content-type" ∷ "application/json" ∷ "x-rh-identity" ∷ id.identity_header
        ∷ "x-rh-sources-org-id" ∷ id.org_id ∷ "x-rh-sources-account-number" ∷ id.account_number
        ∷ "event_type" ∷ "availability_status" ∷ []));
})

-- The topics after InitializeTopicRequests.
pub record Topics : Type 0 where
  pub availability_status_request : String
  pub sources_status : String
  pub notification : String

-- InitializeTopicRequests, with the mapping of names that the configuration has.
unfoldable pub initialize_topic_requests : (String → String) → Topics
initialize_topic_requests topic_name = record {
  availability_status_request = topic_name "platform.provisioning.internal.availability-check";
  sources_status = topic_name "platform.sources.status";
  notification = topic_name "platform.notifications.ingress";
}

pub data StatusType : Type 0 where
  unavailable available : StatusType

pub record SourceResult : Type 0 where
  pub message_context : Principal
  pub resource_id : String
  pub resource_type : String
  pub status : StatusType
  pub error : Option Error
  pub missing_permissions : List String

module _ (marshal : String → Result String) (topics : Topics) where
  -- AvailabilityStatusMessage.GenericMessage: the message is the id of a source.
  unfoldable pub availability_message : Principal → String → Result GenericMessage
  unfolding generic_message
  availability_message id source_id =
      generic_message (marshal source_id) id source_id topics.availability_status_request

module _ (marshal : SourceResult → Result String) (topics : Topics) where
  -- SourceResult.GenericMessage
  unfoldable pub result_message : Principal → SourceResult → Result GenericMessage
  unfolding generic_message
  result_message id sr = generic_message (marshal sr) id sr.resource_id topics.sources_status

abbrev pub with_message : NativeMessage → Option (List NativeMessage) → Option (List NativeMessage)
with_message m none = none
with_message m (some messages) = some (m ∷ messages)

-- The loop of Send: `none` at a message with another topic.
unfoldable pub kafka_messages : String → List GenericMessage → Option (List NativeMessage)
unfolding kafka_message
kafka_messages common_topic [] = some []
kafka_messages common_topic (m ∷ ms) =
    if str_eq m.topic common_topic
    then with_message (kafka_message m) (kafka_messages common_topic ms)
    else none

-- The batches that WriteMessages was called with, those that it failed on included.
abbrev pub Log : Type 0
Log = List (List NativeMessage)

-- What Kafka got: the batches of the calls that did not fail, where the first batch is that of call `i`.
unfoldable pub delivered : (ℕ → Option Error) → ℕ → Log → Log
delivered fault i [] = []
delivered fault i (batch ∷ log) = elim (fault i) [
  | none ↦ batch ∷ delivered fault (i + 1) log
  | some x ↦ delivered fault (i + 1) log
]

abbrev pub different_topic : Error
different_topic = opaque "messages in batch have different topics"

module _ (fault : ℕ → Option Error) where
  abbrev pub write_messages : Option (List NativeMessage) → Log → Option Error × Log
  write_messages none log = (some different_topic, log)
  write_messages (some messages) log = (
    elim (fault (length log)) [
      | none ↦ none
      | some x ↦ some (wrapped "cannot send kafka messages(s)" x)
    ],
    log ++ messages ∷ [],
  )

  -- kafkaBroker.Send: nil is `none`.
  unfoldable pub send : List GenericMessage → Log → Option Error × Log
  unfolding kafka_messages
  send [] log = (none, log)
  send (m ∷ ms) log = write_messages (kafka_messages m.topic (m ∷ ms)) log
