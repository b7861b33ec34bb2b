-- ===== src/Examples/Streams.antt =====
-- The writer that censors, and the senders of messages, on concrete inputs.
use provisioning_backend.Common.{
  ℕ, ◌≡◌, ◌⊎◌, refl, String, true, false, none, some, List, [], ◌∷◌, ◌++◌, map, concat, length,
  arith, Option,
}
use provisioning_backend.Errors.{Error, opaque, wrapped}
use provisioning_backend.World.{ok}
use provisioning_backend.Logging.{new_sentry_replacer, write, close}
use provisioning_backend.Logging.Chunks.{
  lines, Received, Took, Tried, write_all, write-Received, close-write_all,
}
use provisioning_backend.Kafka.{
  GenericMessage, Topics, SourceResult, unavailable, kafka_message, delivered,
  initialize_topic_requests,
}
use provisioning_backend.Background.{
  Event, message, tick, done, idle, send_availability_request_messages,
}
use provisioning_backend.Background.Batches.{
  IsBatched, received, send_availability_request_messages-IsBatched,
}
use provisioning_backend.Statuser.{ResultEvent, result, send_results}
use provisioning_backend.Statuser.Results.{messages_of, send_results-IsBatched}

-- The calls do not fail.
abbrev never : ℕ → Option Error
never n = none

-- A regular expression that takes each line for a secret.
abbrev censor : List ℕ → List ℕ
censor [] = []
censor (b ∷ line) = 42 ∷ 10 ∷ []

-- "a", then "b", a newline and "c".
abbrev chunks : List (List ℕ)
chunks = (97 ∷ []) ∷ (98 ∷ 10 ∷ 99 ∷ []) ∷ []

write_all-chunks : (write_all censor never chunks new_sentry_replacer).writes ≡ (42 ∷ 10 ∷ []) ∷ []
unfolding write_all write new_sentry_replacer
write_all-chunks = refl

-- The writer fails: the line is lost to it, and the rest is kept.
write_fails :
    let ((n, e), r) =
      write censor (λ i. some (opaque "disk")) (98 ∷ 10 ∷ 99 ∷ []) new_sentry_replacer in
    (e ≡ some (wrapped "cannot filter" (opaque "disk"))) × (r.buf ≡ 99 ∷ [])
unfolding write new_sentry_replacer
write_fails = (refl, refl)

write-Received_example :
    Received censor
      (97 ∷ 98 ∷ [])
      (write censor never (98 ∷ []) (record { buf = 97 ∷ []; closed = false; writes = [] })).1
    × ((write censor never
          (98 ∷ [])
          (record { buf = 97 ∷ []; closed = false; writes = [] })).1.closed
        ≡ false)
    × Took censor never
        (98 ∷ [])
        (write censor never (98 ∷ []) (record { buf = 97 ∷ []; closed = false; writes = [] }))
    × Tried censor never 0
        (length
          (write censor never
            (98 ∷ [])
            (record { buf = 97 ∷ []; closed = false; writes = [] })).1.writes)
        (write censor never (98 ∷ []) (record { buf = 97 ∷ []; closed = false; writes = [] })).0.1
write-Received_example =
    write-Received censor never (97 ∷ []) (98 ∷ [])
      (record { buf = 97 ∷ []; closed = false; writes = [] }) refl (λ t. refl)

close-write_all_example :
    let (e, r) = close censor never (write_all censor never chunks new_sentry_replacer) in
    (e ≡ none) × (r.closed ≡ true) × (r.writes ≡ map censor (lines (concat chunks)))
close-write_all_example = close-write_all censor never (λ i. refl) chunks

abbrev topics : Topics
unfolding initialize_topic_requests
topics = initialize_topic_requests (λ t. t)

abbrev note : String → GenericMessage
note value = record { topic = "t"; key = "k"; value = value; headers = [] }

-- Three messages and a tick, with batches of two; then the context ends.
abbrev events : List Event
events =
    message (note "a")
    ∷ message (note "b")
    ∷ message (note "c")
    ∷ tick
    ∷ done
    ∷ message (note "d")
    ∷ []

send_availability_request_messages-events :
    (send_availability_request_messages never 2 events idle).log
    ≡ (kafka_message (note "a") ∷ kafka_message (note "b") ∷ [])
      ∷ (kafka_message (note "c") ∷ [])
      ∷ []
unfolding send_availability_request_messages
send_availability_request_messages-events = refl

send_availability_request_messages-IsBatched_example :
    let s = send_availability_request_messages never 2 events idle in
    IsBatched 2 "t" s
    × (concat s.log ++ map kafka_message s.buffer ≡ map kafka_message (received events))
    × (((i : ℕ) → never i ≡ none)
        → concat (delivered never 0 s.log) ++ map kafka_message s.buffer
          ≡ map kafka_message (received events))
    × ((s.running ≡ true) ⊎ (s.buffer ≡ []))
send_availability_request_messages-IsBatched_example =
    send_availability_request_messages-IsBatched never 2 "t" events (omega arith)
      (refl, (refl, (refl, tt)))

abbrev source_result : SourceResult
source_result = record {
  message_context = record { org_id = "1"; account_number = "2"; identity_header = "id" };
  resource_id = "11";
  resource_type = "Application";
  status = unavailable;
  error = none;
  missing_permissions = [];
}

abbrev result_events : List ResultEvent
result_events = result source_result ∷ result source_result ∷ ResultEvent.done ∷ []

send_results-IsBatched_example :
    let s = send_results (λ sr. ok "payload") topics never 8 result_events idle in
    IsBatched 8 topics.sources_status s
    × (concat s.log ++ map kafka_message s.buffer
        ≡ map kafka_message (received (messages_of (λ sr. ok "payload") topics result_events)))
    × (((i : ℕ) → never i ≡ none)
        → concat (delivered never 0 s.log) ++ map kafka_message s.buffer
          ≡ map kafka_message (received (messages_of (λ sr. ok "payload") topics result_events)))
    × ((s.running ≡ true) ⊎ (s.buffer ≡ []))
send_results-IsBatched_example =
    send_results-IsBatched (λ sr. ok "payload") topics never 8 result_events (omega arith)
