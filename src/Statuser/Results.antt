-- ===== src/Statuser/Results.antt =====
-- The sender of results, compared with the sender of availability checks.
use provisioning_backend.Common.{
  ℕ, ◌<◌, ◌≡◌, ◌⊎◌, refl, sym, ap, String, true, Option, none, List, [], ◌∷◌, ◌++◌, map, concat,
  All, if◌then◌else◌, if_elim,
}
use provisioning_backend.Errors.{Error}
use provisioning_backend.World.{Result, ok, err}
use provisioning_backend.Kafka.{
  GenericMessage, Topics, SourceResult, kafka_message, result_message, generic_message, delivered,
}
use provisioning_backend.Background.{
  Event, message, Sender, idle, send_availability_request_messages,
}
use provisioning_backend.Background.Batches.{
  OnTopic, received, IsBatched, stopped_stays, send_availability_request_messages-IsBatched,
}
use provisioning_backend.Statuser.{
  ResultEvent, result, tick, done, push_result, results_step, send_results,
}

module _ (marshal : SourceResult → Result String) (topics : Topics) where
  abbrev pub and_event : Result GenericMessage → List Event → List Event
  and_event (ok m) rest = message m ∷ rest
  and_event (err x) rest = rest

  -- The messages of the results; a result that has no message gives none.
  abbrev pub messages_of : List ResultEvent → List Event
  messages_of [] = []
  messages_of (result sr ∷ events) =
      and_event (result_message marshal topics sr.message_context sr) (messages_of events)
  messages_of (tick ∷ events) = Event.tick ∷ messages_of events
  messages_of (done ∷ events) = Event.done ∷ messages_of events

  -- The message of a result is for the topic of statuses.
  result_message-OnTopic :
      (sr : SourceResult) (events : List Event)
      → All (OnTopic topics.sources_status) (received events)
      → All
          (OnTopic topics.sources_status)
          (received (and_event (result_message marshal topics sr.message_context sr) events))
  unfolding result_message
  result_message-OnTopic sr events h = go (marshal sr)
    where
      go :
          (r : Result String)
          → All (OnTopic topics.sources_status) (
              received (
                and_event
                  (generic_message r sr.message_context sr.resource_id topics.sources_status)
                  events))
      go (ok payload) = (refl, h)
      go (err x) = h

  messages_of-OnTopic :
      (events : List ResultEvent)
      → All (OnTopic topics.sources_status) (received (messages_of events))
  messages_of-OnTopic [] = tt
  messages_of-OnTopic (result sr ∷ events) =
      result_message-OnTopic sr (messages_of events) (messages_of-OnTopic events)
  messages_of-OnTopic (tick ∷ events) = messages_of-OnTopic events
  messages_of-OnTopic (done ∷ events) = tt

  module _ (fault : ℕ → Option Error) (batch_size : ℕ) where
    result_step :
        (events : List ResultEvent)
        → ((t : Sender)
            → send_results marshal topics fault batch_size events t
              ≡ send_availability_request_messages fault batch_size (messages_of events) t)
        → (r : Result GenericMessage) (s : Sender)
        → (if s.running
            then send_results marshal topics fault batch_size events
                (push_result marshal topics fault batch_size r s)
            else s)
          ≡ send_availability_request_messages fault batch_size (and_event r (messages_of events)) s
    unfolding send_availability_request_messages
    result_step events ih (ok m) s = ap (λ (rest : Sender). if s.running then rest else s) (ih _)
    result_step events ih (err x) s =
        if_elim
          (λ t. t ≡ send_availability_request_messages fault batch_size (messages_of events) s)
          s.running _ s (λ _. ih s)
          (λ f. sym (stopped_stays batch_size "" fault (messages_of events) s f))

    -- sendResults is sendAvailabilityRequestMessages on the messages of the results.
    send_results-messages_of :
        (events : List ResultEvent) (s : Sender)
        → send_results marshal topics fault batch_size events s
          ≡ send_availability_request_messages fault batch_size (messages_of events) s
    unfolding send_results send_availability_request_messages
    send_results-messages_of [] s = refl
    send_results-messages_of (result sr ∷ events) s =
        result_step events (send_results-messages_of events)
          (result_message marshal topics sr.message_context sr) s
    send_results-messages_of (tick ∷ events) s =
        ap (λ (rest : Sender). if s.running then rest else s)
          (send_results-messages_of events (results_step marshal topics fault batch_size tick s))
    send_results-messages_of (done ∷ events) s =
        ap (λ (rest : Sender). if s.running then rest else s)
          (send_results-messages_of events (results_step marshal topics fault batch_size done s))

-- Whatever Kafka answers, sendResults hands the results that it takes up to WriteMessages in batches that are
-- not empty and not larger than the batch size, and keeps fewer than that. What it handed over, once and
-- whether the call failed or not, and what it keeps are the messages of the results, each once and in order,
-- but for those that have no message; if no call fails Kafka got all of them but those that are kept. Where the
-- context ended, the rest has been handed over and nothing is kept, and results that come later are not taken up.
pub send_results-IsBatched :
    (marshal : SourceResult → Result String) (topics : Topics) (fault : ℕ → Option Error)
    (batch_size : ℕ) (events : List ResultEvent)
    → 0 < batch_size
    → let s = send_results marshal topics fault batch_size events idle in
      IsBatched batch_size topics.sources_status s
      × (concat s.log ++ map kafka_message s.buffer
          ≡ map kafka_message (received (messages_of marshal topics events)))
      × (((i : ℕ) → fault i ≡ none)
          → concat (delivered fault 0 s.log) ++ map kafka_message s.buffer
            ≡ map kafka_message (received (messages_of marshal topics events)))
      × ((s.running ≡ true) ⊎ (s.buffer ≡ []))
send_results-IsBatched marshal topics fault batch_size events p =
    rw (send_results-messages_of marshal topics fault batch_size events idle) (
      send_availability_request_messages-IsBatched fault batch_size topics.sources_status
        (messages_of marshal topics events) p (messages_of-OnTopic marshal topics events))
