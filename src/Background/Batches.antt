-- ===== src/Background/Batches.antt =====
-- What the sender of availability checks writes to Kafka.
use mathlib.Core.List.{append_assoc, append-nil, map-append}
use provisioning_backend.Common.{
  ℕ, ◌+◌, ◌≤◌, ◌<◌, ◌≡◌, ◌≢◌, ◌⊎◌, refl, sym, ap, ◌∙◌, Bool, Bool-cases, true, false, Option, none,
  some, inl, inr, List, [], ◌∷◌, ◌++◌, map, length, length-append, concat, All, All-append, leb,
  ltb, if_elim, ltb→lt, arith, String, eq_refl, length-map,
}
use provisioning_backend.Errors.{Error}
use provisioning_backend.Kafka.{
  GenericMessage, NativeMessage, Log, kafka_message, kafka_messages, write_messages, delivered,
  send,
}
use provisioning_backend.Background.{
  Event, message, tick, done, Sender, idle, send_buffer, sender_step,
  send_availability_request_messages,
}

abbrev pub OnTopic : String → GenericMessage → Type 0
OnTopic topic m = m.topic ≡ topic

kafka_messages-OnTopic :
    (topic : String) (ms : List GenericMessage)
    → All (OnTopic topic) ms
    → kafka_messages topic ms ≡ some (map kafka_message ms)
unfolding kafka_messages
kafka_messages-OnTopic topic [] h = refl
kafka_messages-OnTopic topic (m ∷ ms) h =
    rw (h.0, eq_refl topic, kafka_messages-OnTopic topic ms h.1) refl

OnTopic-eq :
    (t u : String) (ms : List GenericMessage) → t ≡ u → All (OnTopic t) ms → All (OnTopic u) ms
OnTopic-eq t u [] e h = tt
OnTopic-eq t u (m ∷ ms) e h = (h.0 ∙ e, OnTopic-eq t u ms e h.1)

-- Send hands messages of one topic on together, in their order.
send-OnTopic :
    (fault : ℕ → Option Error) (topic : String) (ms : List GenericMessage) (log : Log)
    → 0 < length ms
    → All (OnTopic topic) ms
    → (send fault ms log).1 ≡ log ++ map kafka_message ms ∷ []
unfolding send
send-OnTopic fault topic [] log n h = absurd (omega arith)
send-OnTopic fault topic (m ∷ ms) log n h =
    ap (λ o. (write_messages fault o log).1)
      (kafka_messages-OnTopic m.topic (m ∷ ms) (OnTopic-eq topic m.topic (m ∷ ms) (sym h.0) h))

push_back :
    (l a : List NativeMessage) (x y : List GenericMessage) (m : GenericMessage)
    → l ++ map kafka_message x ≡ a ++ map kafka_message y
    → l ++ map kafka_message (x ++ m ∷ []) ≡ a ++ map kafka_message (y ++ m ∷ [])
push_back l a x y m e =
    ap (λ z. l ++ z) (map-append kafka_message x (m ∷ []))
    ∙ sym (append_assoc l (map kafka_message x) (kafka_message m ∷ []))
    ∙ ap (λ z. z ++ kafka_message m ∷ []) e
    ∙ append_assoc a (map kafka_message y) (kafka_message m ∷ [])
    ∙ ap (λ z. a ++ z) (sym (map-append kafka_message y (m ∷ [])))

empty_of-length : {A : Type 0} (xs : List A) → length xs ≡ 0 → xs ≡ []
empty_of-length [] h = refl
empty_of-length (x ∷ xs) h = absurd (omega arith)

-- The messages that the loop takes from the channel before the context ends.
abbrev pub received : List Event → List GenericMessage
received [] = []
received (message m ∷ events) = m ∷ received events
received (tick ∷ events) = received events
received (done ∷ events) = []

-- What was handed to Kafka, and then what the buffer will give.
abbrev pub sent : Sender → List NativeMessage
sent s = concat s.log ++ map kafka_message s.buffer

concat-append {ℓ} :
    {A : Type ℓ} (xss yss : List (List A)) → concat (xss ++ yss) ≡ concat xss ++ concat yss
concat-append [] yss = refl
concat-append (xs ∷ xss) yss = simp (concat-append xss yss, append_assoc)

module _ (batch_size : ℕ) (topic : String) where
  -- A batch is not empty and not larger than the batch size.
  abbrev pub Fits : List NativeMessage → Type 0
  Fits b = (0 < length b) × (length b ≤ batch_size)

  pub record IsBatched (s : Sender) : Type 0 where
    pub small : length s.buffer < batch_size
    pub on_topic : All (OnTopic topic) s.buffer
    pub batches : All Fits s.log

  module _ (fault : ℕ → Option Error) where
    -- A buffer that is sent becomes one batch.
    send-Fits :
        (ms : List GenericMessage) (log : Log)
        → 0 < length ms
        → length ms ≤ batch_size
        → All (OnTopic topic) ms
        → All Fits log
        → All Fits (send fault ms log).1
          × (concat (send fault ms log).1 ≡ concat log ++ map kafka_message ms)
    send-Fits ms log n le h k = rw (send-OnTopic fault topic ms log n h) (
      All-append Fits log (map kafka_message ms ∷ []) k ((rw length-map n, rw length-map le), tt),
      concat-append log (map kafka_message ms ∷ [])
          ∙ ap (λ l. concat log ++ l) (append-nil (map kafka_message ms)),
    )

    -- The sender is batched, and it handed over or holds the messages that it did before, and then `ms`.
    abbrev Sends : List NativeMessage → List GenericMessage → Sender → Type 0
    Sends before ms s = IsBatched s × (sent s ≡ before ++ map kafka_message ms)

    flush-Sends :
        (before : List NativeMessage) (ms : List GenericMessage) (running : Bool) (s : Sender)
        → 0 < batch_size
        → 0 < length s.buffer
        → length s.buffer ≤ batch_size
        → All (OnTopic topic) s.buffer
        → All Fits s.log
        → sent s ≡ before ++ map kafka_message ms
        → Sends before ms
            (record { buffer = []; log = (send fault s.buffer s.log).1; running = running })
    flush-Sends before ms running s p n le h k e =
        let (a, b) = send-Fits s.buffer s.log n le h k in
        (
          record { small = p; on_topic = tt; batches = a },
          append-nil (concat (send fault s.buffer s.log).1) ∙ b ∙ e,
        )

    send_buffer-Sends :
        (before : List NativeMessage) (ms : List GenericMessage) (s : Sender)
        → Sends before ms s
        → Sends before ms (send_buffer fault s) × (length (send_buffer fault s).buffer ≡ 0)
    unfolding send_buffer
    send_buffer-Sends before ms s (b, e) =
        if_elim (λ (t : Sender). Sends before ms t × (length t.buffer ≡ 0))
          (ltb 0 (length s.buffer)) _ s
          (λ t. (
            flush-Sends before ms s.running s (omega (arith, b.small)) (ltb→lt 0 _ t)
                (omega (arith, b.small)) b.on_topic b.batches e,
            refl,
          ))
          (λ f. ((b, e), ground arith))

    -- What one round receives.
    abbrev taken : Event → List GenericMessage
    taken (message m) = m ∷ []
    taken tick = []
    taken done = []

    sender_step-Sends :
        (before : List NativeMessage) (ms : List GenericMessage) (ev : Event) (s : Sender)
        → All (OnTopic topic) (taken ev)
        → Sends before ms s
        → Sends before (ms ++ taken ev) (sender_step fault batch_size ev s)
    unfolding sender_step
    sender_step-Sends before ms (message m) s o (b, e) =
        let s' : Sender = record s { buffer = s.buffer ++ m ∷ [] } in
        let e' = push_back (concat s.log) before s.buffer ms m e in
        let o' = All-append (OnTopic topic) s.buffer (m ∷ []) b.on_topic o in
        let n = length-append s.buffer (m ∷ []) in
        if_elim (Sends before (ms ++ m ∷ [])) (leb batch_size (length s'.buffer)) _ s'
          (λ t.
            flush-Sends before (ms ++ m ∷ []) s.running s' (omega (arith, b.small))
              (omega (arith, n)) (omega (arith, n, b.small)) o' b.batches e')
          (λ f. (record { small = ground arith; on_topic = o'; batches = b.batches }, e'))
    sender_step-Sends before ms tick s o h =
        rw (append-nil ms) ((send_buffer-Sends before ms s h).0)
    sender_step-Sends before ms done s o h =
        let ((b, e), n) = send_buffer-Sends before ms s h in
        rw (append-nil ms) (
          record { small = omega (arith, b.small); on_topic = tt; batches = b.batches },
          ap (λ l. concat (send_buffer fault s).log ++ map kafka_message l)
                (sym (empty_of-length (send_buffer fault s).buffer n))
              ∙ e,
        )

    sender_step-running :
        (ev : Event) (s : Sender)
        → ev ≢ done
        → (sender_step fault batch_size ev s).running ≡ s.running
    unfolding sender_step
    sender_step-running (message m) s h =
        if_elim (λ (t : Sender). t.running ≡ s.running)
          (leb batch_size (length (s.buffer ++ m ∷ []))) _ _ (λ _. refl) (λ _. refl)
    sender_step-running tick s h =
        if_elim (λ (t : Sender). t.running ≡ s.running) (ltb 0 (length s.buffer)) _ s (λ _. refl)
          (λ _. refl)
    sender_step-running done s h = absurd (h refl)

    pub stopped_stays :
        (events : List Event) (s : Sender)
        → s.running ≡ false
        → send_availability_request_messages fault batch_size events s ≡ s
    unfolding send_availability_request_messages
    stopped_stays [] s h = refl
    stopped_stays (ev ∷ events) s h = if_elim (λ t. t ≡ s) s.running _ s (λ t. cc) (λ _. refl)

    run-Sends :
        (events : List Event) (before : List NativeMessage) (ms : List GenericMessage) (s : Sender)
        → All (OnTopic topic) (received events)
        → s.running ≡ true
        → Sends before ms s
        → Sends before
            (ms ++ received events)
            (send_availability_request_messages fault batch_size events s)
    unfolding send_availability_request_messages
    run-Sends [] before ms s o h k = rw (append-nil ms) k
    run-Sends (message m ∷ events) before ms s o h k =
        if_elim (Sends before (ms ++ m ∷ received events)) s.running _ s
          (λ _. rw (sym (append_assoc ms (m ∷ []) (received events))) (
            run-Sends events before (ms ++ m ∷ []) (sender_step fault batch_size (message m) s) o.1
              (sender_step-running (message m) s (cc) ∙ h)
              (sender_step-Sends before ms (message m) s (o.0, tt) k)))
          (λ f. absurd (cc))
    run-Sends (tick ∷ events) before ms s o h k =
        if_elim (Sends before (ms ++ received events)) s.running _ s
          (λ _.
            run-Sends events before ms (sender_step fault batch_size tick s) o
              (sender_step-running tick s (cc) ∙ h)
              (rw (append-nil ms) at (sender_step-Sends before ms tick s tt k)))
          (λ f. absurd (cc))
    run-Sends (done ∷ events) before ms s o h k =
        if_elim (Sends before (ms ++ [])) s.running _ s
          (λ _.
            rw (stopped_stays events (sender_step fault batch_size done s) refl)
              (sender_step-Sends before ms done s tt k))
          (λ f. absurd (cc))

stopped_empty :
    (batch_size : ℕ) (fault : ℕ → Option Error) (events : List Event) (s : Sender)
    → s.running ≡ true
    → (send_availability_request_messages fault batch_size events s).running ≡ false
    → (send_availability_request_messages fault batch_size events s).buffer ≡ []
unfolding send_availability_request_messages sender_step
stopped_empty batch_size fault [] s h = λ k. absurd (cc)
stopped_empty batch_size fault (ev ∷ events) s h =
    if_elim (λ (t : Sender). t.running ≡ false → t.buffer ≡ []) s.running _ s
      (λ _.
        elim (ev)
          as (λ v.
            (send_availability_request_messages fault batch_size events
                (sender_step fault batch_size v s)).running
              ≡ false
            → (send_availability_request_messages fault batch_size events
                (sender_step fault batch_size v s)).buffer
              ≡ []) [
                | message m ↦
                    stopped_empty batch_size fault events _
                      (sender_step-running batch_size "" fault (message m) s (cc) ∙ h)
                | tick ↦
                    stopped_empty batch_size fault events _
                      (sender_step-running batch_size "" fault tick s (cc) ∙ h)
                | done ↦ λ k.
                    ap (λ (t : Sender). t.buffer)
                      (stopped_stays batch_size "" fault events
                        (sender_step fault batch_size done s) refl)
              ])
      (λ f. absurd (cc))

-- If no call fails Kafka got all batches.
delivered-all :
    (fault : ℕ → Option Error)
    → ((i : ℕ) → fault i ≡ none)
    → (i : ℕ) (log : Log) → delivered fault i log ≡ log
unfolding delivered
delivered-all fault good i [] = refl
delivered-all fault good i (batch ∷ log) =
    rw (good i, delivered) (ap (λ l. batch ∷ l) (delivered-all fault good (i + 1) log))

-- Let all messages be for one topic. Whatever Kafka answers and wherever the ticks fall, the loop keeps
-- fewer messages than the batch size and hands WriteMessages batches that are not empty and not larger than
-- it. What it handed over, once and whether the call failed or not, and what it keeps are the messages that
-- it took from the channel, each once and in order. So if no call fails Kafka got all of them but those
-- that are kept. Where the context ended, nothing is kept.
pub send_availability_request_messages-IsBatched :
    (fault : ℕ → Option Error) (batch_size : ℕ) (topic : String) (events : List Event)
    → 0 < batch_size
    → All (OnTopic topic) (received events)
    → let s = send_availability_request_messages fault batch_size events idle in
      IsBatched batch_size topic s
      × (concat s.log ++ map kafka_message s.buffer ≡ map kafka_message (received events))
      × (((i : ℕ) → fault i ≡ none)
          → concat (delivered fault 0 s.log) ++ map kafka_message s.buffer
            ≡ map kafka_message (received events))
      × ((s.running ≡ true) ⊎ (s.buffer ≡ []))
send_availability_request_messages-IsBatched fault batch_size topic events p o =
    let start : IsBatched batch_size topic idle = record {
      small = p;
      on_topic = tt;
      batches = tt;
    } in
    let (b, e) = run-Sends batch_size topic fault events [] [] idle o refl (start, refl) in
    (
      b,
      e,
      λ good. rw (delivered-all fault good 0 _) e,
      elim (Bool-cases (send_availability_request_messages fault batch_size events idle).running) [
        | inl r ↦ inl r
        | inr f ↦ inr (stopped_empty batch_size fault events idle refl f)
      ],
    )
