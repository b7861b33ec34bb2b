-- ===== src/Jobs/Endings.antt =====
-- The end of a job (internal/jobs/common.go and internal/notifications): what its functions write before and after
-- the deadline of the context.
use provisioning_backend.Common.{
  ℕ, ◌+◌, ◌≤◌, ◌<◌, ◌≡◌, ◌∙◌, refl, Bool, Bool-cases, true, false, inl, inr, none, some, List, [],
  ◌∷◌, ◌++◌, arith, ◌==◌, leb, if◌then◌else◌,
}
use provisioning_backend.Errors.{Error, named, deadline_exceeded}
use provisioning_backend.Models.{Reservation}
use provisioning_backend.World.{
  Result, ok, World, Env, Notice, launch_success, launch_failed, attempt, ignore, check, modify,
  live, copied, on_context, copy_context, query, ◌>>=◌,
}
use provisioning_backend.Dao.Rows.{update, filter, has_id}
use provisioning_backend.Dao.Reservations
use provisioning_backend.Notifications.{
  tell_success, tell_failure, successful_launch, failed_launch,
}
use provisioning_backend.Jobs.Common.{
  record_success, record_error, finish_with_success, finish_with_error,
}
use provisioning_backend.Jobs.Progress.{
  Answers, Stored, set_rows, update_reservation_lem, get_by_id_lem, get_by_id-fault, live-fault,
  live-send, late-fault,
}

-- A notification of the end of a job, which is not sent once the deadline has passed: the notification
-- client works with the context of the job itself.
abbrev pub notified : Bool → List Notice → Notice → List Notice
notified late ns notice = if late then ns else ns ++ notice ∷ []

abbrev pub with_notices : World → ℕ → List Notice → World
with_notices w n ms = record w { state = record w.state { notices = ms }; calls = n }

abbrev pub end_success : Env → ℕ → Reservation → Reservation
end_success e n r = record r { success = some true; finished_at = some (e.now n) }

abbrev pub end_error : Env → ℕ → Error → Reservation → Reservation
end_error e n x r = record r { success = some false; error = some x; finished_at = some (e.now n) }

-- What the functions at the end of a job do in a context in which their calls succeed.
module _ (e : Env) (id : ℕ) (w : World) {row : Reservation}
    (h : Stored e.account_id id row w.db.reservations)
    (good : (n : ℕ) → w.calls ≤ n → n < w.calls + 2 → e.fault n ≡ none) where
  first : e.fault w.calls ≡ none
  first = good w.calls (omega arith) (omega arith)

  second : e.fault (w.calls + 1) ≡ none
  second = good (w.calls + 1) (omega arith) (omega arith)

  record_error_lem :
      (x : Error)
      → record_error id x e w ≡ (
        ok tt,
        set_rows
            (record w { calls = w.calls + 1 })
            (update (has_id id) (end_error e (w.calls + 1) x) w.db.reservations),
      )
  unfolding record_error ignore ◌>>=◌ Reservations.finish_with_error
  record_error_lem x = rw (get_by_id_lem e id w first h) (
      rw
        (update_reservation_lem e id (λ e n. end_error e n x) (record w { calls = w.calls + 1 })
          second h.unique)
        refl)

  record_success_lem :
      row.steps ≤ row.step
      → record_success id e w ≡ (
        ok tt,
        set_rows
            (record w { calls = w.calls + 1 })
            (update (has_id id) (end_success e (w.calls + 1)) w.db.reservations),
      )
  unfolding record_success ignore ◌>>=◌ Reservations.finish_with_success
  record_success_lem le =
      let last : leb row.steps row.step ≡ true = ground arith in
      rw (get_by_id_lem e id w first h) (
        rw (last) (
          rw
            (update_reservation_lem e id end_success (record w { calls = w.calls + 1 }) second
              h.unique)
            refl))

  module _ (sent : (n : ℕ) → w.calls ≤ n → n < w.calls + 3 → e.send_fault n ≡ none) where
    tell_failure_lem :
        (x : Error)
        → tell_failure id x e w ≡ (
          ok tt,
          with_notices w (w.calls + 1 + 1) (w.notices ++ launch_failed row.provider id x ∷ []),
        )
    unfolding tell_failure ignore ◌>>=◌ modify check
    tell_failure_lem x =
        rw (get_by_id_lem e id w first h) (rw (sent (w.calls + 1) (omega arith) (omega arith)) refl)

    tell_success_lem : tell_success id e w ≡ (
      ok tt,
      with_notices w (w.calls + 1 + 1 + 1) (
          w.notices
          ++ launch_success row.provider id (filter (λ i. i.reservation_id == id) w.db.instances)
            ∷ []),
    )
    unfolding tell_success ignore ◌>>=◌ modify check Reservations.list_instances query attempt
    tell_success_lem =
        rw (get_by_id_lem e id w first h)
          (rw second (rw (h.found) (rw (sent (w.calls + 1 + 1) (omega arith) (omega arith)) refl)))

-- What the notification client does in a context in which its first call fails.
module _ (e : Env) (id : ℕ) (w : World) (x : Error) (bad : e.fault w.calls ≡ some x) where
  tell_failure-fault :
      (y : Error) → tell_failure id y e w ≡ (ok tt, record w { calls = w.calls + 1 })
  unfolding tell_failure ignore ◌>>=◌
  tell_failure-fault y = rw (get_by_id-fault e id w x bad) refl

  tell_success-fault : tell_success id e w ≡ (ok tt, record w { calls = w.calls + 1 })
  unfolding tell_success ignore ◌>>=◌
  tell_success-fault = rw (get_by_id-fault e id w x bad) refl

-- The same functions in the context of a job, before and after its deadline.
module _ {e : Env} (up : Answers e) (id : ℕ) (w : World) {row : Reservation}
    (h : Stored e.account_id id row w.db.reservations)
    (still : (n : ℕ) → w.calls ≤ n → n < w.calls + 2 → e.expired n ≡ e.expired w.calls) where
  early_fault :
      e.expired w.calls ≡ false → (n : ℕ) → w.calls ≤ n → n < w.calls + 2 → (live e).fault n ≡ none
  early_fault early n a b = live-fault up id n (still n a b ∙ early)

  pub finish_with_error_lem :
      (x : Error)
      → finish_with_error id x e w ≡ (
        ok tt,
        set_rows
            (record w { calls = w.calls + 1 })
            (update (has_id id) (end_error e (w.calls + 1) x) w.db.reservations),
      )
  unfolding finish_with_error copy_context
  finish_with_error_lem x = elim (Bool-cases (e.expired w.calls)) [
    | inl late ↦ rw late (record_error_lem (copied e) id w h (λ n a b. up.fault n) x)
    | inr early ↦ rw early (record_error_lem (live e) id w h (early_fault early) x)
  ]

  pub finish_with_success_lem :
      row.steps ≤ row.step
      → finish_with_success id e w ≡ (
        ok tt,
        set_rows
            (record w { calls = w.calls + 1 })
            (update (has_id id) (end_success e (w.calls + 1)) w.db.reservations),
      )
  unfolding finish_with_success copy_context
  finish_with_success_lem le = elim (Bool-cases (e.expired w.calls)) [
    | inl late ↦ rw late (record_success_lem (copied e) id w h (λ n a b. up.fault n) le)
    | inr early ↦ rw early (record_success_lem (live e) id w h (early_fault early) le)
  ]

-- A notification is added before the deadline, and after it the first call fails.
abbrev pub Notified : Env → World → Notice → Result (Unit {0}) × World → Type 0
Notified e w notice out =
    (n : ℕ) × (w.calls ≤ n)
    × (n ≤ w.calls + 3)
    × (out ≡ (ok tt, with_notices w n (notified (e.expired w.calls) w.notices notice)))

module _ {e : Env} (up : Answers e) (id : ℕ) (w : World) {row : Reservation}
    (h : Stored e.account_id id row w.db.reservations)
    (still : (n : ℕ) → w.calls ≤ n → n < w.calls + 3 → e.expired n ≡ e.expired w.calls) where
  early_send :
      e.expired w.calls ≡ false
      → (n : ℕ) → w.calls ≤ n
      → n < w.calls + 3
      → (live e).send_fault n ≡ none
  early_send early n a b = live-send up id n (still n a b ∙ early)

  pub failed_launch_lem :
      (x : Error) → Notified e w (launch_failed row.provider id x) (failed_launch id x e w)
  unfolding failed_launch on_context
  failed_launch_lem x = elim (Bool-cases (e.expired w.calls)) [
    | inl late ↦ (
      w.calls + 1,
      omega arith,
      omega arith,
      rw late (
          tell_failure-fault (live e) id w (named deadline_exceeded) (late-fault up id w.calls late)
            x),
    )
    | inr early ↦ (
      w.calls + 1 + 1,
      omega arith,
      omega arith,
      rw early (
          tell_failure_lem (live e) id w h
            (λ n a b. early_fault up id w h (λ n a b. still n a (omega arith)) early n a b)
            (early_send early) x),
    )
  ]

  pub successful_launch_lem :
      Notified e w
        (launch_success row.provider id (filter (λ i. i.reservation_id == id) w.db.instances))
        (successful_launch id e w)
  unfolding successful_launch on_context
  successful_launch_lem = elim (Bool-cases (e.expired w.calls)) [
    | inl late ↦ (
      w.calls + 1,
      omega arith,
      omega arith,
      rw late (
          tell_success-fault (live e) id w (named deadline_exceeded)
            (late-fault up id w.calls late)),
    )
    | inr early ↦ (
      w.calls + 1 + 1 + 1,
      omega arith,
      omega arith,
      rw early (
          tell_success_lem (live e) id w h
            (λ n a b. early_fault up id w h (λ n a b. still n a (omega arith)) early n a b)
            (early_send early)),
    )
  ]
