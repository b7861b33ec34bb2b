-- ===== src/Notifications.antt =====
-- The notification client of internal/notifications/notifications.go. A notification that cannot be
-- made or sent is only logged, as after the deadline of the context, of which no copy is made here; the marshalling of a message to JSON does not fail.
use provisioning_backend.Common.{ℕ, List, [], ◌∷◌, ◌++◌}
use provisioning_backend.Errors.{Error}
use provisioning_backend.World.{
  Result, ok, err, Notice, launch_success, launch_failed, M, attempt, check, ignore, on_context,
  modify, ◌>>=◌, ◌>>◌,
}
use provisioning_backend.Dao.Reservations.{get_by_id, list_instances}

-- kafka.Send
unfoldable pub send : Notice → M (Unit {0})
send notice = do
  check λ e n. e.send_fault n
  modify λ s. record s { notices = s.notices ++ notice ∷ [] }

abbrev pub or_empty : {A : Type 0} → Result (List A) → List A
or_empty (ok xs) = xs
or_empty (err x) = []

-- The calls of SuccessfulLaunch, in its context.
unfoldable pub tell_success : ℕ → M (Unit {0})
unfolding send
tell_success reservation_id = ignore (do
  reservation ← get_by_id reservation_id
  instances ← attempt (list_instances reservation_id)
  send (launch_success reservation.provider reservation_id (or_empty instances)))

unfoldable pub successful_launch : ℕ → M (Unit {0})
unfolding tell_success
successful_launch reservation_id = on_context (tell_success reservation_id)

-- The calls of FailedLaunch, in its context.
unfoldable pub tell_failure : ℕ → Error → M (Unit {0})
unfolding send
tell_failure reservation_id job_error = ignore (do
  reservation ← get_by_id reservation_id
  send (launch_failed reservation.provider reservation_id job_error))

unfoldable pub failed_launch : ℕ → Error → M (Unit {0})
unfolding tell_failure
failed_launch reservation_id job_error = on_context (tell_failure reservation_id job_error)
