-- ===== src/Jobs/Common.antt =====
-- internal/jobs/common.go: the end of a job, the status of a reservation before and after a step,
-- and retries. The deadline of the job's context is read at the number of calls made so far.
use provisioning_backend.Common.{
  ℕ, String, Bool, true, false, ◌||◌, List, [], ◌∷◌, if◌then◌else◌, leb,
}
use provisioning_backend.Errors.{Error, named, wrapped, deadline_exceeded}
use provisioning_backend.Models.{InstanceDescription}
use provisioning_backend.World.{
  Result, ok, err, M, pure, fail, lift, gets, attempt, annotate, ignore, on_context, copy_context,
  ◌>>=◌, ◌>>◌,
}
use provisioning_backend.Dao.Reservations
use provisioning_backend.Notifications.{successful_launch, failed_launch}

-- The calls of finishWithSuccess, in its context.
unfoldable pub record_success : ℕ → M (Unit {0})
record_success reservation_id = ignore (do
  reservation ← Reservations.get_by_id reservation_id
  if leb reservation.steps reservation.step
      then Reservations.finish_with_success reservation_id
      else pure tt)

unfoldable pub finish_with_success : ℕ → M (Unit {0})
unfolding record_success
finish_with_success reservation_id = copy_context (record_success reservation_id)

-- The calls of finishWithError, in its context.
unfoldable pub record_error : ℕ → Error → M (Unit {0})
record_error reservation_id job_error = ignore (do
  Reservations.get_by_id reservation_id
  Reservations.finish_with_error reservation_id job_error)

unfoldable pub finish_with_error : ℕ → Error → M (Unit {0})
unfolding record_error
finish_with_error reservation_id job_error = copy_context (record_error reservation_id job_error)

-- A nil error is `ok tt`.
unfoldable pub finish_job : ℕ → Result (Unit {0}) → M (Unit {0})
finish_job reservation_id (ok a) = finish_with_success reservation_id
finish_job reservation_id (err x) = finish_with_error reservation_id x

-- The end of a handler whose last step returned the result.
unfoldable pub notify_and_finish : ℕ → Result (Unit {0}) → M (Unit {0})
notify_and_finish id (ok a) = do successful_launch id; finish_job id (ok a)
notify_and_finish id (err x) = do failed_launch id x; finish_job id (err x)

-- A step of a handler that is not the last one, and what follows it if the step returned nil.
unfoldable pub unless_failed : ℕ → Result (Unit {0}) → M (Unit {0}) → M (Unit {0})
unless_failed id (ok a) next = next
unless_failed id (err x) next = do finish_with_error id x; failed_launch id x

unfoldable pub update_status_after : ℕ → String → ℕ → M (Unit {0})
update_status_after id status add_steps = do
  timeout ← gets λ e w. e.expired w.calls
  copy_context
      (ignore (Reservations.update_status id (if timeout then "Timeout" else status) add_steps))

unfoldable pub update_status_before : ℕ → String → M (Unit {0})
unfolding update_status_after
update_status_before id status = update_status_after id status 0

-- A step: updateStatusBefore, a deferred updateStatusAfter that adds 1, and the body.
unfoldable pub with_status : ℕ → String → String → M (Unit {0}) → M (Unit {0})
unfolding update_status_before
with_status id before after body = do
  update_status_before id before
  r ← attempt (on_context body)
  update_status_after id after 1
  lift r

unfoldable pub nil_unless_timeout : M (Unit {0})
nil_unless_timeout = do
  timeout ← gets λ e w. e.expired w.calls
  if timeout then fail (wrapped "context timeout" (named deadline_exceeded)) else pure tt

abbrev pub is_ok : {A : Type 0} → Result A → Bool
is_ok (ok a) = true
is_ok (err x) = false

-- The rounds of waitAndRetry; `last` is the error of the round before.
unfoldable pub retry_rounds : {A : Type 0} → M A → List ℕ → Result A → M A
retry_rounds f [] last = lift last
retry_rounds f (interval ∷ intervals) last = do
  r ← attempt f
  canceled ← gets λ e w. e.canceled w.calls
  let rest = retry_rounds f intervals r
  if is_ok r || canceled then lift r else rest

-- waitAndRetry. Sleeping changes nothing; with less than two intervals it panics, which no caller
-- does, so the first two are arguments.
unfoldable pub wait_and_retry : {A : Type 0} → M A → ℕ → ℕ → List ℕ → M A
unfolding retry_rounds
wait_and_retry f first second intervals = do
  r ← attempt f
  canceled ← gets λ e w. e.canceled w.calls
  let rest = retry_rounds f (second ∷ intervals) r
  if is_ok r || canceled then lift r else rest

-- A record for each instance that the cloud created.
unfoldable pub create_instances : ℕ → List InstanceDescription → M (Unit {0})
create_instances reservation_id [] = pure tt
create_instances reservation_id (d ∷ ds) = do
  annotate "cannot create instance reservation" (
      Reservations.create_instance (record {
        reservation_id = reservation_id;
        instance_id = d.id;
        detail = record { public_dns = d.public_dns; public_ipv4 = d.public_ipv4 };
      }))
  create_instances reservation_id ds

-- An instance of which only the id is known.
abbrev pub only_id : String → InstanceDescription
only_id id = record { id = id; public_dns = ""; public_ipv4 = "" }
