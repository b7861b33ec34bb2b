-- ===== src/Examples/Workers.antt =====
-- Two goroutines of the worker, on schedules.
use provisioning_backend.Common.{
  ℕ, ◌+◌, ◌<◌, ◌≤◌, ◌≡◌, refl, zero, suc, true, false, none, List, [], ◌∷◌, ◌++◌, All, arith,
}
use provisioning_backend.World.{ok}
use provisioning_backend.Models.{Job, noop_args}
use provisioning_backend.Dao.Rows.{count}
use provisioning_backend.Worker.Pool.{Event, enqueue, turn, stop, stopped, run, dequeue_loop, stats}
use provisioning_backend.Worker.Pool.Accounting.{Accounted, run-dequeue_loop-Accounted}
use provisioning_backend.Worker.Pool.Shutdown.{turns, run-stop-All}

abbrev job : ℕ → Job
job n = record { account_id = n; args = noop_args (record { reservation_id = n; fail = false }) }

-- The first goroutine takes the job that was pushed last; the channel is closed while it holds it.
abbrev before : List Event
before = enqueue (job 1) ∷ enqueue (job 2) ∷ turn 0 true ∷ turn 1 true ∷ turn 0 true ∷ []

abbrev after : List Event
after =
    turn 0 true
    ∷ turn 1 false
    ∷ turn 0 true
    ∷ turn 0 true
    ∷ turn 1 true
    ∷ turn 0 true
    ∷ turn 1 true
    ∷ turn 1 true
    ∷ turn 1 true
    ∷ []

run-dequeue_loop-Accounted_example :
    Accounted (λ j. true) (run (dequeue_loop 2 []) (before ++ stop ∷ after))
run-dequeue_loop-Accounted_example =
    run-dequeue_loop-Accounted (λ j. true) 2 [] (before ++ stop ∷ after)

stats-run : stats none (run (dequeue_loop 2 []) (before ++ turn 0 true ∷ [])) ≡ ok (1, 1)
unfolding stats run dequeue_loop
stats-run = refl

each : (i : ℕ) → i < 2 → 4 ≤ turns i after
each zero h = omega arith
each (suc zero) h = omega arith
each (suc (suc i)) h = absurd (omega arith)

run-stop-All_example :
    let s = run (dequeue_loop 2 []) (before ++ stop ∷ after) in
    All (λ p. p ≡ stopped) s.pollers
    × (s.in_flight ≡ 0)
    × (count (λ j. true) s.enqueued ≡ count (λ j. true) s.queue + count (λ j. true) s.ended)
run-stop-All_example = run-stop-All (λ j. true) 2 [] before after each
