-- ===== src/Worker/Pool.antt =====
-- The polling goroutines of RedisWorker (pkg/worker/redis.go): Enqueue, DequeueLoop, dequeueLoop, fetchJob,
-- processJob, Stop and Stats. A schedule is a list of events, so that every interleaving is one. What a handler
-- does stands in Worker; here it ends, by returning or by a panic that is recovered, when its turn comes. A job
-- is kept as it is: gob is not modelled.
pub mod Accounting
pub mod Shutdown
use provisioning_backend.Common.{
  ℕ, zero, suc, ◌+◌, ◌-◌, Bool, true, false, ◌||◌, Option, none, some, List, [], ◌∷◌, length,
  if◌then◌else◌, get_elem?, set, replicate,
}
use provisioning_backend.Errors.{Error, wrapped}
use provisioning_backend.Models.{Job}
use provisioning_backend.World.{Result, ok, err}

-- Where a goroutine stands: before the select, in BLPOP, with a job that is not counted yet, in the handler, or
-- returned.
pub data Poller : Type 0 where
  selecting fetching stopped : Poller
  popped running : Job → Poller

pub record System : Type 0 where
  -- the Redis list
  pub queue : List Job
  pub pollers : List Poller
  pub in_flight : ℕ
  -- closeCh is closed, and the context is done
  pub closed : Bool
  pub canceled : Bool
  -- what was pushed, and the jobs whose handlers ended
  pub enqueued : List Job
  pub ended : List Job

-- DequeueLoop, with its number of goroutines, on what the list holds.
unfoldable pub dequeue_loop : ℕ → List Job → System
dequeue_loop concurrency queue = record {
  queue = queue;
  pollers = replicate concurrency selecting;
  in_flight = 0;
  closed = false;
  canceled = false;
  enqueued = queue;
  ended = [];
}

-- BLPOP takes the head of the list, where Enqueue puts a job.
abbrev blpop : Bool → List Job → System → Poller × System
blpop true (job ∷ rest) s = (popped job, record s { queue = rest })
blpop true [] s = (selecting, s)
blpop false queue s = (selecting, s)

-- One turn of a goroutine in its phase; `answered` is false where BLPOP times out or fails.
unfoldable pub act : Poller → Bool → System → Poller × System
act selecting answered s = if s.closed || s.canceled then (stopped, s) else (fetching, s)
act fetching answered s = blpop answered s.queue s
act (popped job) answered s = (running job, record s { in_flight = s.in_flight + 1 })
act (running job) answered s =
    (selecting, record s { in_flight = s.in_flight - 1; ended = job ∷ s.ended })
act stopped answered s = (stopped, s)

pub data Event : Type 0 where
  enqueue : Job → Event
  turn : ℕ → Bool → Event
  stop cancel : Event

-- What one event does. Stop closes the channel; it returns once every goroutine has.
unfoldable pub step : System → Event → System
unfolding act
step s (enqueue job) = record s { queue = job ∷ s.queue; enqueued = job ∷ s.enqueued }
step s (turn i answered) = elim (get_elem? s.pollers i) [
  | none ↦ s
  | some p ↦ let (q, s') = act p answered s in record s' { pollers = set s.pollers i q }
]
step s stop = record s { closed = true }
step s cancel = record s { canceled = true }

unfoldable pub run : System → List Event → System
unfolding step
run s [] = s
run s (e ∷ events) = run (step s e) events

-- RedisWorker.Stats: the length of the list, unless LLEN fails, and the number of jobs in flight.
unfoldable pub stats : Option Error → System → Result (ℕ × ℕ)
stats none s = ok (length s.queue, s.in_flight)
stats (some x) s = err (wrapped "unable to get queue len" x)
