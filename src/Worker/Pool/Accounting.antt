-- ===== src/Worker/Pool/Accounting.antt =====
-- Where every job is, under any interleaving.
use provisioning_backend.Common.{
  ℕ, zero, suc, ◌+◌, ◌≤◌, ◌≡◌, refl, Bool, true, false, Option, none, some, List, [], ◌∷◌,
  if◌then◌else◌, get_elem?, set, replicate, arith, if_elim, ◌||◌,
}
use provisioning_backend.Models.{Job}
use provisioning_backend.Dao.Rows.{count}
use provisioning_backend.Worker.Pool.{
  Poller, selecting, fetching, stopped, popped, running, System, Event, enqueue, turn, stop, cancel,
  blpop, act, step, run, dequeue_loop,
}

abbrev pub total : (Poller → ℕ) → List Poller → ℕ
total f [] = 0
total f (p ∷ ps) = f p + total f ps

-- Whether the goroutine holds a job of the kind `m`, and whether it is in a handler.
abbrev pub held : (Job → Bool) → Poller → ℕ
held m (popped job) = if m job then 1 else 0
held m (running job) = if m job then 1 else 0
held m _ = 0

abbrev pub in_handler : Poller → ℕ
in_handler (running job) = 1
in_handler _ = 0

pub total-set :
    (f : Poller → ℕ) (ps : List Poller) (i : ℕ) (p q : Poller)
    → get_elem? ps i ≡ some p
    → total f (set ps i q) + f p ≡ total f ps + f q
total-set f [] i p q e = absurd (cc)
total-set f (x ∷ ps) zero p q e = let same : x ≡ p = cc in rw same (omega arith)
total-set f (x ∷ ps) (suc i) p q e = omega (arith, total-set f ps i p q e)

total-replicate : (f : Poller → ℕ) (n : ℕ) → f selecting ≡ 0 → total f (replicate n selecting) ≡ 0
total-replicate f zero h = refl
total-replicate f (suc n) h = omega (arith, total-replicate f n h)

-- Of the jobs of a kind, each that was enqueued is on the list, with a goroutine, or ended; and the jobs in
-- flight are those in a handler.
pub record Accounted (m : Job → Bool) (s : System) : Type 0 where
  pub jobs : count m s.enqueued ≡ count m s.queue + total (held m) s.pollers + count m s.ended
  pub flying : s.in_flight ≡ total in_handler s.pollers

module _ (m : Job → Bool) where
  abbrev Kept : Poller → System → Poller × System → Type 0
  Kept p s (q, s') =
      (s'.enqueued ≡ s.enqueued)
      × (s'.pollers ≡ s.pollers)
      × (count m s'.queue + held m q + count m s'.ended
          ≡ count m s.queue + held m p + count m s.ended)
      × (s'.in_flight + in_handler p ≡ s.in_flight + in_handler q)

  act-Kept :
      (p : Poller) (answered : Bool) (s : System)
      → in_handler p ≤ s.in_flight
      → Kept p s (act p answered s)
  unfolding act
  act-Kept selecting answered s h =
      if_elim (Kept selecting s) (s.closed || s.canceled) (stopped, s) (fetching, s)
        (λ _. (refl, refl, refl, refl)) (λ _. (refl, refl, refl, refl))
  act-Kept fetching answered s h = by_list answered s.queue refl
    where
      by_list : (a : Bool) (jobs : List Job) → s.queue ≡ jobs → Kept fetching s (blpop a jobs s)
      by_list true (job ∷ rest) e = (refl, refl, rw e (ground arith), refl)
      by_list true [] e = (refl, refl, refl, refl)
      by_list false jobs e = (refl, refl, refl, refl)
  act-Kept (popped job) answered s h = (refl, refl, refl, omega arith)
  act-Kept (running job) answered s h = (refl, refl, ground arith, omega arith)
  act-Kept stopped answered s h = (refl, refl, refl, refl)

  turn-Accounted :
      (s s' : System) (i : ℕ) (p q : Poller)
      → get_elem? s.pollers i ≡ some p
      → Kept p s (q, s')
      → Accounted m s
      → Accounted m (record s' { pollers = set s.pollers i q })
  turn-Accounted s s' i p q e (enqueued, same, jobs, flying) a =
      let moved = total-set (held m) s.pollers i p q e in
      let moved' = total-set in_handler s.pollers i p q e in
      record { jobs = rw enqueued (omega (arith, a.jobs)); flying = omega (arith, a.flying) }

  in_handler-le :
      (ps : List Poller) (i : ℕ) (p : Poller)
      → get_elem? ps i ≡ some p
      → in_handler p ≤ total in_handler ps
  in_handler-le [] i p e = absurd (cc)
  in_handler-le (x ∷ ps) zero p e = let same : x ≡ p = cc in rw same (omega arith)
  in_handler-le (x ∷ ps) (suc i) p e = omega (arith, in_handler-le ps i p e)

  step-Accounted : (s : System) (ev : Event) → Accounted m s → Accounted m (step s ev)
  unfolding step
  step-Accounted s (enqueue job) a = record { jobs = ground (arith, a.jobs); flying = a.flying }
  step-Accounted s stop a = record { jobs = a.jobs; flying = a.flying }
  step-Accounted s cancel a = record { jobs = a.jobs; flying = a.flying }
  step-Accounted s (turn i answered) a = by_poller (get_elem? s.pollers i) refl
    where
      by_poller :
          (o : Option Poller)
          → get_elem? s.pollers i ≡ o
          → Accounted m (elim o [
            | none ↦ s
            | some p ↦ let (q, s') = act p answered s in record s' { pollers = set s.pollers i q }
          ])
      by_poller none e = a
      by_poller (some p) e =
          let started = in_handler-le s.pollers i p e in
          turn-Accounted s (act p answered s).1 i p (act p answered s).0 e
            (act-Kept p answered s (omega (arith, a.flying))) a

  run_keeps-Accounted :
      (s : System) (events : List Event) → Accounted m s → Accounted m (run s events)
  unfolding run
  run_keeps-Accounted s [] a = a
  run_keeps-Accounted s (ev ∷ events) a =
      run_keeps-Accounted (step s ev) events (step-Accounted s ev a)

-- Whatever the goroutines, the enqueuers, Redis, Stop and the context do and in whatever order, each job of any
-- kind that was ever enqueued is, exactly once, on the list, with one goroutine, or ended; and the number of jobs
-- in flight is the number of goroutines in a handler.
pub run-dequeue_loop-Accounted :
    (m : Job → Bool) (concurrency : ℕ) (queue : List Job) (events : List Event)
    → Accounted m (run (dequeue_loop concurrency queue) events)
unfolding dequeue_loop
run-dequeue_loop-Accounted m concurrency queue events =
    run_keeps-Accounted m (dequeue_loop concurrency queue) events (record {
      jobs = omega (arith, total-replicate (held m) concurrency refl);
      flying = omega (arith, total-replicate in_handler concurrency refl);
    })
