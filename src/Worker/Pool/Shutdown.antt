-- ===== src/Worker/Pool/Shutdown.antt =====
-- What is left when the goroutines have returned.
use provisioning_backend.Common.{
  ℕ, ◌+◌, ◌-◌, ◌≤◌, ◌<◌, ◌≡◌, refl, ◌∙◌, Bool, true, false, Bool-cases, Option, none, some, inl,
  inr, List, [], ◌∷◌, ◌++◌, if◌then◌else◌, length-set, length-replicate, get_elem?-set,
  get_elem?_below, All-get_elem?, lt-length-get_elem?, get_elem?, set, length, All, arith, if_elim,
  ◌||◌, ◌==◌, ==_iff,
}
use provisioning_backend.Models.{Job}
use provisioning_backend.Dao.Rows.{count}
use provisioning_backend.Worker.Pool.{
  Poller, selecting, fetching, stopped, popped, running, System, Event, enqueue, turn, stop, cancel,
  blpop, act, step, run, dequeue_loop,
}
use provisioning_backend.Worker.Pool.Accounting.{
  total, held, in_handler, run-dequeue_loop-Accounted,
}

-- How many turns a goroutine needs to return once it may.
abbrev rank : Poller → ℕ
rank stopped = 0
rank selecting = 1
rank (running job) = 2
rank (popped job) = 3
rank fetching = 4

-- The number of turns of the goroutine `i`.
abbrev pub turns : ℕ → List Event → ℕ
turns i [] = 0
turns i (turn j answered ∷ events) = if j == i then turns i events + 1 else turns i events
turns i (ev ∷ events) = turns i events

-- A turn leaves the flags and the other goroutines, and lowers the rank once the flags are set.
abbrev Falls : Poller → System → Poller × System → Type 0
Falls p s (q, s') =
    (s'.closed ≡ s.closed)
    × (s'.canceled ≡ s.canceled)
    × (s'.pollers ≡ s.pollers)
    × ((s.closed || s.canceled) ≡ true → rank q ≤ rank p - 1)

act-Falls : (p : Poller) (answered : Bool) (s : System) → Falls p s (act p answered s)
unfolding act
act-Falls selecting answered s =
    if_elim (Falls selecting s) (s.closed || s.canceled) (stopped, s) (fetching, s)
      (λ _. (refl, refl, refl, λ _. omega arith))
      (λ e. (refl, refl, refl, λ f. absurd (ground arith)))
act-Falls fetching answered s = by_list answered s.queue
  where
    by_list : (a : Bool) (jobs : List Job) → Falls fetching s (blpop a jobs s)
    by_list true (job ∷ rest) = (refl, refl, refl, λ _. omega arith)
    by_list true [] = (refl, refl, refl, λ _. omega arith)
    by_list false jobs = (refl, refl, refl, λ _. omega arith)
act-Falls (popped job) answered s = (refl, refl, refl, λ _. omega arith)
act-Falls (running job) answered s = (refl, refl, refl, λ _. omega arith)
act-Falls stopped answered s = (refl, refl, refl, λ _. omega arith)

abbrev Closing : System → Type 0
Closing s = (s.closed || s.canceled) ≡ true

-- The goroutine `i` after an event: its rank falls by its turns.
abbrev Nearer : System → ℕ → ℕ → ℕ → Type 0
Nearer s i r n = (q : Poller) × (get_elem? s.pollers i ≡ some q) × (rank q ≤ r - n)

step-Nearer :
    (s : System) (ev : Event) (i : ℕ) (p : Poller)
    → Closing s
    → get_elem? s.pollers i ≡ some p
    → Closing (step s ev) × Nearer (step s ev) i (rank p) (turns i (ev ∷ []))
unfolding step
step-Nearer s (enqueue job) i p c e = (c, (p, e, omega arith))
step-Nearer s stop i p c e = (ground arith, (p, e, omega arith))
step-Nearer s cancel i p c e = (ground arith, (p, e, omega arith))
step-Nearer s (turn j answered) i p c e = by_poller (get_elem? s.pollers j) refl
  where
    by_poller :
        (o : Option Poller)
        → get_elem? s.pollers j ≡ o
        → let s' : System = elim o [
          | none ↦ s
          | some x ↦ let (q, t) = act x answered s in record t { pollers = set s.pollers j q }
        ] in
          Closing s' × Nearer s' i (rank p) (turns i (turn j answered ∷ []))
    by_poller none f = elim (Bool-cases (j == i)) [
      | inl t ↦
          let same : j ≡ i = (==_iff j i).0 t in
          let g : get_elem? s.pollers i ≡ none = rw same at f in absurd (cc)
      | inr t ↦ (c, (p, e, rw t (omega arith)))
    ]
    by_poller (some x) f =
        let (closed, canceled, same, falls) = act-Falls x answered s in
        let found = get_elem?-set s.pollers j i (act x answered s).0 p e in
        let c' : ((act x answered s).1.closed || (act x answered s).1.canceled) ≡ true =
          rw closed (rw canceled c) in
        elim (Bool-cases (j == i)) [
          | inl t ↦
              let at_i : j ≡ i = (==_iff j i).0 t in
              let g : get_elem? s.pollers i ≡ some x = rw at_i at f in
              let y : x ≡ p = cc in
              let low : rank (act x answered s).0 ≤ rank x - 1 = falls c in
              (c', ((act x answered s).0, rw t at found, rw t (rw (← y) low)))
          | inr t ↦ (c', (p, rw t at found, rw t (omega arith)))
        ]

turns-cons :
    (i : ℕ) (ev : Event) (events : List Event)
    → turns i (ev ∷ events) ≡ turns i (ev ∷ []) + turns i events
turns-cons i (enqueue job) events = omega arith
turns-cons i stop events = omega arith
turns-cons i cancel events = omega arith
turns-cons i (turn j answered) events = ground arith

run-Nearer :
    (s : System) (events : List Event) (i : ℕ) (p : Poller)
    → Closing s
    → get_elem? s.pollers i ≡ some p
    → Nearer (run s events) i (rank p) (turns i events)
unfolding run
run-Nearer s [] i p c e = (p, e, omega arith)
run-Nearer s (ev ∷ events) i p c e =
    let (c', (q, f, low)) = step-Nearer s ev i p c e in
    let (r, g, lower) = run-Nearer (step s ev) events i q c' f in
    (r, g, omega (arith, turns-cons i ev events))

length-step : (s : System) (ev : Event) → length (step s ev).pollers ≡ length s.pollers
unfolding step
length-step s (enqueue job) = refl
length-step s stop = refl
length-step s cancel = refl
length-step s (turn i answered) = by_poller (get_elem? s.pollers i)
  where
    by_poller :
        (o : Option Poller)
        → let s' : System = elim o [
          | none ↦ s
          | some x ↦ let (q, t) = act x answered s in record t { pollers = set s.pollers i q }
        ] in
          length s'.pollers ≡ length s.pollers
    by_poller none = refl
    by_poller (some x) = length-set s.pollers i (act x answered s).0

length-run : (s : System) (events : List Event) → length (run s events).pollers ≡ length s.pollers
unfolding run
length-run s [] = refl
length-run s (ev ∷ events) = omega (arith, length-run (step s ev) events, length-step s ev)

rank_zero : (p : Poller) → rank p ≤ 0 → p ≡ stopped
rank_zero stopped h = refl
rank_zero selecting h = absurd (omega arith)
rank_zero fetching h = absurd (omega arith)
rank_zero (popped job) h = absurd (omega arith)
rank_zero (running job) h = absurd (omega arith)

rank-le : (p : Poller) → rank p ≤ 4
rank-le stopped = omega arith
rank-le selecting = omega arith
rank-le fetching = omega arith
rank-le (popped job) = omega arith
rank-le (running job) = omega arith

total-stopped :
    (f : Poller → ℕ) (ps : List Poller) → f stopped ≡ 0 → All (λ p. p ≡ stopped) ps → total f ps ≡ 0
total-stopped f [] h k = refl
total-stopped f (p ∷ ps) h (e, k) = rw e (omega (arith, total-stopped f ps h k))

run-append : (s : System) (xs ys : List Event) → run s (xs ++ ys) ≡ run (run s xs) ys
unfolding run
run-append s [] ys = refl
run-append s (ev ∷ xs) ys = run-append (step s ev) xs ys

-- Once it may return, a goroutine that takes four turns has.
run-stopped :
    (s : System) (events : List Event) (i : ℕ) (p : Poller)
    → Closing s
    → 4 ≤ turns i events
    → get_elem? (run s events).pollers i ≡ some p
    → p ≡ stopped
run-stopped s events i p c h e =
    let below = lt-length-get_elem? (run s events).pollers i p e in
    let (p', f) = get_elem?_below s.pollers i (omega (arith, length-run s events)) in
    let (q, g, low) = run-Nearer s events i p' c f in
    let same : p ≡ q = cc in same ∙ rank_zero q (omega (arith, rank-le p'))

-- When the channel was closed, after any events, and each goroutine took four turns since, every goroutine has
-- returned, none is in flight, and every job that was enqueued is on the list or ended, exactly once.
pub run-stop-All :
    (m : Job → Bool) (concurrency : ℕ) (queue : List Job) (before after : List Event)
    → ((i : ℕ) → i < concurrency → 4 ≤ turns i after)
    → let s = run (dequeue_loop concurrency queue) (before ++ stop ∷ after) in
      All (λ p. p ≡ stopped) s.pollers
      × (s.in_flight ≡ 0)
      × (count m s.enqueued ≡ count m s.queue + count m s.ended)
unfolding run step dequeue_loop
run-stop-All m concurrency queue before after each =
    let events = before ++ stop ∷ after in
    let s = run (dequeue_loop concurrency queue) events in
    let closed = record (run (dequeue_loop concurrency queue) before) { closed = true } in
    let split : s ≡ run closed after =
      run-append (dequeue_loop concurrency queue) before (stop ∷ after) in
    let long : length s.pollers ≡ concurrency =
      length-run (dequeue_loop concurrency queue) events ∙ length-replicate concurrency selecting in
    let returned : All (λ p. p ≡ stopped) s.pollers =
      All-get_elem? (λ p. p ≡ stopped) s.pollers
        (λ i p e.
          run-stopped closed after i p refl
            (each i (omega (arith, lt-length-get_elem? s.pollers i p e))) (rw split at e)) in
    let a = run-dequeue_loop-Accounted m concurrency queue events in
    let none_held = total-stopped (held m) s.pollers refl returned in
    let none_runs = total-stopped in_handler s.pollers refl returned in
    (returned, omega (arith, a.flying), omega (arith, a.jobs))
