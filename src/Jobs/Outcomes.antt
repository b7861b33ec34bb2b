-- ===== src/Jobs/Outcomes.antt =====
-- What a handler of internal/jobs leaves behind of its reservation, and rules for its steps.
use provisioning_backend.Common.{
  ℕ, ◌+◌, ◌≤◌, ◌<◌, String, ◌≡◌, ◌∙◌, refl, sym, Bool, true, false, none, some, List, arith, ◌==◌,
}
use provisioning_backend.Errors.{Error}
use provisioning_backend.Models.{Reservation}
use provisioning_backend.World.{
  Result, ok, err, State, World, Env, Notice, launch_success, launch_failed, M, attempt, live,
  continue, ◌>>=◌, ◌>>◌,
}
use provisioning_backend.World.Keeps.{Keeps}
use provisioning_backend.Dao.Rows.{update, filter, has_id}
use provisioning_backend.Jobs.Common.{finish_job, with_status, notify_and_finish, unless_failed}
use provisioning_backend.Jobs.Progress.{
  Answers, Stored, InProgress, Untouched, set_rows, Stored-update, with_status-InProgress,
}
use provisioning_backend.Jobs.Endings.{
  notified, with_notices, end_success, end_error, finish_with_error_lem, finish_with_success_lem,
  failed_launch_lem, successful_launch_lem,
}

-- The end of a launch: success after all steps, and one notification that lists the instances.
pub record Succeeded (e : Env) (id steps : ℕ) (ns : List Notice) (late : Bool) (s : State)
    : Type 0 where
  pub row : Reservation
  pub stored : Stored e.account_id id row s.db.reservations
  pub step : row.step ≡ steps
  pub success : row.success ≡ some true
  pub no_error : row.error ≡ none
  pub told :
      s.notices
      ≡ notified late ns
          (launch_success row.provider id (filter (λ i. i.reservation_id == id) s.db.instances))

-- The end of a launch with an error, which the row holds and the one notification tells.
pub record Failed (e : Env) (id : ℕ) (ns : List Notice) (late : Bool) (x : Error) (s : State)
    : Type 0 where
  pub row : Reservation
  pub stored : Stored e.account_id id row s.db.reservations
  pub success : row.success ≡ some false
  pub error : row.error ≡ some x
  pub told : s.notices ≡ notified late ns (launch_failed row.provider id x)

-- The reservation and the notifications agree with the result of the steps, and with the deadline
-- before or after the end of the steps.
abbrev pub Outcome : Env → ℕ → ℕ → List Notice → Result (Unit {0}) × World → State → Type 0
Outcome e id steps ns (ok a, w) s = Succeeded e id steps ns (e.expired w.calls) s
Outcome e id steps ns (err x, w) s = Failed e id ns (e.expired w.calls) x s

-- The deadline does not pass during the calls of the end of a handler, which are at most five: it passed
-- before the first of them, or passes behind the last.
abbrev pub Settled : Env → World → Type 0
Settled e w = (n : ℕ) → w.calls ≤ n → n < w.calls + 5 → e.expired n ≡ e.expired w.calls

module _ {e : Env} (up : Answers e) (id : ℕ) {steps k : ℕ} {ns : List Notice} (w : World)
    (h : InProgress e id steps k ns w.state) (settled : Settled e w) where
  notify_and_finish-Outcome :
      (r : Result (Unit {0}))
      → k ≡ steps
      → Outcome e id steps ns (r, w) (notify_and_finish id r e w).1.state
  unfolding notify_and_finish ◌>>=◌ finish_job
  notify_and_finish-Outcome (ok a) last =
      let notice =
        launch_success h.row.provider id (filter (λ i. i.reservation_id == id) w.db.instances) in
      let (n, from, to, told) =
        successful_launch_lem up id w h.stored (λ n a b. settled n a (omega arith)) in
      let w' = with_notices w n (notified (e.expired w.calls) w.notices notice) in
      let f = end_success e (n + 1) in
      rw told (
        rw
          (finish_with_success_lem up id w' h.stored
            (λ m a b. settled m (omega arith) (omega arith) ∙ sym (settled n from (omega arith)))
            (omega (arith, h.done, h.total)))
          (record {
            row = f h.row;
            stored = Stored-update up id f (λ x. refl) (λ x. refl) h.stored;
            step = omega (arith, h.done);
            success = refl;
            no_error = h.no_error;
            told = rw h.told refl;
          }))
  notify_and_finish-Outcome (err x) last =
      let (n, from, to, told) =
        failed_launch_lem up id w h.stored (λ n a b. settled n a (omega arith)) x in
      let w' =
        with_notices w n
          (notified (e.expired w.calls) w.notices (launch_failed h.row.provider id x)) in
      let f = end_error e (n + 1) x in
      rw told (
        rw
          (finish_with_error_lem up id w' h.stored
            (λ m a b. settled m (omega arith) (omega arith) ∙ sym (settled n from (omega arith))) x)
          (record {
            row = f h.row;
            stored = Stored-update up id f (λ y. refl) (λ y. refl) h.stored;
            success = refl;
            error = refl;
            told = rw h.told refl;
          }))

  -- The end after a step that is not the last one.
  unless_failed-Failed :
      (x : Error) (next : M (Unit {0}))
      → Failed e id ns (e.expired w.calls) x (unless_failed id (err x) next e w).1.state
  unfolding unless_failed ◌>>=◌
  unless_failed-Failed x next =
      let f = end_error e (w.calls + 1) x in
      let stored = Stored-update up id f (λ y. refl) (λ y. refl) h.stored in
      let w' =
        set_rows (record w { calls = w.calls + 1 }) (update (has_id id) f w.db.reservations) in
      let same : e.expired w'.calls ≡ e.expired w.calls =
        settled w'.calls (omega arith) (omega arith) in
      let (n, from, to, told) =
        failed_launch_lem up id w' stored
          (λ m a b. settled m (omega arith) (omega arith) ∙ sym same) x in
      rw (finish_with_error_lem up id w h.stored (λ n a b. settled n a (omega arith)) x) (
        rw told (record {
          row = f h.row;
          stored = stored;
          success = refl;
          error = refl;
          told = rw (same, h.told) refl;
        }))

-- An action that does one step of the reservation, whatever its result.
pub record Advances (e : Env) (id steps k : ℕ) (m : M (Unit {0})) : Type 0 where
  pub at :
      (ns : List Notice) (w : World)
      → InProgress e id steps k ns w.state
      → InProgress e id steps (k + 1) ns (m e w).1.state

-- A handler whose end agrees with the result of the steps `m`, if the deadline does not pass during it.
pub record Concludes (e : Env) (id steps k : ℕ) (m handler : M (Unit {0})) : Type 0 where
  pub at :
      (ns : List Notice) (w : World)
      → InProgress e id steps k ns w.state
      → Settled e (m e w).1
      → Outcome e id steps ns (m e w) (handler e w).1.state

module _ {e : Env} (up : Answers e) {id steps : ℕ} where
  pub with_status-Advances :
      (k : ℕ) (before after : String) (body : M (Unit {0}))
      → ((rows : List Reservation) (ms : List Notice) → Keeps (live e) (Untouched rows ms) body)
      → Advances e id steps k (with_status id before after body)
  with_status-Advances k before after body keeps = record {
    at = λ ns w h. with_status-InProgress up id before after body w keeps h;
  }

  pub last-Concludes :
      (k : ℕ) (m : M (Unit {0}))
      → k + 1 ≡ steps
      → Advances e id steps k m
      → Concludes e id steps k m (attempt m >>= λ r. notify_and_finish id r)
  unfolding ◌>>=◌ attempt
  last-Concludes k m last a = record {
    at = λ ns w h st. notify_and_finish-Outcome up id (m e w).1 (a.at ns w h) st (m e w).0 last;
  }

  first_result :
      (k : ℕ) (m rest : M (Unit {0}))
      → Concludes e id steps k m rest
      → (r : Result (Unit {0})) (ns : List Notice) (w : World) → InProgress e id steps k ns w.state
      → Settled e (continue r (λ _. m) e w).1
      → Outcome e id steps ns (continue r (λ _. m) e w) (unless_failed id r rest e w).1.state
  unfolding unless_failed
  first_result k m rest c (ok a) ns w h st = c.at ns w h st
  first_result k m rest c (err x) ns w h st = unless_failed-Failed up id w h st x rest

  pub first-Concludes :
      (k : ℕ) (m n rest : M (Unit {0}))
      → Advances e id steps k m
      → Concludes e id steps (k + 1) n rest
      → Concludes e id steps k (m >> n) (attempt m >>= λ r. unless_failed id r rest)
  unfolding ◌>>=◌ attempt
  first-Concludes k m n rest a c = record {
    at = λ ns w h st. first_result (k + 1) n rest c (m e w).0 ns (m e w).1 (a.at ns w h) st;
  }
