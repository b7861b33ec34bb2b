-- ===== src/Jobs/Progress.antt =====
-- The reservation of a job in the database while its job runs: lemmas on the functions of
-- Jobs/Common.antt, for a database that answers.
use provisioning_backend.Common.{
  ℕ, ◌+◌, String, ◌≡◌, refl, none, some, List, arith, Bool-cases, inl, inr, true, false,
  if◌then◌else◌,
}
use provisioning_backend.Errors.{Error, named, wrapped, deadline_exceeded}
use provisioning_backend.Models.{Reservation}
use provisioning_backend.World.{
  ok, err, State, World, Env, Notice, M, live, copied, on_context, copy_context, query, statement,
  ignore, attempt, ◌>>=◌,
}
use provisioning_backend.World.Keeps.{Keeps}
use provisioning_backend.Dao.Rows.{find, update, count, has_id, scoped, find-update, count-update}
use provisioning_backend.Dao.Reservations
use provisioning_backend.Dao.Reservations.{update_reservation}
use provisioning_backend.Jobs.Common.{update_status_after, with_status}

-- No call of the database or of Kafka fails but for the deadline of its context.
pub record Answers (e : Env) : Type 0 where
  pub fault : (n : ℕ) → e.fault n ≡ none
  pub send : (n : ℕ) → e.send_fault n ≡ none

-- The row of the reservation that its account sees, and that no other row has its id.
pub record Stored (account id : ℕ) (row : Reservation) (rows : List Reservation) : Type 0 where
  pub found : find (scoped account id) rows ≡ some row
  pub unique : count (has_id id) rows ≡ 1

-- The reservation after `k` of its `steps`, and the notices sent so far.
pub record InProgress (e : Env) (id steps k : ℕ) (ns : List Notice) (s : State) : Type 0 where
  pub row : Reservation
  pub stored : Stored e.account_id id row s.db.reservations
  pub total : row.steps ≡ steps
  pub done : row.step ≡ k
  pub unfinished : row.success ≡ none
  pub no_error : row.error ≡ none
  pub told : s.notices ≡ ns

-- What an action that is not about the reservation leaves alone.
pub record Untouched (rows : List Reservation) (ns : List Notice) (s : State) : Type 0 where
  pub rows_same : s.db.reservations ≡ rows
  pub told : s.notices ≡ ns

abbrev pub set_rows : World → List Reservation → World
set_rows w rows = record w {
  state = record w.state { db = record w.db { reservations = rows } };
  calls = w.calls + 1;
}

module _ (e : Env) (id : ℕ) where
  -- An update of a stored reservation, through the statement of the database.
  pub update_reservation_lem :
      (f : Env → ℕ → Reservation → Reservation) (w : World)
      → e.fault w.calls ≡ none
      → count (has_id id) w.db.reservations ≡ 1
      → update_reservation f id e w
        ≡ (ok tt, set_rows w (update (has_id id) (f e w.calls) w.db.reservations))
  unfolding update_reservation statement
  update_reservation_lem f w good h = rw (good, statement) (rw h refl)

  pub get_by_id_lem :
      (w : World) {row : Reservation}
      → e.fault w.calls ≡ none
      → Stored e.account_id id row w.db.reservations
      → Reservations.get_by_id id e w ≡ (ok row, record w { calls = w.calls + 1 })
  unfolding Reservations.get_by_id query
  get_by_id_lem w good h = rw (good, query) (rw h.found refl)

  pub get_by_id-fault :
      (w : World) (x : Error)
      → e.fault w.calls ≡ some x
      → Reservations.get_by_id id e w
        ≡ (err (wrapped "pgx error" x), record w { calls = w.calls + 1 })
  unfolding Reservations.get_by_id query
  get_by_id-fault w x bad = rw (bad, query) refl

  update_status_lem :
      (text : String) (add : ℕ) (w : World)
      → e.fault w.calls ≡ none
      → count (has_id id) w.db.reservations ≡ 1
      → ignore (Reservations.update_status id text add) e w ≡ (
        ok tt,
        set_rows w (
            update
              (has_id id)
              (λ r. record r { status = text; step = r.step + add })
              w.db.reservations),
      )
  unfolding Reservations.update_status ignore
  update_status_lem text add w good h =
      rw
        (update_reservation_lem (λ e' n r. record r { status = text; step = r.step + add }) w good
          h)
        refl

module _ {e : Env} (up : Answers e) (id : ℕ) where
  -- Before the deadline, a call with the context reaches the database and Kafka.
  pub live-fault : (n : ℕ) → e.expired n ≡ false → (live e).fault n ≡ none
  live-fault n early = rw early (up.fault n)

  pub live-send : (n : ℕ) → e.expired n ≡ false → (live e).send_fault n ≡ none
  live-send n early = rw early (up.send n)

  -- After it, the call fails.
  pub late-fault : (n : ℕ) → e.expired n ≡ true → (live e).fault n ≡ some (named deadline_exceeded)
  late-fault n late = rw late refl

  pub Stored-update :
      {row : Reservation} {rows : List Reservation} (f : Reservation → Reservation)
      → ((x : Reservation) → (f x).id ≡ x.id)
      → ((x : Reservation) → (f x).account_id ≡ x.account_id)
      → Stored e.account_id id row rows
      → Stored e.account_id id (f row) (update (has_id id) f rows)
  Stored-update {rows = rows} f ki ka h = record {
    found = find-update e.account_id id f rows ki ka h.found;
    unique = rw (count-update id f rows ki) h.unique;
  }

  -- The status is written whether the deadline has passed or not.
  update_status_after_lem :
      (status : String) (add : ℕ) (w : World)
      → count (has_id id) w.db.reservations ≡ 1
      → let text = if e.expired w.calls then "Timeout" else status in
        update_status_after id status add e w ≡ (
          ok tt,
          set_rows w (
              update
                (has_id id)
                (λ r. record r { status = text; step = r.step + add })
                w.db.reservations),
        )
  unfolding update_status_after ◌>>=◌ copy_context
  update_status_after_lem status add w h = elim (Bool-cases (e.expired w.calls)) [
    | inl late ↦ rw late (update_status_lem (copied e) id "Timeout" add w (up.fault w.calls) h)
    | inr early ↦ rw early (update_status_lem (live e) id status add w (live-fault w.calls early) h)
  ]

  pub update_status_after-InProgress :
      {steps k : ℕ} {ns : List Notice} (status : String) (add : ℕ) (w : World)
      → InProgress e id steps k ns w.state
      → InProgress e id steps (k + add) ns (update_status_after id status add e w).1.state
  update_status_after-InProgress status add w h =
      let text = if e.expired w.calls then "Timeout" else status in
      let f = λ (r : Reservation). record r { status = text; step = r.step + add } in
      rw (update_status_after_lem status add w h.stored.unique) (record {
        row = f h.row;
        stored = Stored-update f (λ x. refl) (λ x. refl) h.stored;
        total = h.total;
        done = omega (arith, h.done);
        unfinished = h.unfinished;
        no_error = h.no_error;
        told = h.told;
      })

  -- A step whose body leaves the reservations and the notices alone counts as one step, whether it
  -- fails or not.
  pub with_status-InProgress :
      {steps k : ℕ} {ns : List Notice} (before after : String) (body : M (Unit {0})) (w : World)
      → ((rows : List Reservation) (ms : List Notice) → Keeps (live e) (Untouched rows ms) body)
      → InProgress e id steps k ns w.state
      → InProgress e id steps (k + 1) ns (with_status id before after body e w).1.state
  unfolding with_status ◌>>=◌ on_context attempt copy_context
  with_status-InProgress {steps = steps} {k = k} {ns = ns} before after body w keeps h =
      let w1 = (update_status_after id before 0 e w).1 in
      let w2 = (body (live e) w1).1 in
      let p1 = update_status_after-InProgress before 0 w h in
      let same =
        (keeps w1.db.reservations w1.notices).at w1.state w1.calls
          (record { rows_same = refl; told = refl }) in
      let p2 : InProgress e id steps k ns w2.state = record {
        row = p1.row;
        stored = rw same.rows_same p1.stored;
        total = p1.total;
        done = omega (arith, p1.done);
        unfinished = p1.unfinished;
        no_error = p1.no_error;
        told = rw same.told p1.told;
      } in
      update_status_after-InProgress after 1 w2 p2
