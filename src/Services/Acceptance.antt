-- ===== src/Services/Acceptance.antt =====
-- How a handler of internal/services that creates reservations ends, and rules for its parts.
use provisioning_backend.Common.{
  ℕ, ◌+◌, ◌≤◌, ◌≡◌, refl, Bool, Option-cases, Bool-cases, inl, inr, [], ◌∷◌, ◌++◌, arith,
}
use provisioning_backend.Errors.{Error, new_client_error}
use provisioning_backend.Models.{
  Reservation, ProviderType, noop, aws, azure, gcp, Job, JobArgs, noop_args, aws_args, azure_args,
  gcp_args,
}
use provisioning_backend.World.{
  Result, ok, err, Db, State, Env, M, pure, fail, check, call, attempt, modify, ◌>>=◌, ◌>>◌,
}
use provisioning_backend.World.Keeps.{Keeps, Keeps-query}
use provisioning_backend.Errors.Status.{new_client_error_bound}
use provisioning_backend.Dao.Pubkeys
use provisioning_backend.Services.Render.{
  or_render, guard, render, render_error, write, enqueue, not_found_or_dao_error,
}
use provisioning_backend.Services.Contracts.{
  Before, GoesOn, Rejected, Phase, Ensures, Ensures-or_render, Ensures-bind, Ensures-Keeps,
  render_error-Rejected,
}
use provisioning_backend.Services.Creation.{Table, Created, forget}

-- The reservation that a job is for, and the provider of its type.
abbrev pub job_reservation : JobArgs → ℕ
job_reservation (noop_args a) = a.reservation_id
job_reservation (aws_args a) = a.reservation_id
job_reservation (azure_args a) = a.reservation_id
job_reservation (gcp_args a) = a.reservation_id

abbrev pub job_provider : JobArgs → ProviderType
job_provider (noop_args a) = noop
job_provider (aws_args a) = aws
job_provider (azure_args a) = azure
job_provider (gcp_args a) = gcp

-- One new row at step 0 of `steps`, one new job for it of the same provider, no notification, and one
-- response.
pub record Accepted (b : Before) (t : Table) (e : Env) (provider : ProviderType) (steps : ℕ)
    (s : State) : Type 0 where
  pub row : Reservation
  pub job : Job
  pub created : Created t e provider steps row s.db
  pub queued : s.queue ≡ job ∷ b.queue
  pub for_row : job_reservation job.args ≡ row.id
  pub for_provider : job_provider job.args ≡ provider
  pub for_account : job.account_id ≡ e.account_id
  pub told : s.notices ≡ b.notices
  pub status : ℕ
  pub answered : s.responses ≡ b.responses ++ status ∷ []

abbrev pub Ended : Before → Table → Env → ProviderType → ℕ → Result (Unit {0}) → State → Type 0
Ended b t e p steps (ok a) s = Accepted b t e p steps s
Ended b t e p steps (err x) s = Rejected b s

not_found_or_dao_error_bound : (x : Error) → 400 ≤ not_found_or_dao_error x
not_found_or_dao_error_bound x = ground arith

Keeps-guard : {e : Env} {P : State → Type 0} (test : Env → Bool) → Keeps e P (guard test)
unfolding guard
Keeps-guard {e = e} test = elim (Bool-cases (test e)) [
  | inl p ↦ record { at = λ s n h. rw (p) h }
  | inr p ↦ record { at = λ s n h. rw (p) h }
]

-- One response is written, whether the renderer works or not.
render_writes :
    (e : Env) (s : State) (n : ℕ)
    → (status : ℕ) × ((render e (record { state = s; calls = n })).0 ≡ ok tt)
      × ((render e (record { state = s; calls = n })).1.state
          ≡ record s { responses = s.responses ++ status ∷ [] })
unfolding render render_error write attempt modify check call ◌>>=◌
render_writes e s n = elim (Option-cases (e.render_fault n)) [
  | inl q ↦ rw q (200, refl, refl)
  | inr (x, q) ↦ rw q (elim (Option-cases (e.render_fault (n + 1))) [
    | inl r ↦ rw r (500, refl, refl)
    | inr (y, r) ↦ rw r (500, refl, refl)
  ])
]

module _ {e : Env} {b : Before} where
  -- An action that changes nothing, with an error of at least 400 where it fails.
  pub step :
      {A : Type 0} (D : Db → Type 0) (status : Error → ℕ) (m : M A)
      → ((x : Error) → 400 ≤ status x)
      → Keeps e (GoesOn b D) m
      → Ensures e (GoesOn b D) (or_render status m) (Phase b (λ a. D))
  step D status m le k = Ensures-or_render status (λ a. D) m le (Ensures-Keeps D m k)

  pub client_step :
      {A : Type 0} (D : Db → Type 0) (m : M A)
      → Keeps e (GoesOn b D) m
      → Ensures e (GoesOn b D) (or_render new_client_error m) (Phase b (λ a. D))
  client_step D m k = step D new_client_error m new_client_error_bound k

  pub invalid_step :
      (D : Db → Type 0) (test : Env → Bool)
      → Ensures e (GoesOn b D) (or_render (λ x. 400) (guard test)) (Phase b (λ a. D))
  invalid_step D test = step D (λ x. 400) _ (λ x. omega arith) (Keeps-guard test)

  pub pubkey_step :
      (D : Db → Type 0) (id : ℕ)
      → Ensures e
          (GoesOn b D)
          (or_render not_found_or_dao_error (Pubkeys.get_by_id id))
          (Phase b (λ a. D))
  unfolding Pubkeys.get_by_id
  pubkey_step D id = step D not_found_or_dao_error _ not_found_or_dao_error_bound (Keeps-query _)

  pub then_phase :
      {A B : Type 0} {P : State → Type 0} (D : A → Db → Type 0) (E : B → Db → Type 0) (m : M A)
      (f : A → M B)
      → Ensures e P m (Phase b D)
      → ((a : A) → Ensures e (GoesOn b (D a)) (f a) (Phase b E))
      → Ensures e P (m >>= f) (Phase b E)
  then_phase D E m f km kf = Ensures-bind D (Phase b E) m f (λ x s h. h) km kf

module _ {e : Env} {b : Before} {t : Table} (p : ProviderType) (steps : ℕ) where
  pub then_end :
      {A : Type 0} {P : State → Type 0} (D : A → Db → Type 0) (m : M A) (f : A → M (Unit {0}))
      → Ensures e P m (Phase b D)
      → ((a : A) → Ensures e (GoesOn b (D a)) (f a) (Ended b t e p steps))
      → Ensures e P (m >>= f) (Ended b t e p steps)
  then_end D m f km kf = Ensures-bind D (Ended b t e p steps) m f (λ x s h. h) km kf

  module _ (row : Reservation) (job : Job) (for_row : job_reservation job.args ≡ row.id)
      (for_provider : job_provider job.args ≡ p) (for_account : job.account_id ≡ e.account_id) where
    render_Accepted :
        (s : State) (n : ℕ)
        → GoesOn b (Created t e p steps row) s
        → let (r, w) =
            render e (record { state = record s { queue = job ∷ s.queue }; calls = n }) in
          Ended b t e p steps r w.state
    render_Accepted s n h =
        let (status, p1, p2) = render_writes e (record s { queue = job ∷ s.queue }) n in
        rw (p1) (
          rw (p2) (record {
            row = row;
            job = job;
            created = h.holds;
            queued = rw h.queued refl;
            for_row = for_row;
            for_provider = for_provider;
            for_account = for_account;
            told = h.told;
            status = status;
            answered = rw h.answered refl;
          }))

    -- The end of a handler: the job is enqueued and the response is written.
    pub launch_end :
        Ensures e
          (GoesOn b (Created t e p steps row))
          (or_render (λ x. 500) (enqueue job) >> render)
          (Ended b t e p steps)
    unfolding or_render enqueue attempt modify check call ◌>>=◌ pure fail render_error write
    launch_end = record {
      at = λ s n h. elim (Option-cases (e.enqueue_fault n)) [
        | inl q ↦ rw (q) (render_Accepted s (n + 1) h)
        | inr (x, q) ↦ rw (q) (render_error-Rejected e b 500 s (n + 1) (omega arith) (forget h))
      ];
    }
