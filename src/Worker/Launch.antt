-- ===== src/Worker/Launch.antt =====
-- A launch from its request to the end of its job.
use provisioning_backend.Common.{
  ℕ, ◌+◌, ◌≤◌, ◌≡◌, refl, sym, ap, ◌∙◌, none, some, List, [], ◌∷◌, ◌++◌, All, arith,
}
use provisioning_backend.Models.{
  Reservation, ProviderType, unknown, noop, aws, azure, gcp, JobArgs, noop_args, aws_args,
  azure_args, gcp_args,
}
use provisioning_backend.World.{State, World, Env, Notice, M, check, call, ◌>>=◌, ◌>>◌}
use provisioning_backend.Dao.Rows.{find, count, has_id, scoped}
use provisioning_backend.Jobs.Progress.{Answers, InProgress}
use provisioning_backend.Jobs.Outcomes.{Outcome, Settled}
use provisioning_backend.Jobs.Launches
use provisioning_backend.Jobs.Noop.{do_noop}
use provisioning_backend.Jobs.Aws.{
  do_ensure_pubkey_on_aws, do_launch_instance_aws, fetch_instances_description_aws,
}
use provisioning_backend.Jobs.Azure.{do_ensure_azure_resource_group, do_launch_instance_azure}
use provisioning_backend.Jobs.Gcp.{do_launch_instance_gcp, fetch_instances_description_gcp}
use provisioning_backend.Services.Contracts.{Before}
use provisioning_backend.Services.Creation.{Table}
use provisioning_backend.Services.Acceptance.{Accepted, job_reservation, job_provider}
use provisioning_backend.Worker.{handle, process_job, fetch_job, take_job}

-- The ids of the table were given out by its sequence.
abbrev pub Fresh : Table → Type 0
Fresh t = All (λ r. r.id ≤ t.last) t.rows

-- The number of steps of a reservation of each provider.
abbrev pub steps_for : ProviderType → ℕ
steps_for unknown = 0
steps_for noop = 1
steps_for aws = 3
steps_for azure = 2
steps_for gcp = 2

-- The steps of a job, up to the first that fails.
abbrev pub steps_of : JobArgs → M (Unit {0})
steps_of (noop_args a) = do_noop a
steps_of (aws_args a) =
    do_ensure_pubkey_on_aws a >> (do_launch_instance_aws a >> fetch_instances_description_aws a)
steps_of (azure_args a) = do_ensure_azure_resource_group a >> do_launch_instance_azure a
steps_of (gcp_args a) = do_launch_instance_gcp a >> fetch_instances_description_gcp a

find-append :
    (account id last : ℕ) (rows : List Reservation) (row : Reservation)
    → All (λ r. r.id ≤ last) rows
    → id ≡ last + 1
    → row.id ≡ id
    → row.account_id ≡ account
    → find (scoped account id) (rows ++ row ∷ []) ≡ some row
find-append account id last [] row f h p q = ground arith
find-append account id last (r ∷ rows) row f h p q =
    ground (arith, f.0, find-append account id last rows row f.1 h p q)

count-append :
    (id last : ℕ) (rows : List Reservation) (row : Reservation)
    → All (λ r. r.id ≤ last) rows
    → id ≡ last + 1
    → row.id ≡ id
    → count (has_id id) (rows ++ row ∷ []) ≡ 1
count-append id last [] row f h p = ground arith
count-append id last (r ∷ rows) row f h p =
    ground (arith, f.0, count-append id last rows row f.1 h p)

-- The new reservation waits for its job, in any context of the account.
Accepted-InProgress :
    {b : Before} {t : Table} {e : Env} {p : ProviderType} {steps : ℕ} {s : State} (e' : Env)
    (id k : ℕ)
    → Fresh t
    → (a : Accepted b t e p steps s) → e'.account_id ≡ e.account_id
    → id ≡ a.row.id
    → k ≡ steps
    → InProgress e' id k 0 b.notices (record s { queue = b.queue })
Accepted-InProgress {t = t} e' id k f a same_account same_id same_steps =
    let c = a.created in
    let owner : a.row.account_id ≡ e'.account_id = c.owner ∙ sym same_account in
    let next : id ≡ t.last + 1 = same_id ∙ c.next_id in
    record {
      row = a.row;
      stored = record {
        found =
            rw c.appended
              (find-append e'.account_id id t.last t.rows a.row f next (sym same_id) owner);
        unique = rw c.appended (count-append id t.last t.rows a.row f next (sym same_id));
      };
      total = c.steps_are ∙ sym same_steps;
      done = c.at_start;
      unfinished = c.unfinished;
      no_error = c.no_error;
      told = a.told;
    }

handle-Outcome :
    {e : Env} (up : Answers e) (args : JobArgs) (ns : List Notice) (w : World)
    → InProgress e (job_reservation args) (steps_for (job_provider args)) 0 ns w.state
    → Settled e (steps_of args e w).1
    → Outcome e
        (job_reservation args)
        (steps_for (job_provider args))
        ns
        (steps_of args e w)
        (handle args e w).1.state
unfolding handle
handle-Outcome up (noop_args a) ns w h st = Launches.handle_noop-Outcome up a ns w h st
handle-Outcome up (aws_args a) ns w h st =
    Launches.handle_launch_instance_aws-Outcome up a ns w h st
handle-Outcome up (azure_args a) ns w h st =
    Launches.handle_launch_instance_azure-Outcome up a ns w h st
handle-Outcome up (gcp_args a) ns w h st =
    Launches.handle_launch_instance_gcp-Outcome up a ns w h st

-- The context of a job.
abbrev pub job_env : Env → ℕ → Env
job_env e account_id = record e { account_id = account_id }

-- Let a request have been accepted, in a table whose ids its sequence gave out, for a provider whose
-- rows have the number of steps of its job; let the worker, for which no call of the database, Kafka
-- and Redis fails but for the deadline of its context, fetch a job next; and let the deadline pass at any time but
-- during the calls of the end of the handler. The worker takes the job of that request off the queue and
-- runs it in the account of the request. What it leaves of the new reservation agrees with the result of
-- the steps of the job: a success after all steps, or a failure with the first error. One notification tells
-- it if the deadline has not passed by the end of the steps, and none if it has.
pub fetch_job-Outcome :
    {b : Before} {t : Table} {e : Env} {p : ProviderType} {s : State} (e' : Env) (n : ℕ)
    → Answers e'
    → e'.dequeue_fault n ≡ none
    → Fresh t
    → (a : Accepted b t e p (steps_for p) s)
    → Settled
        (job_env e' e.account_id)
        (steps_of a.job.args
          (job_env e' e.account_id)
          (record { state = record s { queue = b.queue }; calls = n + 1 })).1
    → Outcome
        (job_env e' e.account_id)
        a.row.id
        (steps_for p)
        b.notices
        (steps_of a.job.args
          (job_env e' e.account_id)
          (record { state = record s { queue = b.queue }; calls = n + 1 }))
        (fetch_job e' (record { state = s; calls = n })).1.state
unfolding fetch_job take_job process_job check call ◌>>=◌
fetch_job-Outcome {b = b} {e = e} {s = s} e' n up popped f a st =
    let args = a.job.args in
    let ready =
      Accepted-InProgress (job_env e' e.account_id) (job_reservation args)
        (steps_for (job_provider args)) f a refl a.for_row (ap steps_for a.for_provider) in
    let up' : Answers (job_env e' e.account_id) = record { fault = up.fault; send = up.send } in
    let done =
      handle-Outcome up' args b.notices
        (record { state = record s { queue = b.queue }; calls = n + 1 }) ready st in
    rw (popped)
      (rw (a.queued, take_job) (rw (a.for_account) (rw (← a.for_row) (rw (← a.for_provider) done))))
