-- ===== src/Worker.antt =====
-- The worker (pkg/worker/redis.go, with the handlers that the commands register): jobs are pushed to and
-- popped from the same end of a Redis list. The encoding of a job by gob is not modelled.
pub mod Launch
pub mod Pool
use provisioning_backend.Common.{ℕ, ◌+◌, List, [], ◌∷◌}
use provisioning_backend.Models.{Job, JobArgs, noop_args, aws_args, azure_args, gcp_args}
use provisioning_backend.World.{Result, M, check, ◌>>=◌, ◌>>◌}
use provisioning_backend.Jobs.Noop.{handle_noop}
use provisioning_backend.Jobs.Aws.{handle_launch_instance_aws}
use provisioning_backend.Jobs.Azure.{handle_launch_instance_azure}
use provisioning_backend.Jobs.Gcp.{handle_launch_instance_gcp}

-- The handler of the type of a job.
unfoldable pub handle : JobArgs → M (Unit {0})
handle (noop_args a) = handle_noop (noop_args a)
handle (aws_args a) = handle_launch_instance_aws (aws_args a)
handle (azure_args a) = handle_launch_instance_azure (azure_args a)
handle (gcp_args a) = handle_launch_instance_gcp (gcp_args a)

-- The handler runs in a context with the account of the job.
unfoldable pub process_job : Job → M (Unit {0})
unfolding handle
process_job job e w = handle job.args (record e { account_id = job.account_id }) w

-- The head of the list, if there is one before the timeout of BLPOP.
unfoldable pub take_job : List Job → M (Unit {0})
unfolding process_job
take_job [] e w = (Result.ok tt, w)
take_job (job ∷ rest) e w = process_job job e (record w { state = record w.state { queue = rest } })

unfoldable pub fetch_job : M (Unit {0})
unfolding take_job
fetch_job = check (λ e n. e.dequeue_fault n) >> (λ e w. take_job w.queue e w)
