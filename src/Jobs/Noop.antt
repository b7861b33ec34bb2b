-- ===== src/Jobs/Noop.antt =====
-- internal/jobs/noop_job.go. Sleeping changes nothing.
use provisioning_backend.Common.{if◌then◌else◌}
use provisioning_backend.Errors.{named, noop_failure}
use provisioning_backend.Models.{JobArgs, NoopArgs, noop_args, aws_args, azure_args, gcp_args}
use provisioning_backend.World.{M, pure, fail, attempt, ◌>>=◌}
use provisioning_backend.Jobs.Common.{notify_and_finish, with_status, nil_unless_timeout}

unfoldable pub do_noop_body : NoopArgs → M (Unit {0})
do_noop_body args = if args.fail then fail (named noop_failure) else nil_unless_timeout

unfoldable pub do_noop : NoopArgs → M (Unit {0})
unfolding do_noop_body
do_noop args =
    with_status args.reservation_id "No operation started" "No operation finished"
      (do_noop_body args)

unfoldable pub handle_noop : JobArgs → M (Unit {0})
unfolding do_noop
handle_noop (noop_args args) = do
  job_err ← attempt (do_noop args)
  notify_and_finish args.reservation_id job_err
handle_noop (aws_args args) = pure tt
handle_noop (azure_args args) = pure tt
handle_noop (gcp_args args) = pure tt
