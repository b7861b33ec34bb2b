-- ===== src/Examples/Jobs.antt =====
-- Jobs of concrete reservations, and a job from its request to its end.
use provisioning_backend.Common.{refl, ◌≡◌, map, true, false, some, [], ◌∷◌}
use provisioning_backend.Models.{
  aws, azure, gcp, AwsArgs, AzureArgs, GcpArgs, NoopArgs, Job, aws_args, azure_args, gcp_args,
}
use provisioning_backend.World.{State, Env, copy_context, on_context, ◌>>=◌, ◌>>◌}
use provisioning_backend.Dao.Reservations
use provisioning_backend.Notifications.{failed_launch}
use provisioning_backend.Jobs.Outcomes.{Outcome}
use provisioning_backend.Jobs.Launches
use provisioning_backend.Jobs.Retries.{Retried, wait_and_retry-Retried}
use provisioning_backend.Jobs.Common.{wait_and_retry, unless_failed, with_status, finish_with_error}
use provisioning_backend.Jobs.Aws.{
  do_ensure_pubkey_on_aws, do_launch_instance_aws, fetch_instances_description_aws,
  handle_launch_instance_aws, describe_and_update,
}
use provisioning_backend.Jobs.Azure.{
  do_ensure_azure_resource_group, do_launch_instance_azure, handle_launch_instance_azure,
}
use provisioning_backend.Jobs.Gcp.{
  do_launch_instance_gcp, fetch_instances_description_gcp, handle_launch_instance_gcp,
}
use provisioning_backend.Services.Contracts.{Before}
use provisioning_backend.Services.Creation.{Table}
use provisioning_backend.Services.Acceptance.{Accepted}
use provisioning_backend.Worker.{fetch_job}
use provisioning_backend.Worker.Launch.{steps_of, job_env, fetch_job-Outcome}
use provisioning_backend.Examples.Setting.{
  sample_env, sample_env-Answers, sample_row, sample_state, waiting, waiting-InProgress,
  authentication, aws_detail,
}

abbrev sample_aws : AwsArgs
sample_aws = record {
  reservation_id = 1;
  region = "us-east-1";
  pubkey_id = 1;
  source_id = "aws";
  detail = aws_detail;
  ami = "ami-1";
  launch_template_id = "";
  arn = authentication "aws";
}

abbrev sample_azure : AzureArgs
sample_azure = record {
  reservation_id = 1;
  location = "eastus_1";
  pubkey_id = 1;
  source_id = "azure";
  azure_image_id = "image";
  subscription = authentication "azure";
}

abbrev sample_gcp : GcpArgs
sample_gcp = record {
  reservation_id = 1;
  zone = "us-east1-a";
  pubkey_id = 1;
  detail = record {
    zone = "us-east1-a";
    name_pattern = some "inst";
    machine_type = "e2-micro";
    amount = 1;
    uuid = "uuid";
    launch_template_id = "";
    power_off = false;
  };
  image_name = "image";
  project_id = authentication "gcp";
  launch_template_id = "";
}

abbrev sample_noop : NoopArgs
sample_noop = record { reservation_id = 1; fail = false }

handle_launch_instance_aws-Outcome_example :
    Outcome sample_env 1 3 []
      ((do_ensure_pubkey_on_aws sample_aws
          >> (do_launch_instance_aws sample_aws >> fetch_instances_description_aws sample_aws))
        sample_env
        (waiting aws 3))
      (handle_launch_instance_aws (aws_args sample_aws) sample_env (waiting aws 3)).1.state
handle_launch_instance_aws-Outcome_example =
    Launches.handle_launch_instance_aws-Outcome sample_env-Answers sample_aws [] (waiting aws 3)
      (waiting-InProgress aws 3) (λ n a b. refl)

handle_launch_instance_azure-Outcome_example :
    Outcome sample_env 1 2 []
      ((do_ensure_azure_resource_group sample_azure >> do_launch_instance_azure sample_azure)
        sample_env
        (waiting azure 2))
      (handle_launch_instance_azure (azure_args sample_azure) sample_env (waiting azure 2)).1.state
handle_launch_instance_azure-Outcome_example =
    Launches.handle_launch_instance_azure-Outcome sample_env-Answers sample_azure []
      (waiting azure 2) (waiting-InProgress azure 2) (λ n a b. refl)

handle_launch_instance_gcp-Outcome_example :
    Outcome sample_env 1 2 []
      ((do_launch_instance_gcp sample_gcp >> fetch_instances_description_gcp sample_gcp) sample_env
        (waiting gcp 2))
      (handle_launch_instance_gcp (gcp_args sample_gcp) sample_env (waiting gcp 2)).1.state
handle_launch_instance_gcp-Outcome_example =
    Launches.handle_launch_instance_gcp-Outcome sample_env-Answers sample_gcp [] (waiting gcp 2)
      (waiting-InProgress gcp 2) (λ n a b. refl)

-- After the deadline the launch is marked as failed, and no notification is sent.
abbrev expired_env : Env
expired_env = record sample_env { expired = λ n. true }

handle_launch_instance_aws-expired :
    let s =
      (handle_launch_instance_aws (aws_args sample_aws) expired_env (waiting aws 3)).1.state in
    (map (λ r. r.success) s.db.reservations ≡ some false ∷ []) × (s.notices ≡ [])
unfolding handle_launch_instance_aws ◌>>=◌ unless_failed with_status copy_context on_context
    Reservations.get_aws_by_id finish_with_error failed_launch Reservations.get_by_id
    Reservations.update_status Reservations.finish_with_error
handle_launch_instance_aws-expired = (refl, refl)

wait_and_retry-Retried_example :
    Retried (describe_and_update sample_aws ("i-1" ∷ [])) sample_env (waiting aws 3) 5 (
      wait_and_retry
        (describe_and_update sample_aws ("i-1" ∷ []))
        1000
        500
        (500 ∷ 1000 ∷ 2000 ∷ [])
        sample_env
        (waiting aws 3))
wait_and_retry-Retried_example =
    wait_and_retry-Retried (describe_and_update sample_aws ("i-1" ∷ [])) sample_env 1000 500
      (500 ∷ 1000 ∷ 2000 ∷ []) (waiting aws 3)

abbrev sample_before : Before
sample_before = record { queue = []; notices = []; responses = [] }

abbrev sample_table : Table
sample_table = record { rows = []; last = 0 }

abbrev sample_job : Job
sample_job = record { account_id = 7; args = aws_args sample_aws }

abbrev accepted_state : State
accepted_state = record (sample_state (sample_row aws 3 ∷ []) 1) {
  queue = sample_job ∷ [];
  responses = 200 ∷ [];
}

sample_accepted : Accepted sample_before sample_table sample_env aws 3 accepted_state
sample_accepted = record {
  row = sample_row aws 3;
  job = sample_job;
  created = record {
    appended = refl;
    next_id = refl;
    owner = refl;
    provider_is = refl;
    steps_are = refl;
    at_start = refl;
    unfinished = refl;
    no_error = refl;
  };
  queued = refl;
  for_row = refl;
  for_provider = refl;
  for_account = refl;
  told = refl;
  status = 200;
  answered = refl;
}

fetch_job-Outcome_example :
    Outcome
      (job_env sample_env 7)
      1
      3
      []
      (steps_of
        (aws_args sample_aws)
        (job_env sample_env 7)
        (record { state = record accepted_state { queue = [] }; calls = 1 }))
      (fetch_job sample_env (record { state = accepted_state; calls = 0 })).1.state
unfolding ◌>>=◌ sample_accepted
fetch_job-Outcome_example =
    fetch_job-Outcome sample_env 0 sample_env-Answers refl tt sample_accepted (λ n a b. refl)
