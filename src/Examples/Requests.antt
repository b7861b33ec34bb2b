-- ===== src/Examples/Requests.antt =====
-- Requests for reservations.
use provisioning_backend.Common.{◌∷◌, [], ◌⊎◌, ◌≡◌, refl, false, inl}
use provisioning_backend.Models.{Job, aws, azure, gcp, provider_type_from_string, must_be}
use provisioning_backend.World.{ok}
use provisioning_backend.Services.Success.{Works, IsComplete, create_aws_reservation-response}
use provisioning_backend.Services.Requests.{AwsRequest, AzureRequest, GcpRequest}
use provisioning_backend.Services.Contracts.{Rejected}
use provisioning_backend.Services.Acceptance.{Accepted, job_reservation}
use provisioning_backend.Services.Launching
use provisioning_backend.Services.Aws.{create_aws_reservation}
use provisioning_backend.Services.Azure.{create_azure_reservation}
use provisioning_backend.Services.Gcp.{create_gcp_reservation}
use provisioning_backend.Examples.Setting.{sample_env, empty_world, key, authentication}

abbrev pub aws_request : AwsRequest
aws_request = record {
  pubkey_id = 1;
  source_id = "aws";
  image_id = "ami-1";
  region = "";
  launch_template_id = "";
  instance_type = "t1.micro";
  amount = 1;
  name = "vm";
  power_off = false;
}

abbrev azure_request : AzureRequest
azure_request = record {
  pubkey_id = 1;
  source_id = "azure";
  image_id = "composer-api-1";
  location = "";
  instance_size = "Basic_A0";
  amount = 1;
  name = "vm";
  power_off = false;
}

abbrev gcp_request : GcpRequest
gcp_request = record {
  pubkey_id = 1;
  source_id = "gcp";
  image_id = "image";
  zone = "us-east1-a";
  machine_type = "e2-micro";
  amount = 1;
  name_pattern = "vm";
  power_off = false;
  launch_template_id = "";
}

create_aws_reservation-Accepted_example :
    let s = (create_aws_reservation (ok aws_request) sample_env empty_world).1.state in
    Rejected (Launching.before empty_world) s
    ⊎ Accepted (Launching.before empty_world) (Launching.table empty_world) sample_env aws 3 s
create_aws_reservation-Accepted_example =
    Launching.create_aws_reservation-Accepted sample_env empty_world (ok aws_request)

create_azure_reservation-Accepted_example :
    let s = (create_azure_reservation (ok azure_request) sample_env empty_world).1.state in
    Rejected (Launching.before empty_world) s
    ⊎ Accepted (Launching.before empty_world) (Launching.table empty_world) sample_env azure 2 s
create_azure_reservation-Accepted_example =
    Launching.create_azure_reservation-Accepted sample_env empty_world (ok azure_request)

create_gcp_reservation-Accepted_example :
    let s = (create_gcp_reservation (ok gcp_request) sample_env empty_world).1.state in
    Rejected (Launching.before empty_world) s
    ⊎ Accepted (Launching.before empty_world) (Launching.table empty_world) sample_env gcp 2 s
create_gcp_reservation-Accepted_example =
    Launching.create_gcp_reservation-Accepted sample_env empty_world (ok gcp_request)

pub sample_env-Works : Works sample_env
sample_env-Works = record {
  fault = λ n. refl;
  enqueue_fault = λ n. refl;
  render_fault = λ n. refl;
  sources_client = λ n. refl;
}

aws_request-IsComplete : IsComplete sample_env aws_request empty_world
unfolding provider_type_from_string must_be
aws_request-IsComplete = record {
  region = refl;
  given = refl;
  supported = refl;
  pk = key;
  stored = refl;
  auth = authentication "aws";
  source = λ n. refl;
  for_aws = refl;
  image = inl refl;
}

create_aws_reservation-response_example :
    let s = (create_aws_reservation (ok aws_request) sample_env empty_world).1.state in
    (s.responses ≡ 200 ∷ []) × ((job : Job) × (s.queue ≡ job ∷ []) × (job_reservation job.args ≡ 1))
create_aws_reservation-response_example =
    create_aws_reservation-response sample_env-Works aws_request empty_world aws_request-IsComplete
