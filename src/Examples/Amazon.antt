-- ===== src/Examples/Amazon.antt =====
-- A customer's account in AWS and the account of the service.
use provisioning_backend.Common.{◌≡◌, refl, none, some, List, [], ◌∷◌, All, length}
use provisioning_backend.Errors.{opaque}
use provisioning_backend.Models.{aws, Authentication}
use provisioning_backend.Backends.Outcome.{ok, err}
use provisioning_backend.Clouds.Actions.{◌>>=◌, annotate, lift, attempt, pure}
use provisioning_backend.Clouds.Ec2.{
  Sdk, Config, Params, list_all_regions, delete_ssh_key, run_instances_of,
  new_ec2_client_with_region, new_assumed_ec2_client_with_region,
}
use provisioning_backend.Clouds.Ec2.Operations.{
  Operation, deletes, runs, lists_regions, run_operations, open_client, IsAllowed,
}
use provisioning_backend.Clouds.Ec2.Accounts.{run_operations-IsAllowed}

abbrev amazon : Sdk
amazon = record {
  config_error = λ region. none;
  assumed_credentials = λ log arn. ok (some "key", (some "secret", some arn));
  key_pair_id = λ log. ok (some "key-1");
  key_pairs = λ log. ok [];
  deleted = λ log. err (opaque "api error UnauthorizedOperation");
  regions = λ log. ok (some "us-east-1" ∷ []);
  zones = λ log. ok [];
  type_pages = [];
  template_pages = [];
  reservations = λ log. ok [];
  ran = λ log. ok (some "i-1" ∷ [], some "r-1");
  account = λ log. ok (some "12");
  operation_error = λ x. none;
  base64 = λ s. s;
  pointer_text = λ s. "0xc0";
}

abbrev config : Config
config = record { default_region = "us-east-1"; environment = "stage"; supported_types = [] }

abbrev role : Authentication
role = record {
  source_application_id = "1";
  provider_type = aws;
  payload = "arn:aws:iam::1:role/rh";
}

abbrev launch : Params
launch = record {
  launch_template_id = "";
  ami = "ami-1";
  instance_type = "t3.small";
  key_name = "k";
  user_data = "";
}

abbrev ops : List Operation
ops = lists_regions ∷ deletes "key-1" ∷ runs launch 2 none 1024 ∷ []

requests-length :
    (length
        (((open_client amazon config (some role) "") >>= λ c. run_operations amazon config c ops)
          []).1
      ≡ 4)
    × (length
          (((open_client amazon config none "") >>= λ c. run_operations amazon config c ops) []).1
        ≡ 1)
unfolding ◌>>=◌ new_assumed_ec2_client_with_region new_ec2_client_with_region delete_ssh_key
    run_instances_of annotate lift pure attempt list_all_regions
requests-length = (refl, refl)

run_operations-IsAllowed_example :
    All
      (IsAllowed amazon config (some role))
      (((open_client amazon config (some role) "") >>= λ c. run_operations amazon config c ops)
        []).1
run_operations-IsAllowed_example = run_operations-IsAllowed amazon config (some role) "" ops
