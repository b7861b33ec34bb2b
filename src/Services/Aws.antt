-- ===== src/Services/Aws.antt =====
-- CreateAWSReservation of internal/services/aws_reservation_service.go.
use Prim.Native.String
use provisioning_backend.Common.{
  ℕ, String, not, ◌&&◌, ◌||◌, some, none, [], ◌∷◌, if◌then◌else◌, str_eq, has_prefix,
}
use provisioning_backend.Errors.{new_client_error}
use provisioning_backend.Models.{aws, AwsDetail, Details, Authentication, must_be, Job, aws_args}
use provisioning_backend.World.{
  Result, M, pure, lift, gets, call, check, ignore, of_nil, ◌>>=◌, ◌>>◌,
}
use provisioning_backend.Dao.Reservations
use provisioning_backend.Dao.Pubkeys
use provisioning_backend.Services.Render.{
  or_render, guard, render, enqueue, supported_type, not_found_or_dao_error,
}
use provisioning_backend.Services.Requests.{AwsRequest}

abbrev pub region_or_default : String → String
region_or_default region = if str_eq region "" then "us-east-1" else region

-- Instance type or launch template, and with no launch template a supported type.
unfoldable pub validate_aws : AwsRequest → M (Unit {0})
validate_aws payload = do
  or_render (λ x. 400) (guard λ e. e.valid_region aws (region_or_default payload.region))
  or_render (λ x. 400)
      (guard λ e. not (str_eq payload.instance_type "" && str_eq payload.launch_template_id ""))
  or_render (λ x. 400)
      (guard λ e.
        not (str_eq payload.launch_template_id "") || supported_type aws payload.instance_type e)

-- The AMI of the image: as given, or from Image Builder.
unfoldable pub aws_image : String → M String
aws_image image_id = if str_eq image_id "" || has_prefix image_id "ami-" then pure image_id else (do
  or_render new_client_error (check λ e n. e.image_client n)
  or_render new_client_error (call λ e n. e.get_image n aws image_id))

unfoldable pub aws_authentication : String → M Authentication
aws_authentication source_id = do
  or_render new_client_error (check λ e n. e.sources_client n)
  auth ← or_render new_client_error (call λ e n. e.get_authentication n source_id)
  or_render new_client_error (lift (of_nil (must_be auth aws)))
  pure auth

unfoldable pub aws_details_of : AwsRequest → String → Details AwsDetail
aws_details_of payload prefix = record {
  reservation_id = 0;
  pubkey_id = payload.pubkey_id;
  source_id = payload.source_id;
  image_id = payload.image_id;
  cloud_id = none;
  detail = record {
    region = region_or_default payload.region;
    name = some (String.◌++◌ prefix payload.name);
    launch_template_id = payload.launch_template_id;
    instance_type = payload.instance_type;
    amount = payload.amount;
    power_off = payload.power_off;
    pubkey_name = "";
  };
}

abbrev aws_job : ℕ → ℕ → ℕ → Details AwsDetail → String → Authentication → Job
aws_job account_id reservation_id pubkey_id d ami auth = record {
  account_id = account_id;
  args = aws_args (record {
    reservation_id = reservation_id;
    region = d.detail.region;
    pubkey_id = pubkey_id;
    source_id = d.source_id;
    detail = d.detail;
    ami = ami;
    launch_template_id = d.detail.launch_template_id;
    arn = auth;
  });
}

-- `bound` is what render.Bind makes of the request's body.
unfoldable pub create_aws_reservation : Result AwsRequest → M (Unit {0})
unfolding validate_aws aws_image aws_authentication aws_details_of
create_aws_reservation bound = ignore (do
  payload ← or_render (λ x. 400) (lift bound)
  validate_aws payload
  prefix ← gets λ e w. e.instance_prefix
  account_id ← gets λ e w. e.account_id
  let details = aws_details_of payload prefix
  pk ← or_render not_found_or_dao_error (Pubkeys.get_by_id payload.pubkey_id)
  row ←
      or_render (λ x. 500)
        (Reservations.create_aws
          (record {
            steps = 3;
            step_titles =
                "Ensure public key" ∷ "Launch instance(s)" ∷ "Fetch instance(s) description" ∷ [];
          })
          details)
  auth ← aws_authentication payload.source_id
  ami ← aws_image payload.image_id
  or_render (λ x. 500) (enqueue (aws_job account_id row.id pk.id details ami auth))
  render)
