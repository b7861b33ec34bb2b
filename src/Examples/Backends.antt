-- ===== src/Examples/Backends.antt =====
-- IAM, Sources and Image Builder, on concrete answers.
use mathlib.Core.Bool.{decide}
use provisioning_backend.Common.{
  ◌≡◌, ◌↔◌, refl, String, true, false, inl, none, some, List, [], ◌∷◌, Any,
}
use provisioning_backend.Errors.{opaque}
use provisioning_backend.World.{ok}
use provisioning_backend.Models.{Authentication, aws}
use provisioning_backend.Kafka.{GenericMessage, Principal}
use provisioning_backend.Iam.{
  Json, Iam, text, array, object, end, element, field, no_field, get_role_name, get_statement,
  check_permission,
}
use provisioning_backend.Iam.Documents.{In, Grants, get_statement-Grants}
use provisioning_backend.Iam.Permissions.{Permitted, check_permission-none_iff}
use provisioning_backend.Backends.Outcome.{Outcome, Response}
use provisioning_backend.Backends.Sources.{AuthenticationRead, Service, get_authentication}
use provisioning_backend.Backends.Sources.Authentications.{
  Kind, full, get_authentication-first, get_authentication-Kind,
}
use provisioning_backend.Backends.ImageBuilder.{UploadStatus, Builder, get_aws_ami}
use provisioning_backend.Backends.ImageBuilder.Images.{Ready, get_aws_ami-ok_iff}
use provisioning_backend.Services.Lookups.{Clients, permissions, validate_permissions}
use provisioning_backend.Services.Lookups.Permissions.{validate_permissions-Permitted_iff}
use provisioning_backend.Statuser.{
  SourceInfo, Channels, source_info, process_message, check_source_availability_aws,
}
use provisioning_backend.Statuser.Checks.{
  Put, Tells, Checked, process_message-Put, check_source_availability_aws-Checked,
}

-- {"Statement": {"Effect": "Allow", "Action": ["ec2:RunInstances"]}}
abbrev policy : Json
policy = object (
    field "Statement"
      (object (
        field "Effect" (text "Allow")
          (field "Action" (array (element (text "ec2:RunInstances") end)) no_field)))
      no_field)

get_statement-policy : get_statement policy ≡ "ec2:RunInstances" ∷ []
unfolding get_statement
get_statement-policy = refl

get_statement-Grants_example :
    In "ec2:RunInstances" (get_statement policy) ↔ Grants "ec2:RunInstances" policy
get_statement-Grants_example = get_statement-Grants "ec2:RunInstances" policy

-- One policy is attached, which grants one action; an inline policy has the rest.
abbrev iam : Iam
iam = record {
  list_attached_role_policies = λ r. ok ("arn:policy" ∷ []);
  get_policy = λ arn. ok (arn, "v1");
  get_policy_version = λ arn v. ok "document";
  list_role_policies = λ r. ok ("inline" ∷ []);
  get_role_policy = λ r n. ok "inline document";
  query_unescape = λ t. ok t;
  unmarshal = λ t. ok policy;
}

get_role_name-arn : get_role_name "arn:aws:iam::123:role/provisioning" ≡ ok "provisioning"
unfolding get_role_name
get_role_name-arn = refl

check_permission-none_iff_example :
    ((check_permission iam "arn:aws:iam::123:role/provisioning").1 ≡ none)
    ↔ Permitted iam "arn:aws:iam::123:role/provisioning"
check_permission-none_iff_example =
    check_permission-none_iff iam "arn:aws:iam::123:role/provisioning"

abbrev other : AuthenticationRead
other = record {
  resource_type = some "Endpoint";
  authtype = some "token";
  username = none;
  resource_id = none;
}

abbrev service : Service
service = record {
  list_source_authentications = λ id.
      Outcome.ok
        (record { status = 200; json200 = some (other ∷ full "provisioning-arn" "arn" "11" ∷ []) });
  list_application_types =
      Outcome.ok
        (200, Outcome.ok (record { id = "5"; name = "/insights/platform/provisioning" } ∷ []));
  list_application_type_sources = λ t q. Outcome.ok (record { status = 200; json200 = some [] });
  query_escape = λ t. t;
}

abbrev of_aws : Authentication
of_aws = record { source_application_id = "11"; provider_type = aws; payload = "arn" }

get_authentication-first_example : get_authentication service "1" ≡ Outcome.ok of_aws
get_authentication-first_example =
    get_authentication-first service "1" (other ∷ []) [] "provisioning-arn" "arn" "11" aws refl
      (("Endpoint", refl, inl (cc)), tt) (inl (refl, refl))

get_authentication-Kind_example :
    (resp : Response (List AuthenticationRead)) × (service.list_source_authentications "1"
      ≡ Outcome.ok resp)
    × ((auths : List AuthenticationRead) × (resp.json200 ≡ some auths)
        × ((auth : AuthenticationRead) × Any (λ x. x ≡ auth) auths
            × (auth.resource_type ≡ some "Application")
            × ((t : String) × (auth.authtype ≡ some t) × Kind t aws)
            × (auth.username ≡ some "arn")
            × (auth.resource_id ≡ some "11")))
get_authentication-Kind_example =
    get_authentication-Kind service "1" of_aws get_authentication-first_example

abbrev builder : Builder
builder = record {
  parse_uuid = λ id. none;
  get_compose_status = λ id. Outcome.ok (record { status = 404; json200 = none });
  get_clone_status = λ id. Outcome.ok (record {
    status = 200;
    json200 = some (record {
      type = "aws";
      status = "success";
      as_aws = Outcome.ok "ami-1";
      as_azure = Outcome.err (opaque "json");
      as_gcp = Outcome.err (opaque "json");
    });
  });
}

-- The compose is not found, and the clone is.
get_aws_ami-builder : get_aws_ami builder "id" ≡ Outcome.ok "ami-1"
unfolding get_aws_ami decide
get_aws_ami-builder = refl

get_aws_ami-ok_iff_example : (get_aws_ami builder "id" ≡ Outcome.ok "ami-1") ↔ (
    (builder.parse_uuid "id" ≡ none)
    × ((u : UploadStatus) × Ready builder "id" u
        × (u.type ≡ "aws")
        × (u.as_aws ≡ Outcome.ok "ami-1")))
get_aws_ami-ok_iff_example = get_aws_ami-ok_iff builder "id" "ami-1"

abbrev principal : Principal
principal = record { org_id = "1"; account_number = "2"; identity_header = "id" }

abbrev request : GenericMessage
request = record { topic = "t"; key = "1"; value = "payload"; headers = [] }

abbrev empty : Channels
empty = record { aws_sources = []; azure_sources = []; gcp_sources = [] }

process_message-Put_example :
    (c : Channels) × (process_message (λ v. ok "1") none service principal request empty
      ≡ Outcome.ok c)
    × Put aws (source_info principal of_aws) empty c
process_message-Put_example =
    process_message-Put (λ v. ok "1") service principal request empty "1" of_aws refl
      get_authentication-first_example

abbrev sources : List SourceInfo
sources = source_info principal of_aws ∷ source_info principal of_aws ∷ []

check_source_availability_aws-Checked_example :
    Checked
      (λ i. false)
      (λ i. false)
      (Tells (λ a. none) (λ a. iam))
      0
      sources
      (check_source_availability_aws (λ i. false) (λ i. false) (λ a. none) (λ a. iam) sources)
check_source_availability_aws-Checked_example =
    check_source_availability_aws-Checked (λ i. false) (λ i. false) (λ a. none) (λ a. iam) sources

abbrev authentication : Authentication
authentication = record {
  source_application_id = "11";
  provider_type = aws;
  payload = "arn:aws:iam::123:role/provisioning";
}

abbrev clients : Clients
clients = record {
  sources_client = none;
  get_authentication = λ id. ok authentication;
  list_by_provider = λ p. none;
  list_all = none;
  ec2_client = λ a r. none;
  gcp_client = λ a. none;
  azure_client = λ a. none;
  iam = λ a. iam;
  cloud_status = λ a. none;
  list_instance_types = λ a. none;
  list_launch_templates = λ a. none;
  default_region = "us-east-1";
  render_fault = none;
}

validate_permissions-Permitted_iff_example :
    (validate_permissions clients "1" "" ≡ permissions true [])
    ↔ Permitted iam "arn:aws:iam::123:role/provisioning"
validate_permissions-Permitted_iff_example =
    validate_permissions-Permitted_iff clients "1" "" authentication refl refl refl (λ r. refl) refl
