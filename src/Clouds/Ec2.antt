-- ===== src/Clouds/Ec2.antt =====
-- The client of EC2 (internal/clients/http/ec2/ec2_client.go) and what it makes of errors and of instance types
-- (ec2_error_parsing.go, aws_supported_types.go). A request is a call of the SDK, with the client that makes it; the
-- pages of a paginator are what its NextPage answers until it has no more. A pointer that may be nil is an option.
mod Api
pub mod Types
pub mod Operations
pub mod Accounts
use Prim.Native.String
use provisioning_backend.Common.{
  ℕ, String, Bool, true, false, not, Option, none, some, List, [], ◌∷◌, ◌++◌, map, any, str_eq,
  contains, has_prefix, format_int, ◌||◌, if◌then◌else◌,
}
use provisioning_backend.Errors.{
  Error, named, wrapped, unauthorized, pubkey_not_found, duplicate_pubkey,
  service_account_unsupported_operation,
}
use provisioning_backend.Models.{aws, Authentication, must_be, InstanceDescription, Pubkey}
use provisioning_backend.World
use provisioning_backend.Backends.Outcome.{Outcome, ok, err, panic, deref}
use provisioning_backend.Backends.Outcome
use provisioning_backend.InstanceTypes.{InstanceType}
use provisioning_backend.Clouds.Ec2.Types.{
  AwsTypeInfo, Instance, from, parse_describe_instances, deref_all, new_instance_types,
}
use provisioning_backend.Clouds.Actions.{Action, pure, lift, annotate, send, ◌>>=◌, ◌>>◌}
pub use Api.*

-- EnvironmentPrefix of internal/config/helpers.go
abbrev pub environment_prefix : String → String → String → String
environment_prefix env prefix identifier =
    if has_prefix env "prod" || str_eq env ""
    then String.◌++◌ prefix (String.◌++◌ "-" identifier)
    else String.◌++◌ prefix (String.◌++◌ "-" (String.◌++◌ identifier (String.◌++◌ "-" env)))

abbrev pub of_nil : Option Error → Outcome (Unit {0})
of_nil none = ok tt
of_nil (some x) = err x

module _ (sdk : Sdk) (config : Config) where
  -- isAWSOperationError and isAWSUnauthorizedError
  abbrev in_text : Option String → String → Bool
  in_text none substr = false
  in_text (some text) substr = contains text substr

  unfoldable pub is_aws_operation_error : Error → String → Bool
  is_aws_operation_error x substr = in_text (sdk.operation_error x) substr

  unfoldable pub is_aws_unauthorized_error : Error → Bool
  unfolding is_aws_operation_error
  is_aws_unauthorized_error x = is_aws_operation_error x "api error UnauthorizedOperation"

  unfoldable pub unauthorized_or : Error → Error
  unfolding is_aws_unauthorized_error
  unauthorized_or x = if is_aws_unauthorized_error x then named unauthorized else x

  unfoldable pub duplicate_or : Error → Error
  unfolding is_aws_unauthorized_error
  duplicate_or x =
      if is_aws_unauthorized_error x
      then named unauthorized
      else if is_aws_operation_error x "InvalidKeyPair.Duplicate"
      then named duplicate_pubkey
      else x

  abbrev pub mapped : {A : Type 0} → String → (Error → Error) → Outcome A → Outcome A
  mapped message of_error (ok a) = ok a
  mapped message of_error (err x) = err (wrapped message (of_error x))
  mapped message of_error panic = panic

  -- A call of the SDK, whose error is replaced and then wrapped.
  unfoldable pub call :
      {A : Type 0}
      → Client
      → String
      → (Error → Error)
      → (List Request → Outcome A)
      → Call
      → Action Request A
  call c message of_error answer r log =
      (mapped message of_error (answer log), log ++ record { client = c; call = r } ∷ [])

  unfoldable pub unless_service : {A : Type 0} → Client → Action Request A → Action Request A
  unless_service c m =
      if not c.assumed then lift (err (named service_account_unsupported_operation)) else m

  abbrev pub region_or_default : String → String
  region_or_default region = if str_eq region "" then config.default_region else region

  -- newEC2ClientWithRegion
  unfoldable pub new_ec2_client_with_region : String → Action Request Client
  new_ec2_client_with_region region = do
    annotate "aws"
        (annotate "config error" (lift (of_nil (sdk.config_error (region_or_default region)))))
    pure (record {
      credentials = service_account;
      region = region_or_default region;
      assumed = false;
    })

  -- getStsAssumedCredentials; the key, secret and token are dereferenced by its caller.
  unfoldable pub get_sts_assumed_credentials :
      String → String → Action Request (Option String × (Option String × Option String))
  unfolding call
  get_sts_assumed_credentials arn region = do
    annotate "aws sts" (annotate "config error" (lift (of_nil (sdk.config_error region))))
    call (record { credentials = service_account; region = region; assumed = false })
        "cannot assume role" (λ x. x) (λ log. sdk.assumed_credentials log arn)
        (assume_role arn "name")

  -- newAssumedEC2ClientWithRegion
  unfoldable pub new_assumed_ec2_client_with_region :
      Authentication → String → Action Request Client
  unfolding get_sts_assumed_credentials must_be
  new_assumed_ec2_client_with_region auth region = do
    annotate "unexpected authentication" (lift (of_nil (must_be auth aws)))
    keys ← get_sts_assumed_credentials auth.payload (region_or_default region)
    key ← lift (deref keys.0)
    secret ← lift (deref keys.1.0)
    token ← lift (deref keys.1.1)
    annotate "aws"
        (annotate "config error" (lift (of_nil (sdk.config_error (region_or_default region)))))
    pure (record {
      credentials = session key secret token;
      region = region_or_default region;
      assumed = true;
    })

  -- ImportPubkey
  unfoldable pub import_pubkey : Client → Pubkey → String → Action Request String
  unfolding unless_service call
  import_pubkey c key tag = unless_service c (do
    id ←
        call c (String.◌++◌ "cannot import SSH key " key.name) duplicate_or sdk.key_pair_id
          (import_key_pair key.name key.body tag)
    lift (deref id))

  abbrev first_name : List (Option String) → Outcome String
  first_name [] = err (wrapped "SSH key not found by its fingerprint" (named pubkey_not_found))
  first_name (name ∷ names) = deref name

  -- GetPubkeyName
  unfoldable pub get_pubkey_name : Client → String → Action Request String
  unfolding unless_service call
  get_pubkey_name c fingerprint = unless_service c (do
    pairs ←
        call c (String.◌++◌ "cannot fetch SSH key to update its tag " fingerprint) unauthorized_or
          sdk.key_pairs (describe_key_pairs fingerprint)
    lift (first_name pairs))

  -- DeleteSSHKey
  unfoldable pub delete_ssh_key : Client → String → Action Request (Unit {0})
  unfolding unless_service call
  delete_ssh_key c handle = unless_service c (
      call c (String.◌++◌ "cannot delete SSH key " (sdk.pointer_text handle)) unauthorized_or
        sdk.deleted (delete_key_pair handle))

  -- ListAllRegions
  unfoldable pub list_all_regions : Client → Action Request (List String)
  unfolding call deref_all
  list_all_regions c = do
    output ← call c "cannot list regions" unauthorized_or sdk.regions describe_regions
    lift (deref_all output)

  -- Status
  unfoldable pub status : Client → Action Request (Unit {0})
  unfolding list_all_regions
  status c = list_all_regions c >> pure tt

  -- ListAllZones
  unfoldable pub list_all_zones : Client → String → Action Request (List String)
  unfolding call deref_all
  list_all_zones c region = do
    output ←
        call c "cannot list zones" unauthorized_or sdk.zones (describe_availability_zones region)
    lift (deref_all output)

  -- The loop over a paginator: `res` is what the pages gave so far.
  unfoldable pub collect :
      {A : Type 0}
      → Client
      → String
      → Call
      → List (Outcome (List A))
      → List A
      → Action Request (List A)
  unfolding call
  collect c message next [] res = pure res
  collect c message next (page ∷ pages) res = do
    l ← call c message unauthorized_or (λ log. page) next
    collect c message next pages (res ++ l)

  -- ListInstanceTypes
  unfoldable pub list_instance_types : Client → Action Request (List InstanceType)
  unfolding collect new_instance_types
  list_instance_types c = do
    res ← collect c "cannot list instance types" next_instance_types sdk.type_pages []
    annotate "cannot convert instance types" (lift (new_instance_types config.supported_types res))

  abbrev template_of : Option String × Option String → LaunchTemplate
  template_of t = record { id = from t.0; name = from t.1 }

  -- ListLaunchTemplates
  unfoldable pub list_launch_templates : Client → Action Request (List LaunchTemplate)
  unfolding collect
  list_launch_templates c = do
    res ← collect c "cannot list launch templates" next_launch_templates sdk.template_pages []
    pure (map template_of res)

  -- DescribeInstanceDetails
  unfoldable pub describe_instance_details :
      Client → List String → Action Request (List InstanceDescription)
  unfolding call parse_describe_instances
  describe_instance_details c ids = do
    resp ←
        call c "cannot fetch instances description" unauthorized_or sdk.reservations
          (describe_instances ids)
    annotate "failed to fetch instances description" (lift (parse_describe_instances resp))

  abbrev launch_template : String → Option String
  launch_template id = if str_eq id "" then none else some id

  abbrev name_tag : Option String → List (String × String)
  name_tag none = []
  name_tag (some name) = ("Name", name) ∷ []

  unfoldable pub run_input : Params → ℕ → Option String → ℕ → RunInput
  run_input params amount name reservation_id = record {
    launch_template_id = launch_template params.launch_template_id;
    max_count = amount;
    min_count = amount;
    instance_type = params.instance_type;
    image_id = params.ami;
    key_name = params.key_name;
    user_data = sdk.base64 params.user_data;
    tags =
        ("rh-rid", environment_prefix config.environment "r" (format_int reservation_id))
        ∷ name_tag name;
  }

  -- RunInstances, with the id of the reservation of AWS; parseRunInstancesResponse keeps the pointers.
  unfoldable pub run_instances_of :
      Client
      → Params
      → ℕ
      → Option String
      → ℕ
      → Action Request (List (Option String) × Option String)
  unfolding unless_service call run_input
  run_instances_of c params amount name reservation_id = unless_service c (
      call c "cannot run instances" unauthorized_or sdk.ran
        (run_instances (run_input params amount name reservation_id)))

  -- GetAccountId
  unfoldable pub get_account_id : Client → Action Request String
  unfolding call
  get_account_id c = do
    account ← call c "cannot get caller's identity" (λ x. x) sdk.account get_caller_identity
    lift (deref account)
