-- ===== src/Models.antt =====
-- The data of internal/models, of internal/clients (authentications, instance descriptions and
-- types) and of pkg/worker (jobs). An id is a positive number; 0 is the id of a record that is not
-- yet stored. Times are numbers. Fields that no modelled code reads are left out.
use provisioning_backend.Common.{ℕ, String, Bool, Option, List, ◌==◌, str_eq, if◌then◌else◌}
use provisioning_backend.Errors.{Error, named, wrapped, unknown_authentication_type}

pub data ProviderType : Type 0 where
  unknown noop aws azure gcp : ProviderType

abbrev pub provider_code : ProviderType → ℕ
provider_code unknown = 0
provider_code noop = 1
provider_code aws = 2
provider_code azure = 3
provider_code gcp = 4

abbrev pub same_provider : ProviderType → ProviderType → Bool
same_provider p q = provider_code p == provider_code q

-- ProviderTypeFromString, of a text that is lower case already.
unfoldable pub provider_type_from_string : String → ProviderType
provider_type_from_string str =
    if str_eq str "noop"
    then noop
    else if str_eq str "aws"
    then aws
    else if str_eq str "azure"
    then azure
    else if str_eq str "gcp"
    then gcp
    else unknown

-- ProviderType.String
abbrev pub provider_name : ProviderType → String
provider_name noop = "noop"
provider_name aws = "aws"
provider_name azure = "azure"
provider_name gcp = "gcp"
provider_name unknown = ""

-- The column `error` holds a text; here it holds the error whose text that is, none for "".
pub record Reservation : Type 0 where
  pub id : ℕ
  pub provider : ProviderType
  pub account_id : ℕ
  pub created_at : ℕ
  pub steps : ℕ
  pub step_titles : List String
  pub step : ℕ
  pub status : String
  pub error : Option Error
  pub finished_at : Option ℕ
  pub success : Option Bool

pub record AwsDetail : Type 0 where
  pub region : String
  pub name : Option String
  pub launch_template_id : String
  pub instance_type : String
  pub amount : ℕ
  pub power_off : Bool
  pub pubkey_name : String

pub record AzureDetail : Type 0 where
  pub location : String
  pub name : String
  pub instance_size : String
  pub amount : ℕ
  pub power_off : Bool

pub record GcpDetail : Type 0 where
  pub zone : String
  pub name_pattern : Option String
  pub machine_type : String
  pub amount : ℕ
  pub uuid : String
  pub launch_template_id : String
  pub power_off : Bool

-- A row of aws_reservation_details, azure_reservation_details or gcp_reservation_details; `cloud_id`
-- is aws_reservation_id or gcp_operation_name.
pub record Details (D : Type 0) : Type 0 where
  pub reservation_id : ℕ
  pub pubkey_id : ℕ
  pub source_id : String
  pub image_id : String
  pub cloud_id : Option String
  pub detail : D

pub record InstanceDetail : Type 0 where
  pub public_dns : String
  pub public_ipv4 : String

pub record ReservationInstance : Type 0 where
  pub reservation_id : ℕ
  pub instance_id : String
  pub detail : InstanceDetail

pub record InstanceDescription : Type 0 where
  pub id : String
  pub public_dns : String
  pub public_ipv4 : String

pub record Pubkey : Type 0 where
  pub id : ℕ
  pub account_id : ℕ
  pub name : String
  pub body : String
  pub type : String
  pub fingerprint : String
  pub fingerprint_legacy : String

pub record PubkeyResource : Type 0 where
  pub id : ℕ
  pub tag : String
  pub pubkey_id : ℕ
  pub provider : ProviderType
  pub source_id : String
  pub handle : String
  pub region : String

pub record Authentication : Type 0 where
  pub source_application_id : String
  pub provider_type : ProviderType
  pub payload : String

-- Authentication.MustBe: nil is `none`.
unfoldable pub must_be : Authentication → ProviderType → Option Error
must_be auth provider_type =
    if same_provider auth.provider_type provider_type
    then Option.none
    else Option.some
        (wrapped (provider_name auth.provider_type) (named unknown_authentication_type))

pub record AwsArgs : Type 0 where
  pub reservation_id : ℕ
  pub region : String
  pub pubkey_id : ℕ
  pub source_id : String
  pub detail : AwsDetail
  pub ami : String
  pub launch_template_id : String
  pub arn : Authentication

pub record AzureArgs : Type 0 where
  pub reservation_id : ℕ
  pub location : String
  pub pubkey_id : ℕ
  pub source_id : String
  pub azure_image_id : String
  pub subscription : Authentication

pub record GcpArgs : Type 0 where
  pub reservation_id : ℕ
  pub zone : String
  pub pubkey_id : ℕ
  pub detail : GcpDetail
  pub image_name : String
  pub project_id : Authentication
  pub launch_template_id : String

pub record NoopArgs : Type 0 where
  pub reservation_id : ℕ
  pub fail : Bool

-- The arguments of a job tell its type.
pub data JobArgs : Type 0 where
  noop_args : NoopArgs → JobArgs
  aws_args : AwsArgs → JobArgs
  azure_args : AzureArgs → JobArgs
  gcp_args : GcpArgs → JobArgs

pub record Job : Type 0 where
  pub account_id : ℕ
  pub args : JobArgs
