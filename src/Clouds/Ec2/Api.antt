-- ===== src/Clouds/Ec2/Api.antt =====
-- What the client of EC2 hands to the SDK and reads of its answers (internal/clients/http/ec2/ec2_client.go).
use provisioning_backend.Common.{ℕ, String, Bool, Option, List}
use provisioning_backend.Errors.{Error}
use provisioning_backend.Clouds.Ec2.Types.{AwsTypeInfo, Instance}
use provisioning_backend.Backends.Outcome.{Outcome}

-- The keys that requests are signed with: those of the configuration, or those of an assumed role.
pub data Credentials : Type 0 where
  service_account : Credentials
  -- access key, secret, token
  session : String → String → String → Credentials

pub record Client : Type 0 where
  pub credentials : Credentials
  pub region : String
  pub assumed : Bool

-- RunInstancesInput, with the tags of its instances.
pub record RunInput : Type 0 where
  pub launch_template_id : Option String
  pub max_count : ℕ
  pub min_count : ℕ
  pub instance_type : String
  pub image_id : String
  pub key_name : String
  pub user_data : String
  pub tags : List (String × String)

pub data Call : Type 0 where
  -- role and session name
  assume_role : String → String → Call
  -- name, body and the tag "rh-kid"
  import_key_pair : String → String → String → Call
  -- fingerprint
  describe_key_pairs : String → Call
  -- id
  delete_key_pair : String → Call
  describe_regions next_instance_types next_launch_templates get_caller_identity : Call
  -- region
  describe_availability_zones : String → Call
  describe_instances : List String → Call
  run_instances : RunInput → Call

pub record Request : Type 0 where
  pub client : Client
  pub call : Call

pub record LaunchTemplate : Type 0 where
  pub id : String
  pub name : String

-- AWSInstanceParams, as far as it is read.
pub record Params : Type 0 where
  pub launch_template_id : String
  pub ami : String
  pub instance_type : String
  pub key_name : String
  pub user_data : String

pub record Sdk : Type 0 where
  -- awsConfig: the error of LoadDefaultConfig
  pub config_error : String → Option Error
  -- AssumeRole of a role: access key, secret and token
  pub assumed_credentials :
      List Request → String → Outcome (Option String × (Option String × Option String))
  pub key_pair_id : List Request → Outcome (Option String)
  pub key_pairs : List Request → Outcome (List (Option String))
  pub deleted : List Request → Outcome (Unit {0})
  pub regions : List Request → Outcome (List (Option String))
  pub zones : List Request → Outcome (List (Option String))
  pub type_pages : List (Outcome (List AwsTypeInfo))
  pub template_pages : List (Outcome (List (Option String × Option String)))
  -- the instances of each reservation
  pub reservations : List Request → Outcome (List (List Instance))
  -- the instances and the id of the reservation
  pub ran : List Request → Outcome (List (Option String) × Option String)
  pub account : List Request → Outcome (Option String)
  -- errors.As to a smithy.OperationError, and the text of what it wraps
  pub operation_error : Error → Option String
  pub base64 : String → String
  -- how a pointer is printed
  pub pointer_text : String → String

-- What the configuration gives.
pub record Config : Type 0 where
  pub default_region : String
  pub environment : String
  -- supported_instance_types.yml
  pub supported_types : List String
