-- ===== src/Services/Requests.antt =====
-- The requests of internal/payloads/reservation_payload.go and pubkey_payload.go.
use provisioning_backend.Common.{ℕ, String, Bool}

pub record AwsRequest : Type 0 where
  pub pubkey_id : ℕ
  pub source_id : String
  pub image_id : String
  pub region : String
  pub launch_template_id : String
  pub instance_type : String
  pub amount : ℕ
  pub name : String
  pub power_off : Bool

pub record AzureRequest : Type 0 where
  pub pubkey_id : ℕ
  pub source_id : String
  pub image_id : String
  pub location : String
  pub instance_size : String
  pub amount : ℕ
  pub name : String
  pub power_off : Bool

pub record GcpRequest : Type 0 where
  pub pubkey_id : ℕ
  pub source_id : String
  pub image_id : String
  pub zone : String
  pub machine_type : String
  pub amount : ℕ
  pub name_pattern : String
  pub power_off : Bool
  pub launch_template_id : String

pub record PubkeyRequest : Type 0 where
  pub name : String
  pub body : String
