-- ===== src/Services/Responses.antt =====
-- The bodies of the responses about reservations (internal/payloads/reservation_payload.go), before they become JSON;
-- the text of an error is the error itself. The pattern of a name of GCP is a pointer that is read.
pub mod Echo
use provisioning_backend.Common.{ℕ, String, Bool, Option, none, some, List, map}
use provisioning_backend.Errors.{Error}
use provisioning_backend.Models.{
  provider_code, Reservation, Details, AwsDetail, AzureDetail, GcpDetail, InstanceDetail,
  ReservationInstance,
}

pub record GenericResponse : Type 0 where
  pub id : ℕ
  pub provider : ℕ
  pub created_at : ℕ
  pub steps : ℕ
  pub step_titles : List String
  pub step : ℕ
  pub status : String
  pub error : Option Error
  pub finished_at : Option ℕ
  pub success : Option Bool

pub record InstanceResponse : Type 0 where
  pub instance_id : String
  pub detail : InstanceDetail

pub record AwsResponse : Type 0 where
  pub id : ℕ
  pub pubkey_id : ℕ
  pub source_id : String
  pub region : String
  pub instance_type : String
  pub amount : ℕ
  pub image_id : String
  pub launch_template_id : String
  pub aws_reservation_id : String
  pub name : String
  pub power_off : Bool
  pub instances : List InstanceResponse

pub record AzureResponse : Type 0 where
  pub id : ℕ
  pub pubkey_id : ℕ
  pub source_id : String
  pub location : String
  pub instance_size : String
  pub amount : ℕ
  pub image_id : String
  pub name : String
  pub power_off : Bool
  pub instances : List InstanceResponse

pub record GcpResponse : Type 0 where
  pub id : ℕ
  pub pubkey_id : ℕ
  pub source_id : String
  pub zone : String
  pub machine_type : String
  pub amount : ℕ
  pub image_id : String
  pub name_pattern : String
  pub gcp_operation_name : String
  pub launch_template_id : String
  pub power_off : Bool
  pub instances : List InstanceResponse

-- StringNullToEmpty of null_convert.go
abbrev pub string_null_to_empty : Option String → String
string_null_to_empty none = ""
string_null_to_empty (some s) = s

-- reservationResponseMapper
unfoldable pub reservation_response_mapper : Reservation → GenericResponse
reservation_response_mapper r = record {
  id = r.id;
  provider = provider_code r.provider;
  created_at = r.created_at;
  steps = r.steps;
  step_titles = r.step_titles;
  step = r.step;
  status = r.status;
  error = r.error;
  finished_at = r.finished_at;
  success = r.success;
}

-- NewReservationListResponse
unfoldable pub new_reservation_list_response : List Reservation → List GenericResponse
unfolding reservation_response_mapper
new_reservation_list_response reservations = map reservation_response_mapper reservations

abbrev pub instance_response : ReservationInstance → InstanceResponse
instance_response i = record { instance_id = i.instance_id; detail = i.detail }

-- NewAWSReservationResponse
unfoldable pub new_aws_reservation_response :
    Reservation × Details AwsDetail → List ReservationInstance → AwsResponse
new_aws_reservation_response (r, d) instances = record {
  id = r.id;
  pubkey_id = d.pubkey_id;
  source_id = d.source_id;
  region = d.detail.region;
  instance_type = d.detail.instance_type;
  amount = d.detail.amount;
  image_id = d.image_id;
  launch_template_id = d.detail.launch_template_id;
  aws_reservation_id = string_null_to_empty d.cloud_id;
  name = string_null_to_empty d.detail.name;
  power_off = d.detail.power_off;
  instances = map instance_response instances;
}

-- NewAzureReservationResponse
unfoldable pub new_azure_reservation_response :
    Reservation × Details AzureDetail → List ReservationInstance → AzureResponse
new_azure_reservation_response (r, d) instances = record {
  id = r.id;
  pubkey_id = d.pubkey_id;
  source_id = d.source_id;
  location = d.detail.location;
  instance_size = d.detail.instance_size;
  amount = d.detail.amount;
  image_id = d.image_id;
  name = d.detail.name;
  power_off = d.detail.power_off;
  instances = map instance_response instances;
}

-- NewGCPReservationResponse: `none` is the panic on a pattern that is nil.
unfoldable pub new_gcp_reservation_response :
    Reservation × Details GcpDetail → List ReservationInstance → Option GcpResponse
new_gcp_reservation_response (r, d) instances = elim d.detail.name_pattern [
  | none ↦ none
  | some pattern ↦ some (record {
    id = r.id;
    pubkey_id = d.pubkey_id;
    source_id = d.source_id;
    zone = d.detail.zone;
    machine_type = d.detail.machine_type;
    amount = d.detail.amount;
    image_id = d.image_id;
    name_pattern = pattern;
    gcp_operation_name = string_null_to_empty d.cloud_id;
    launch_template_id = d.detail.launch_template_id;
    power_off = d.detail.power_off;
    instances = map instance_response instances;
  })
]
