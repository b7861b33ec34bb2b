-- ===== src/Clouds/Azure/Api.antt =====
-- What the client of Azure hands to the SDK and reads of its answers (internal/clients/http/azure/create_vm.go).
use provisioning_backend.Common.{ℕ, String, Bool, Option, List}
use provisioning_backend.Errors.{Error}
use provisioning_backend.Backends.Outcome.{Outcome}

-- The parameters of a machine, as prepareVirtualMachineParameters sets them.
pub record Machine : Type 0 where
  pub location : String
  pub identity_type : String
  pub create_option : String
  pub caching : String
  pub storage_account_type : String
  pub disable_password_authentication : Bool
  pub vm_size : String
  pub image_id : String
  pub computer_name : String
  pub admin_username : String
  pub key_path : String
  pub key_data : String
  pub network_interface_id : String
  pub user_data : String

pub record SecurityRule : Type 0 where
  pub name : String
  pub source_address_prefix : String
  pub source_port_range : String
  pub destination_address_prefix : String
  pub destination_port_range : String
  pub protocol : String
  pub access : String
  pub priority : ℕ
  pub description : String
  pub direction : String

-- What is created: a resource of a group and a name.
pub data Resource : Type 0 where
  resource_group : String → Resource
  -- location, address prefix
  virtual_network : String → String → Resource
  -- virtual network, address prefix
  subnetwork : String → String → Resource
  security_group : String → List SecurityRule → Resource
  -- location, allocation method
  public_ip : String → String → Resource
  -- location, and the ids of its subnet, address and security group
  network_interface : String → String → String → String → Resource
  virtual_machine : Machine → Resource

pub data Request : Type 0 where
  -- group and name
  get_resource_group : String → Request
  get_virtual_network : String → String → Request
  get_subscription list_page : String → Request
  start poll : String → String → Resource → Request
  -- by the resume token
  resume poll_token : String → Request

-- The fields of an answer that are read.
pub record Reply : Type 0 where
  pub id : String
  pub ip_address : Option String

pub record Sdk : Type 0 where
  pub answer : List Request → Request → Outcome Reply
  -- the error of a client's constructor, by its kind
  pub new_client : String → Option Error
  -- azcore.ResponseError with status 404
  pub is_not_found : Error → Bool
  pub resume_token : Reply → Outcome String
  pub new_uuid : List Request → Outcome String
  pub base64 : String → String

-- AzureInstanceParams
pub record Params : Type 0 where
  pub location : String
  pub resource_group_name : String
  pub image_id : String
  pub pubkey_body : String
  pub instance_type : String
  pub user_data : String

abbrev pub vnet_name : String
vnet_name = "redhat-vnet"

abbrev pub subnet_name : String
subnet_name = "redhat-subnet"

abbrev pub nsg_name : String
nsg_name = "redhat-nsg"

abbrev pub vpn_ip_address : String
vpn_ip_address = "172.22.0.0/16"
