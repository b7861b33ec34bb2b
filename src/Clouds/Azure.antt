-- ===== src/Clouds/Azure.antt =====
-- The client of Azure (internal/clients/http/azure): azure_client.go, create_vm.go and create_vms.go. A request
-- is what is handed to the SDK; `start` is BeginCreateOrUpdate and `poll` is PollUntilDone of what was started.
-- The `id` of a resource is always there, an address may not be.
mod Api
pub mod Catalog
pub mod Requests
pub mod Networking
pub mod Machines
pub mod Creation
use Prim.Native.String
use provisioning_backend.Common.{
  ℕ, zero, suc, String, Bool, true, Option, none, some, List, [], ◌∷◌, ◌++◌, if◌then◌else◌,
}
use provisioning_backend.Errors.{Error, wrapped}
use provisioning_backend.Models.{InstanceDescription}
use provisioning_backend.Backends.Outcome.{Outcome, ok, err, panic, deref}
use provisioning_backend.Clouds.Actions.{Action, pure, lift, annotate, attempt, send, ◌>>=◌, ◌>>◌}
pub use Api.*

abbrev rule_22 : String → String → String → SecurityRule
rule_22 name description direction = record {
  name = name;
  source_address_prefix = "0.0.0.0/0";
  source_port_range = "*";
  destination_address_prefix = "0.0.0.0/0";
  destination_port_range = "22";
  protocol = "Tcp";
  access = "Allow";
  priority = 100;
  description = description;
  direction = direction;
}

-- The rules of the security group: port 22, in and out.
abbrev pub security_rules : List SecurityRule
security_rules =
    rule_22 "inbound_22" "network security group inbound port 22" "Inbound"
    ∷ rule_22 "outbound_22" "network security group outbound port 22" "Outbound"
    ∷ []

abbrev pub of_nil : Option Error → Outcome (Unit {0})
of_nil none = ok tt
of_nil (some x) = err x

-- What the loops of CreateVMs keep of a machine: the address and the token.
pub record Started : Type 0 where
  pub public_ipv4 : String
  pub resume_token : String

module _ (sdk : Sdk) where
  abbrev pub ask : Request → Action Request Reply
  ask = send sdk.answer

  -- The client of a kind of resources, and its error.
  abbrev pub new_client : String → Action Request (Unit {0})
  new_client kind =
      annotate (String.◌++◌ "unable to create " (String.◌++◌ kind " Azure client"))
        (lift (of_nil (sdk.new_client kind)))

  -- BeginCreateOrUpdate and PollUntilDone.
  abbrev pub create : String → String → String → Resource → Action Request Reply
  create kind group name r = do
    annotate (String.◌++◌ "create of " (String.◌++◌ kind " failed to start"))
        (ask (start group name r))
    annotate (String.◌++◌ "failed to poll for create " (String.◌++◌ kind " result"))
        (ask (poll group name r))

  abbrev found_or : Outcome Reply → String → Action Request Reply → Action Request Reply
  found_or (ok r) message otherwise = pure r
  found_or (err x) message otherwise =
      if sdk.is_not_found x then otherwise else lift (err (wrapped message x))
  found_or panic message otherwise = lift panic

  -- EnsureResourceGroup; its creation is not polled.
  unfoldable pub ensure_resource_group : String → String → Action Request String
  ensure_resource_group name location = do
    new_client "resources"
    got ← attempt (ask (get_resource_group name))
    r ←
        found_or got "failed to fetch resource group"
          (annotate "cannot create resource group" (ask (start "" name (resource_group location))))
    pure r.id

  -- createVirtualNetwork
  unfoldable pub create_virtual_network : String → String → String → Action Request Reply
  create_virtual_network location group name = do
    new_client "Virtual networks"
    got ← attempt (ask (get_virtual_network group name))
    found_or got "failed to fetch virtual network"
        (create "virtual network" group name (virtual_network location vpn_ip_address))

  -- createSubnets
  unfoldable pub create_subnets : String → String → String → Action Request Reply
  create_subnets group vnet name =
      new_client "SSH keys" >> create "subnet" group name (subnetwork vnet vpn_ip_address)

  -- createNetworkSecurityGroup
  unfoldable pub create_network_security_group : String → String → String → Action Request Reply
  create_network_security_group location group name =
      new_client "security groups"
      >> create "network security group" group name (security_group location security_rules)

  -- createPublicIP
  unfoldable pub create_public_ip : String → String → String → Action Request Reply
  create_public_ip location group name =
      new_client "public IP addresses"
      >> create "public IP address" group name (public_ip location "Static")

  -- createNetworkInterface
  unfoldable pub create_network_interface :
      String → String → Reply → Reply → Reply → String → Action Request Reply
  create_network_interface location group subnet ip nsg name =
      new_client "interfaces"
      >> create "network interface" group name (network_interface location subnet.id ip.id nsg.id)

  -- ensureSharedNetworking: the subnet and the security group.
  unfoldable pub ensure_shared_networking : String → String → Action Request (Reply × Reply)
  unfolding create_virtual_network create_subnets create_network_security_group
  ensure_shared_networking location group = do
    create_virtual_network location group vnet_name
    subnet ← create_subnets group vnet_name subnet_name
    nsg ← create_network_security_group location group nsg_name
    pure (subnet, nsg)

  -- prepareVMNetworking: the interface and the address.
  unfoldable pub prepare_vm_networking :
      Reply → Reply → Params → String → Action Request (Reply × Reply)
  unfolding create_public_ip create_network_interface
  prepare_vm_networking subnet nsg params vm_name = do
    ip ← create_public_ip params.location params.resource_group_name (String.◌++◌ vm_name "_ip")
    nic ←
        create_network_interface params.location params.resource_group_name subnet ip nsg
          (String.◌++◌ vm_name "_nic")
    pure (nic, ip)

  -- prepareVirtualMachineParameters
  unfoldable pub prepare_virtual_machine_parameters : Reply → Params → String → Machine
  prepare_virtual_machine_parameters nic params vm_name = record {
    location = params.location;
    identity_type = "None";
    create_option = "FromImage";
    caching = "ReadWrite";
    storage_account_type = "Standard_LRS";
    disable_password_authentication = true;
    vm_size = params.instance_type;
    image_id = params.image_id;
    computer_name = vm_name;
    admin_username = "azureuser";
    key_path = "/home/azureuser/.ssh/authorized_keys";
    key_data = params.pubkey_body;
    network_interface_id = nic.id;
    user_data = sdk.base64 params.user_data;
  }

  -- BeginCreateVM: the token by which the creation is waited for.
  unfoldable pub begin_create_vm : Reply → Params → String → Action Request String
  unfolding prepare_virtual_machine_parameters
  begin_create_vm nic params vm_name = do
    new_client "VM"
    let machine = prepare_virtual_machine_parameters nic params vm_name
    poller ←
        annotate "create of virtual machine failed to start"
          (ask (start params.resource_group_name vm_name (virtual_machine machine)))
    annotate "cannot generate Azure resume token" (lift (sdk.resume_token poller))

  -- WaitForVM
  unfoldable pub wait_for_vm : String → Action Request String
  wait_for_vm token = do
    new_client "VM"
    annotate "polling of virtual machine creation status failed to start" (ask (resume token))
    r ← annotate "failed to poll for create virtual machine status" (ask (poll_token token))
    pure r.id

  -- One round of the first loop of CreateVMs.
  unfoldable pub start_vm : Reply → Reply → Params → String → Action Request Started
  unfolding prepare_vm_networking begin_create_vm
  start_vm subnet nsg params prefix = do
    uuid ← annotate "could not generate a new UUID" (λ log. (sdk.new_uuid log, log))
    let vm_name = String.◌++◌ prefix (String.◌++◌ "-" uuid)
    (nic, ip) ← prepare_vm_networking subnet nsg params vm_name
    address ← lift (deref ip.ip_address)
    token ←
        annotate "cannot start a create of Azure instance(s)" (begin_create_vm nic params vm_name)
    pure (record { public_ipv4 = address; resume_token = token })

  unfoldable pub start_vms : Reply → Reply → Params → String → ℕ → Action Request (List Started)
  unfolding start_vm
  start_vms subnet nsg params prefix zero = pure []
  start_vms subnet nsg params prefix (suc amount) = do
    s ← start_vm subnet nsg params prefix
    rest ← start_vms subnet nsg params prefix amount
    pure (s ∷ rest)

  -- The second loop.
  unfoldable pub wait_for_vms : List Started → Action Request (List InstanceDescription)
  unfolding wait_for_vm
  wait_for_vms [] = pure []
  wait_for_vms (s ∷ started) = do
    id ← annotate "cannot create Azure instance(s)" (wait_for_vm s.resume_token)
    rest ← wait_for_vms started
    pure (record { id = id; public_dns = ""; public_ipv4 = s.public_ipv4 } ∷ rest)

  -- CreateVMs; what it returns beside an error is read by no caller.
  unfoldable pub create_vms : Params → ℕ → String → Action Request (List InstanceDescription)
  unfolding ensure_shared_networking start_vms wait_for_vms
  create_vms params amount prefix = do
    (subnet, nsg) ← ensure_shared_networking params.location params.resource_group_name
    started ← start_vms subnet nsg params prefix amount
    wait_for_vms started
