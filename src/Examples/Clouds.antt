-- ===== src/Examples/Clouds.antt =====
-- Two machines in Azure, where the virtual network is missing.
use Prim.Native.String
use provisioning_backend.Common.{
  ◌≡◌, refl, String, true, some, none, List, [], ◌∷◌, ◌++◌, All, map, length, concat,
}
use provisioning_backend.Errors.{named, not_found}
use provisioning_backend.Models.{InstanceDescription}
use provisioning_backend.Backends.Outcome.{Outcome, ok, err}
use provisioning_backend.Clouds.Actions.{◌>>=◌, annotate, lift, attempt, send, pure}
use provisioning_backend.Clouds.Azure.{
  Sdk, Params, Request, Reply, get_virtual_network, start, poll, poll_token, create_vms,
  virtual_machine,
}
use provisioning_backend.Clouds.Azure.Networking.{IsShared, IsCreatedIfMissing, shared_requests}
use provisioning_backend.Clouds.Azure.Machines.{
  Vm, IsStarted, NamedInTurn, Describes, InOrder, start_requests, wait_requests,
}
use provisioning_backend.Clouds.Azure.Creation.{create_vms-IsStarted}

abbrev named_reply : String → Reply
named_reply id = record { id = id; ip_address = some "10.0.0.4" }

abbrev answers : List Request → Request → Outcome Reply
answers log (get_virtual_network group name) = err (named not_found)
answers log (start group name r) = ok (named_reply (String.◌++◌ "begun-" name))
answers log (poll group name r) = ok (named_reply (String.◌++◌ "id-" name))
answers log (poll_token token) = ok (named_reply (String.◌++◌ "vm-" token))
answers log r = ok (named_reply "")

abbrev fresh : List Request → String
fresh [] = "1"
fresh (start group name (virtual_machine m) ∷ log) = "2"
fresh (r ∷ log) = fresh log

abbrev azure : Sdk
azure = record {
  answer = answers;
  new_client = λ kind. none;
  is_not_found = λ x. true;
  resume_token = λ r. ok r.id;
  new_uuid = λ log. ok (fresh log);
  base64 = λ s. s;
}

abbrev params : Params
params = record {
  location = "westeurope";
  resource_group_name = "redhat-deployed";
  image_id = "image";
  pubkey_body = "ssh-ed25519 AAAA";
  instance_type = "Standard_B1s";
  user_data = "";
}

abbrev described : String → InstanceDescription
described id = record { id = id; public_dns = ""; public_ipv4 = "10.0.0.4" }

abbrev two_machines : List InstanceDescription
two_machines = described "vm-begun-web-1" ∷ described "vm-begun-web-2" ∷ []

abbrev requests : List Request
requests = (create_vms azure params 2 "web" []).1

create_vms-two_machines : create_vms azure params 2 "web" [] ≡ (ok two_machines, requests)
unfolding create_vms ◌>>=◌ annotate lift attempt send pure
create_vms-two_machines = refl

create_vms-IsStarted_example :
    (created : List Request) × (subnet : Reply) × (nsg : Reply) × (vms : List Vm)
    × IsCreatedIfMissing azure params [] created
    × IsShared azure params subnet nsg
    × (length vms ≡ 2)
    × All (IsStarted azure params subnet nsg) vms
    × NamedInTurn azure params subnet nsg "web" ([] ++ shared_requests params created) vms
    × InOrder (Describes azure) two_machines vms
    × (requests
        ≡ []
          ++ (shared_requests params created
              ++ (concat (map (start_requests azure params subnet nsg) vms)
                  ++ concat (map wait_requests vms))))
create_vms-IsStarted_example =
    create_vms-IsStarted azure params 2 "web" two_machines [] requests create_vms-two_machines
