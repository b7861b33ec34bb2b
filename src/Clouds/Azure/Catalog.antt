-- ===== src/Clouds/Azure/Catalog.antt =====
-- What the program reads of Azure: the client of a subscription (internal/clients/http/azure/azure_client.go), and the
-- instance types that the client of the service registers (azure_service_client.go), without the details of Azure and
-- the counts of restrictions, which are only logged. The pointers of an answer are there; what is registered before an
-- error is not part of the result. The readers of numbers of package strconv and strings.ToLower are parameters.
use provisioning_backend.Common.{
  ℕ, zero, suc, ◌/◌, String, Bool, false, not, List, [], ◌∷◌, ◌++◌, str_eq, if◌then◌else◌,
}
use provisioning_backend.Errors.{wrapped}
use provisioning_backend.World
use provisioning_backend.Backends.Outcome.{Outcome, ok, err, panic}
use provisioning_backend.InstanceTypes.{
  Slices, InstanceType, RegisteredTypes, AvailabilityMap, register, add, map_architectures,
  set_ephemeral_storage_from_mb,
}
use provisioning_backend.Clouds.Actions.{Action, pure, lift, annotate, send, ◌>>=◌, ◌>>◌}
use provisioning_backend.Clouds.Azure.{
  Request, get_subscription, list_page, Reply, Sdk, new_client, of_nil,
}

-- ResourceSKU, as far as it is read: the name and value of each capability, whether it is restricted, and the zones of
-- each location.
pub record Sku : Type 0 where
  pub name : String
  pub resource_type : String
  pub capabilities : List (String × String)
  pub restricted : Bool
  pub locations : List (String × List String)

pub record Texts : Type 0 where
  -- strconv.ParseInt to 32 bits, and strconv.Atoi
  pub parse_int : String → Outcome ℕ
  pub atoi : String → Outcome ℕ
  -- strconv.ParseFloat, the product by 1000 and its conversion to an int64
  pub parse_thousandths : String → Outcome ℕ
  pub to_lower : String → String

-- The answers of the pagers.
pub record Pages : Type 0 where
  pub groups : List (Outcome (List String))
  pub skus : List (Outcome (List Sku))

module _ (sdk : Sdk) (pages : Pages) (texts : Texts) where
  abbrev ask_subscription : String → Action Request Reply
  ask_subscription id = send sdk.answer (get_subscription id)

  -- Status
  unfoldable pub status : String → Action Request (Unit {0})
  status subscription_id = do
    annotate "unable to initialize status request" (new_client sdk "subscriptioons")
    annotate "unable to perform status request" (ask_subscription subscription_id)
    pure tt

  -- TenantId
  unfoldable pub tenant_id : String → (Reply → String) → Action Request String
  tenant_id subscription_id tenant_of = do
    new_client sdk "subscriptioons"
    response ← annotate "failed to fetch subscription" (ask_subscription subscription_id)
    pure (tenant_of response)

  -- The loop over a pager, which hands each page on.
  unfoldable pub each_page :
      {A S : Type 0}
      → String
      → String
      → (A → S → Outcome S)
      → List (Outcome A)
      → S
      → Action Request S
  each_page message kind step [] s = pure s
  each_page message kind step (answer ∷ answers) s = do
    page ← annotate message (send (λ _ _. answer) (list_page kind))
    s' ← lift (step page s)
    each_page message kind step answers s'

  -- ListResourceGroups
  unfoldable pub list_resource_groups : Action Request (List String)
  unfolding each_page
  list_resource_groups = do
    new_client sdk "resources"
    each_page "failed to fetch resource groups" "groups" (λ names list. ok (list ++ names))
        pages.groups []

  abbrev mark : {A : Type 0} → Outcome A → Outcome A
  mark (ok a) = ok a
  mark (err x) = err (wrapped "unable to generate types" x)
  mark panic = panic

  abbrev of_result : {A : Type 0} → World.Result A → Outcome A
  of_result (World.ok a) = ok a
  of_result (World.err x) = err x

  abbrev updated : {A B : Type 0} → (A → B) → Outcome A → Outcome B
  updated f (ok a) = ok (f a)
  updated f (err x) = err x
  updated f panic = panic

  -- One capability in the loop of typeFromSKU: the type so far, and the virtual CPUs of a core.
  unfoldable pub apply_capability : String × String → InstanceType × ℕ → Outcome (InstanceType × ℕ)
  unfolding map_architectures set_ephemeral_storage_from_mb
  apply_capability (name, value) (it, per_core) =
      if str_eq name "CpuArchitectureType"
      then updated (λ arch. (record it { architecture = arch }, per_core))
          (mark (of_result (map_architectures value)))
      else if str_eq name "vCPUs"
      then updated (λ n. (record it { vcpus = n }, per_core)) (mark (texts.parse_int value))
      else if str_eq name "vCPUsPerCore"
      then updated (λ n. (it, n)) (mark (texts.parse_int value))
      else if str_eq name "MaxResourceVolumeMB"
      then updated (λ mb. (set_ephemeral_storage_from_mb mb it, per_core)) (mark (texts.atoi value))
      else if str_eq name "MemoryGB"
      then updated (λ n. (record it { memory_mib = n }, per_core))
          (mark (texts.parse_thousandths value))
      else ok (it, per_core)

  unfoldable pub apply_capabilities :
      List (String × String) → Outcome (InstanceType × ℕ) → Outcome (InstanceType × ℕ)
  unfolding apply_capability
  apply_capabilities [] o = o
  apply_capabilities (c ∷ cs) (ok s) = apply_capabilities cs (apply_capability c s)
  apply_capabilities (c ∷ cs) o = o

  -- A type has as many cores as virtual CPUs if it has no hyper-threading.
  abbrev with_cores : InstanceType × ℕ → InstanceType
  with_cores (it, zero) = record it { cores = it.vcpus }
  with_cores (it, suc n) = record it { cores = it.vcpus / suc n }

  -- typeFromSKU
  unfoldable pub type_from_sku : Sku → Outcome InstanceType
  unfolding apply_capabilities
  type_from_sku sku = updated with_cores (
      apply_capabilities sku.capabilities (
        ok (
          record {
            name = sku.name;
            vcpus = 0;
            cores = 0;
            memory_mib = 0;
            ephemeral_storage_gb = 0;
            supported = false;
            architecture = "";
          },
          0,
        )))

  abbrev pub Registry : Type 0
  Registry = RegisteredTypes × AvailabilityMap

  unfoldable pub add_zones :
      Slices → String → String → List String → AvailabilityMap → AvailabilityMap
  unfolding add
  add_zones slices name location [] types = types
  add_zones slices name location (zone ∷ zones) types =
      add_zones slices name location zones
        (add slices (texts.to_lower location) (texts.to_lower zone) name types)

  unfoldable pub add_locations :
      Slices → String → List (String × List String) → AvailabilityMap → AvailabilityMap
  unfolding add_zones
  add_locations slices name [] types = types
  add_locations slices name ((location, zones) ∷ locations) types =
      add_locations slices name locations (add_zones slices name location zones types)

  -- A machine type is registered, and available where it is not restricted.
  unfoldable pub register_sku : Slices → Sku → Registry → Outcome Registry
  unfolding register type_from_sku add_locations
  register_sku slices sku registry =
      if not (str_eq sku.resource_type "virtualMachines")
      then ok registry
      else updated
          (λ it. (
            register it registry.0,
            if sku.restricted
                then registry.1
                else add_locations slices it.name sku.locations registry.1,
          ))
          (type_from_sku sku)

  unfoldable pub register_skus : Slices → List Sku → Registry → Outcome Registry
  unfolding register_sku
  register_skus slices [] registry = ok registry
  register_skus slices (sku ∷ skus) registry = elim (register_sku slices sku registry) [
    | ok registry' ↦ register_skus slices skus registry'
    | err x ↦ err x
    | panic ↦ panic
  ]

  -- RegisterInstanceTypes
  unfoldable pub register_instance_types : Slices → Registry → Action Request Registry
  unfolding each_page register_skus
  register_instance_types slices registry = do
    annotate "unable to generate types" (lift (of_nil (sdk.new_client "skus")))
    each_page "unable to generate types" "skus" (register_skus slices) pages.skus registry
