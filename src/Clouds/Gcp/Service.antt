-- ===== src/Clouds/Gcp/Service.antt =====
-- The client of Google Cloud for the service's own project (internal/clients/http/gcp/gcp_service_client.go): the
-- instance types of all zones are registered. What is registered before an error is not part of the result.
use provisioning_backend.Common.{
  ℕ, ◌+◌, String, false, Option, List, [], ◌∷◌, map, concat, split, str_eq, if◌then◌else◌,
}
use provisioning_backend.Backends.Outcome.{Outcome, ok, err, panic, deref}
use provisioning_backend.InstanceTypes.{
  Slices, InstanceType, RegisteredTypes, AvailabilityMap, register, add,
}
use provisioning_backend.Clouds.Actions.{Action, pure, annotate, ◌>>=◌, ◌>>◌}
use provisioning_backend.Clouds.Gcp.{
  Request, next_region, next_machine_type, Region, MachineType, Sdk, Config, iterate, one,
  new_client,
}

abbrev last_or_blank : List String → String
last_or_blank [] = ""
last_or_blank (s ∷ []) = s
last_or_blank (s ∷ rest) = last_or_blank rest

-- getZone
unfoldable pub get_zone : String → String
get_zone zone = last_or_blank (split zone b'/')

abbrev head_or_blank : List String → String
head_or_blank [] = ""
head_or_blank (s ∷ rest) = s

-- getMachineFamily
unfoldable pub get_machine_family : String → String
get_machine_family machine_type = head_or_blank (split machine_type b'-')

-- getTotalStorage
unfoldable pub get_total_storage : List (Option ℕ) → Outcome ℕ
get_total_storage [] = ok 0
get_total_storage (disk ∷ disks) = added (deref disk) (get_total_storage disks)
  where
    added : Outcome ℕ → Outcome ℕ → Outcome ℕ
    added (ok size) (ok rest) = ok (size + rest)
    added (ok size) o = o
    added o rest = o

module _ (sdk : Sdk) (config : Config) where
  -- ListAllRegionsAndZones: one list of both, taken apart.
  abbrev named_zones : Region → Outcome (List (String × List String))
  named_zones r = one (with_zones (deref r.name))
    where
      with_zones : Outcome String → Outcome (String × List String)
      with_zones (ok name) = ok (name, map get_zone r.zones)
      with_zones (err x) = err x
      with_zones panic = panic

  unfoldable pub list_all_regions_and_zones : Action Request (List String × List String)
  unfolding iterate get_zone
  list_all_regions_and_zones = do
    annotate "unable to list regions and zones" (new_client sdk config "regions" "regions")
    pairs ← iterate "iterator error" (next_region config.project_id) named_zones sdk.regions []
    pure (map (λ p. p.0) pairs, concat (map (λ p. p.1) pairs))

  -- A machine type of ListMachineTypes; `supported` is set when it is registered.
  unfoldable pub of_machine_type : MachineType → Outcome (List InstanceType)
  unfolding get_machine_family get_total_storage
  of_machine_type t =
      with_parts (deref t.name) (deref t.guest_cpus) (deref t.memory_mb)
        (get_total_storage t.scratch_disks)
    where
      with_parts : Outcome String → Outcome ℕ → Outcome ℕ → Outcome ℕ → Outcome (List InstanceType)
      with_parts (ok name) (ok cpus) (ok memory) (ok storage) = ok (
          record {
            name = name;
            vcpus = cpus;
            cores = 0;
            memory_mib = sdk.mb_to_mib memory;
            ephemeral_storage_gb = storage;
            supported = false;
            architecture = if str_eq (get_machine_family name) "t2a" then "arm64" else "x86_64";
          }
          ∷ [])
      with_parts _ _ _ _ = panic

  -- ListMachineTypes
  unfoldable pub list_machine_types : String → Action Request (List InstanceType)
  unfolding iterate of_machine_type
  list_machine_types zone = do
    annotate "unable to list machine types" (new_client sdk config "machine types" "regions")
    let z = if str_eq zone "" then config.default_zone else zone
    iterate "iterator error" (next_machine_type config.project_id z) of_machine_type
        (sdk.machine_types z) []

  abbrev pub Registry : Type 0
  Registry = RegisteredTypes × AvailabilityMap

  -- Register and Add for each type of a zone.
  unfoldable pub register_all : Slices → String → List InstanceType → Registry → Registry
  unfolding register add
  register_all slices zone [] registry = registry
  register_all slices zone (it ∷ its) registry =
      register_all slices zone its (register it registry.0, add slices zone "" it.name registry.1)

  unfoldable pub register_zones : Slices → List String → Registry → Action Request Registry
  unfolding list_machine_types register_all get_zone
  register_zones slices [] registry = pure registry
  register_zones slices (zone ∷ zones) registry = do
    its ← annotate "unable to list gcp machine types" (list_machine_types (get_zone zone))
    register_zones slices zones (register_all slices zone its registry)

  -- RegisterInstanceTypes
  unfoldable pub register_instance_types : Slices → Registry → Action Request Registry
  unfolding list_all_regions_and_zones register_zones
  register_instance_types slices registry = do
    found ← annotate "unable to list GCP regions and zones" list_all_regions_and_zones
    register_zones slices found.1 registry
