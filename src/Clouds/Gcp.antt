-- ===== src/Clouds/Gcp.antt =====
-- The clients of Google Cloud (internal/clients/http/gcp/gcp_client.go). A request is a
-- call of the SDK or a step of an iterator, whose answers up to iterator.Done are a list. The arithmetic on float32
-- of mbToMib is a parameter.
pub mod Service
pub mod Insertion
use Prim.Native.String
use provisioning_backend.Common.{
  ℕ, ◌+◌, String, Bool, true, false, not, Option, none, some, List, [], ◌∷◌, ◌++◌, map, concat,
  split, str_eq, format_int, if◌then◌else◌,
}
use provisioning_backend.Errors.{Error, named, wrapped, opaque, operation_failed}
use provisioning_backend.Models.{Authentication, InstanceDescription}
use provisioning_backend.Backends.Outcome.{Outcome, ok, err, panic, deref}
use provisioning_backend.InstanceTypes.{
  Slices, InstanceType, RegisteredTypes, AvailabilityMap, register, add,
}
use provisioning_backend.Clouds.Ec2.{environment_prefix, LaunchTemplate}
use provisioning_backend.Clouds.Ec2.Types.{deref_all}
use provisioning_backend.Clouds.Actions.{Action, pure, lift, annotate, send, ◌>>=◌, ◌>>◌}

-- GCPInstanceParams
pub record Params : Type 0 where
  pub name_pattern : String
  pub image_name : String
  pub machine_type : String
  pub reservation_id : ℕ
  pub uuid : String
  pub launch_template_id : String
  pub zone : String
  pub key_body : String
  pub startup_script : String

-- BulkInsertInstanceRequest, with its one disk and its one network interface.
pub record BulkInsert : Type 0 where
  pub project : String
  pub zone : String
  pub name_pattern : String
  pub count : ℕ
  pub min_count : ℕ
  pub labels : List (String × String)
  pub source_image : String
  pub auto_delete : Bool
  pub boot : Bool
  pub disk_type : String
  pub machine_type : String
  pub access_config : String × String
  pub network : String
  pub metadata : List (String × String)
  pub source_instance_template : Option String

pub data Request : Type 0 where
  -- project
  next_region next_templates : String → Request
  bulk_insert : BulkInsert → Request
  -- operation
  wait : String → Request
  -- project and filter
  next_instances : String → String → Request
  -- project, zone and id
  get_instance : String → String → String → Request
  -- project and zone
  next_machine_type : String → String → Request

pub record Operation : Type 0 where
  pub name : String
  pub done : Bool

-- An instance: its id, and the first access configuration of each interface with its address.
pub record Instance : Type 0 where
  pub id : ℕ
  pub interfaces : List (Option (Option String))

pub record Region : Type 0 where
  pub name : Option String
  pub zones : List String

-- MachineType, as far as it is read.
pub record MachineType : Type 0 where
  pub name : Option String
  pub guest_cpus : Option ℕ
  pub memory_mb : Option ℕ
  pub scratch_disks : List (Option ℕ)

pub record Sdk : Type 0 where
  -- the error of a client's constructor, by its kind
  pub new_client : String → Option Error
  pub regions : List (Outcome Region)
  pub templates : List (Outcome (List (Option ℕ × String)))
  pub inserted : List Request → Outcome String
  pub waited : List Request → Outcome Operation
  -- the instances that the service lists for a filter
  pub instances : String → List (Outcome (List ℕ))
  pub got : List Request → Outcome Instance
  -- the machine types of a zone
  pub machine_types : String → List (Outcome MachineType)
  pub mb_to_mib : ℕ → ℕ

pub record Config : Type 0 where
  pub project_id : String
  pub default_zone : String
  pub environment : String

abbrev pub of_nil : Option Error → Outcome (Unit {0})
of_nil none = ok tt
of_nil (some x) = err x

-- BodyWithUsername of internal/models/pubkey_model.go
abbrev user_of : List String → Outcome String
user_of (type ∷ key ∷ rest) = ok (String.◌++◌ "gcp-user:" (String.◌++◌ type (String.◌++◌ " " key)))
user_of _ = err (opaque "invalid public key format")

unfoldable pub body_with_username : String → Outcome String
body_with_username body = user_of (split body b' ')

-- The loop over an iterator: `res` is what the answers gave so far.
unfoldable pub iterate :
    {A B : Type 0}
    → String
    → Request
    → (A → Outcome (List B))
    → List (Outcome A)
    → List B
    → Action Request (List B)
iterate message next read [] res = pure res
iterate message next read (answer ∷ answers) res = do
  a ← annotate message (send (λ _ _. answer) next)
  l ← lift (read a)
  iterate message next read answers (res ++ l)

abbrev pub one : {A : Type 0} → Outcome A → Outcome (List A)
one (ok a) = ok (a ∷ [])
one (err x) = err x
one panic = panic

abbrev template_of : Option ℕ × String → Outcome LaunchTemplate
template_of (none, name) = panic
template_of (some id, name) = ok (record { id = format_int id; name = name })

abbrev all_of : {A B : Type 0} → (A → Outcome B) → List A → Outcome (List B)
all_of {B = B} f [] = ok []
all_of {B = B} f (a ∷ l) = prepended (f a) (all_of f l)
  where
    prepended : Outcome B → Outcome (List B) → Outcome (List B)
    prepended (ok b) (ok bs) = ok (b ∷ bs)
    prepended (ok b) o = o
    prepended (err x) o = err x
    prepended panic o = panic

module _ (sdk : Sdk) (config : Config) where
  abbrev pub new_client : String → String → Action Request (Unit {0})
  new_client kind what =
      annotate (String.◌++◌ "unable to create GCP " (String.◌++◌ what " client"))
        (lift (of_nil (sdk.new_client kind)))

  -- newInstancesClient, and the error of its callers.
  abbrev pub new_instances_client : Action Request (Unit {0})
  new_instances_client =
      annotate "unable to get instances client" (new_client "instances" "regions")

  -- ListAllRegions
  unfoldable pub list_all_regions : Authentication → Action Request (List String)
  unfolding iterate
  list_all_regions auth = do
    new_client "regions" "regions"
    iterate "iterator error" (next_region auth.payload) (λ r. one (deref r.name)) sdk.regions []

  -- Status
  unfoldable pub status : Authentication → Action Request (Unit {0})
  unfolding list_all_regions
  status auth = list_all_regions auth >> pure tt

  -- ListLaunchTemplates
  unfoldable pub list_launch_templates : Authentication → Action Request (List LaunchTemplate)
  unfolding iterate
  list_launch_templates auth = do
    annotate "unable to get instances client" (new_client "templates" "templates")
    iterate "cannot list launch templates" (next_templates auth.payload) (all_of template_of)
        sdk.templates []

  abbrev pub label_filter : String → String
  label_filter uuid = String.◌++◌ "labels.rh-uuid=" uuid

  -- ListInstancesIDsByLabel
  unfoldable pub list_instances_ids_by_label :
      Authentication → String → Action Request (List String)
  unfolding iterate
  list_instances_ids_by_label auth uuid = do
    new_instances_client
    iterate "cannot fetch instance ids" (next_instances auth.payload (label_filter uuid))
        (λ ids. ok (map format_int ids)) (sdk.instances (label_filter uuid)) []

  abbrev template_path : String → Option String
  template_path id =
      if str_eq id "" then none else some (String.◌++◌ "global/instanceTemplates/" id)

  abbrev script_item : String → List (String × String)
  script_item script = if str_eq script "" then [] else ("startup-script", script) ∷ []

  unfoldable pub bulk_insert_request : Authentication → Params → ℕ → String → BulkInsert
  bulk_insert_request auth params amount pk_body = record {
    project = auth.payload;
    zone = if str_eq params.zone "" then config.default_zone else params.zone;
    name_pattern = params.name_pattern;
    count = amount;
    min_count = amount;
    labels =
        ("rh-rid", environment_prefix config.environment "r" (format_int params.reservation_id))
        ∷ ("rh-uuid", params.uuid)
        ∷ [];
    source_image = params.image_name;
    auto_delete = true;
    boot = true;
    disk_type = "PERSISTENT";
    machine_type = params.machine_type;
    access_config = ("External NAT", "ONE_TO_ONE_NAT");
    network = "global/networks/default";
    metadata = ("ssh-keys", pk_body) ∷ script_item params.startup_script;
    source_instance_template = template_path params.launch_template_id;
  }

  abbrev finished : Operation → Outcome (Unit {0})
  finished op =
      if not op.done
      then err
          (wrapped (String.◌++◌ "an error occured on operation " op.name) (named operation_failed))
      else ok tt

  -- InsertInstances; the operation's name that it returns beside operation_failed is read by no caller.
  unfoldable pub insert_instances :
      Authentication → Params → ℕ → Action Request (List String × String)
  unfolding body_with_username bulk_insert_request list_instances_ids_by_label
  insert_instances auth params amount = do
    new_instances_client
    pk_body ←
        annotate "unable to get pubkey body with username"
          (lift (body_with_username params.key_body))
    started ← annotate "cannot bulk insert instances" (
        send (λ log _. sdk.inserted log)
          (bulk_insert (bulk_insert_request auth params amount pk_body)))
    op ← annotate "cannot bulk insert instances" (send (λ log _. sdk.waited log) (wait started))
    lift (finished op)
    ids ← annotate "cannot list instances ids" (list_instances_ids_by_label auth params.uuid)
    pure (ids, op.name)

  -- The first interface with an access configuration gives the address.
  abbrev address_of : List (Option (Option String)) → Outcome String
  address_of [] = ok ""
  address_of (none ∷ interfaces) = address_of interfaces
  address_of (some nat_ip ∷ interfaces) = deref nat_ip

  -- GetInstanceDescriptionByID
  unfoldable pub get_instance_description_by_id :
      Authentication → String → String → Action Request InstanceDescription
  get_instance_description_by_id auth id zone = do
    new_instances_client
    instance ←
        annotate "unable to get instance"
          (send (λ log _. sdk.got log) (get_instance auth.payload zone id))
    address ← lift (address_of instance.interfaces)
    pure (record { id = format_int instance.id; public_dns = ""; public_ipv4 = address })
