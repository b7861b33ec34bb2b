-- ===== src/Clouds/Ec2/Types.antt =====
-- The instance types of EC2 (internal/clients/http/ec2/aws_supported_types.go) and the descriptions of instances
-- (parseDescribeInstances of ec2_client.go); a nil pointer that is read panics.
use provisioning_backend.Common.{
  ℕ, String, Bool, Option, none, some, List, [], ◌∷◌, ◌++◌, any, str_eq,
}
use provisioning_backend.Errors.{named, no_reservation}
use provisioning_backend.Models.{InstanceDescription}
use provisioning_backend.World
use provisioning_backend.Backends.Outcome.{Outcome, ok, err, deref, ◌>>=◌}
use provisioning_backend.Backends.Outcome
use provisioning_backend.InstanceTypes.{InstanceType, map_architectures}

-- types.InstanceTypeInfo, as far as it is read.
pub record AwsTypeInfo : Type 0 where
  pub instance_type : String
  pub supported_architectures : Option (List String)
  pub default_vcpus : Option ℕ
  pub default_cores : Option ℕ
  pub size_in_mib : Option ℕ
  -- the information, and the pointer in it
  pub instance_storage : Option (Option ℕ)

abbrev of_result : {A : Type 0} → World.Result A → Outcome A
of_result (World.ok a) = ok a
of_result (World.err x) = err x

-- ptr.From and ptr.FromOrEmpty
abbrev pub from : Option String → String
from none = ""
from (some s) = s

-- The values behind pointers, in order.
unfoldable pub deref_all : List (Option String) → Outcome (List String)
deref_all [] = ok []
deref_all (p ∷ ps) = do s ← deref p; rest ← deref_all ps; ok (s ∷ rest)

-- IsSupported of internal/clients/supported/filter_instances.go
abbrev pub is_supported : List String → String → Bool
is_supported supported_types name = any (λ t. str_eq t name) supported_types

abbrev storage_of : Option (Option ℕ) → Outcome ℕ
storage_of none = ok 0
storage_of (some size) = deref size

-- The conversion of one architecture of a type in NewInstanceTypes.
unfoldable pub instance_type : List String → AwsTypeInfo → String → Outcome InstanceType
unfolding map_architectures
instance_type supported_types info arch = do
  mapped ← Outcome.annotate "instance type" (of_result (map_architectures arch))
  vcpus ← deref info.default_vcpus
  cores ← deref info.default_cores
  memory ← deref info.size_in_mib
  storage ← storage_of info.instance_storage
  ok (record {
    name = info.instance_type;
    vcpus = vcpus;
    cores = cores;
    memory_mib = memory;
    ephemeral_storage_gb = storage;
    supported = is_supported supported_types info.instance_type;
    architecture = mapped;
  })

-- The inner loop of NewInstanceTypes.
unfoldable pub of_architectures :
    List String → AwsTypeInfo → List String → Outcome (List InstanceType)
unfolding instance_type
of_architectures supported_types info [] = ok []
of_architectures supported_types info (arch ∷ archs) = do
  it ← instance_type supported_types info arch
  rest ← of_architectures supported_types info archs
  ok (it ∷ rest)

-- NewInstanceTypes
unfoldable pub new_instance_types : List String → List AwsTypeInfo → Outcome (List InstanceType)
unfolding of_architectures
new_instance_types supported_types [] = ok []
new_instance_types supported_types (info ∷ types) = do
  archs ← deref info.supported_architectures
  its ← of_architectures supported_types info archs
  rest ← new_instance_types supported_types types
  ok (its ++ rest)

-- types.Instance, as far as it is read.
pub record Instance : Type 0 where
  pub instance_id : Option String
  pub public_ip_address : Option String
  pub public_dns_name : Option String

unfoldable pub described : List Instance → Outcome (List InstanceDescription)
described [] = ok []
described (i ∷ instances) = do
  id ← deref i.instance_id
  rest ← described instances
  ok (
      record {
        id = id;
        public_dns = from i.public_dns_name;
        public_ipv4 = from i.public_ip_address;
      }
      ∷ rest)

-- parseDescribeInstances: the instances of the first reservation.
unfoldable pub parse_describe_instances : List (List Instance) → Outcome (List InstanceDescription)
unfolding described
parse_describe_instances [] = err (named no_reservation)
parse_describe_instances (instances ∷ reservations) = described instances
