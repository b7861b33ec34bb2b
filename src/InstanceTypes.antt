-- ===== src/InstanceTypes.antt =====
-- The preloaded instance types of internal/clients: regional_availability.go, registered_types.go,
-- instance_type_info.go, instance_type.go and architecture.go. A map is an association list. The package
-- golang.org/x/exp/slices is the parameter Slices.
pub mod Availability
pub mod Keys
pub mod Zones
use Prim.Native.String
use provisioning_backend.Common.{
  lookup, insert, ℕ, ◌*◌, ◌/◌, String, Bool, true, false, not, ◌||◌, Option, none, some, List, [],
  ◌∷◌, ◌++◌, split, str_eq, leb, if◌then◌else◌,
}
use provisioning_backend.Errors.{Error, opaque, wrapped}
use provisioning_backend.World.{Result, ok, err}

abbrev pub AvailabilityMap : Type 0
AvailabilityMap = List (String × List String)

-- slices.Sort, and the second result of slices.BinarySearch.
pub record Slices : Type 0 where
  pub sort : List String → List String
  pub binary_search : List String → String → Bool

abbrev pub region_separator : ℕ
region_separator = b'_'

-- key
unfoldable pub key : String → String → String
key region zone = if str_eq zone "" then region else String.◌++◌ region (String.◌++◌ "_" zone)

abbrev pub unknown_region_zone : Error
unknown_region_zone = opaque "unknown region and zone combination"

abbrev found_names : Option (List String) → Result (List String)
found_names none = err unknown_region_zone
found_names (some names) = ok names

-- RegionalTypeAvailability.NamesForZone
unfoldable pub names_for_zone : AvailabilityMap → String → String → Result (List String)
unfolding lookup key
names_for_zone types region zone = found_names (lookup (key region zone) types)

abbrev pub or_empty : Option (List String) → List String
or_empty none = []
or_empty (some names) = names

-- RegionalTypeAvailability.Add, of an instance type with that name.
unfoldable pub add : Slices → String → String → String → AvailabilityMap → AvailabilityMap
unfolding lookup insert key
add slices region zone name types =
    let raz = key region zone in
    let names = or_empty (lookup raz types) in
    insert raz
      (if not (slices.binary_search names name) then slices.sort (names ++ name ∷ []) else names)
      types

abbrev pub region_and_zone_split : Error
region_and_zone_split = opaque "unable to split region and zone for"

abbrev parts_of : List String → String → Result (String × String)
parts_of (region ∷ zone ∷ []) str = ok (region, zone)
parts_of (region ∷ []) str = ok (region, "")
parts_of _ str = err (wrapped str region_and_zone_split)

-- splitRegionZone
unfoldable pub split_region_zone : String → Result (String × String)
split_region_zone str = parts_of (split str region_separator) str

-- InstanceType, without the details of Azure; memory and storage are never negative.
pub record InstanceType : Type 0 where
  pub name : String
  pub vcpus : ℕ
  pub cores : ℕ
  pub memory_mib : ℕ
  pub ephemeral_storage_gb : ℕ
  pub supported : Bool
  pub architecture : String

abbrev pub RegisteredTypes : Type 0
RegisteredTypes = List (String × InstanceType)

-- RegisteredInstanceTypes.Register: the warning about a type that differs is only printed.
unfoldable pub register : InstanceType → RegisteredTypes → RegisteredTypes
unfolding insert
register it types = insert it.name (record it { supported = leb 1500 it.memory_mib }) types

-- RegisteredInstanceTypes.Get: nil is `none`.
unfoldable pub get : RegisteredTypes → String → Option InstanceType
unfolding lookup
get types name = lookup name types

pub record InstanceTypeInfo : Type 0 where
  pub registered_types : RegisteredTypes
  pub regional_availability : AvailabilityMap

abbrev same_flag : Bool → Bool → Bool
same_flag true b = b
same_flag false b = not b

abbrev prepend :
    Option InstanceType → Option (List (Option InstanceType)) → Option (List (Option InstanceType))
prepend rt none = none
prepend rt (some rest) = some (rt ∷ rest)

-- `supported != nil && *supported != rt.Supported`: `none` where rt is nil and is read.
abbrev skips : Option Bool → Option InstanceType → Option Bool
skips none rt = some false
skips (some flag) none = none
skips (some flag) (some it) = some (not (same_flag flag it.supported))

-- The loop of InstanceTypesForZone: `none` is the panic on a nil pointer.
unfoldable pub types_of :
    RegisteredTypes → Option Bool → List String → Option (List (Option InstanceType))
unfolding get
types_of types supported [] = some []
types_of types supported (name ∷ names) = elim (skips supported (get types name)) [
  | none ↦ none
  | some true ↦ types_of types supported names
  | some false ↦ prepend (get types name) (types_of types supported names)
]

abbrev zone_result :
    Option (List (Option InstanceType)) → Option (Result (List (Option InstanceType)))
zone_result none = none
zone_result (some types) = some (ok types)

-- InstanceTypeInfo.InstanceTypesForZone
unfoldable pub instance_types_for_zone :
    InstanceTypeInfo → String → String → Option Bool → Option (Result (List (Option InstanceType)))
unfolding names_for_zone types_of
instance_types_for_zone info region zone supported =
    elim (names_for_zone info.regional_availability region zone) [
      | err x ↦ some (err x)
      | ok names ↦ zone_result (types_of info.registered_types supported names)
    ]

-- SetMemoryFromGiB, SetMemoryFromKiB, SetMemoryFromBytes, SetEphemeralStorageFromMB, for numbers that
-- an int64 holds with the product.
unfoldable pub set_memory_from_gib : ℕ → InstanceType → InstanceType
set_memory_from_gib mem_gib it = record it { memory_mib = mem_gib * 1024 }

unfoldable pub set_memory_from_kib : ℕ → InstanceType → InstanceType
set_memory_from_kib mem_kib it = record it { memory_mib = mem_kib / 1024 }

unfoldable pub set_memory_from_bytes : ℕ → InstanceType → InstanceType
set_memory_from_bytes mem it = record it { memory_mib = mem / 1048576 }

unfoldable pub set_ephemeral_storage_from_mb : ℕ → InstanceType → InstanceType
set_ephemeral_storage_from_mb storage it = record it { ephemeral_storage_gb = storage / 1000 }

abbrev pub architecture_not_supported : Error
architecture_not_supported = opaque "architecture not supported"

-- MapArchitectures
unfoldable pub map_architectures : String → Result String
map_architectures arch =
    if str_eq arch "x86_64_mac"
    then ok "apple-x86_64"
    else if str_eq arch "arm64_mac"
    then ok "apple-arm64"
    else if str_eq arch "i386"
    then ok "i386"
    else if str_eq arch "x86-64" || (str_eq arch "x86_64" || str_eq arch "x64")
    then ok "x86_64"
    else if str_eq arch "aarch64"
        || (str_eq arch "arm64" || (str_eq arch "Arm64" || str_eq arch "arm"))
    then ok "arm64"
    else err (wrapped arch architecture_not_supported)
