-- ===== src/InstanceTypes/Zones.antt =====
-- What InstanceTypesForZone lists, of types that were registered.
use provisioning_backend.Common.{
  lookup, lookup-insert, ◌≡◌, refl, sym, ◌∙◌, String, Bool, Bool-cases, true, inl, inr, Option,
  none, some, List, [], ◌∷◌, map, All, str_eq, eq_iff, leb, if◌then◌else◌, arith,
}
use provisioning_backend.World.{Result, ok, err}
use provisioning_backend.InstanceTypes.{
  InstanceType, RegisteredTypes, InstanceTypeInfo, register, get, names_for_zone, types_of,
  instance_types_for_zone, same_flag,
}

-- Each type is registered under its name, and is supported exactly with 1500 MiB of memory or more.
abbrev pub IsMarked : RegisteredTypes → Type 0
IsMarked types =
    (k : String) (it : InstanceType)
    → get types k ≡ some it
    → (it.name ≡ k) × (it.supported ≡ leb 1500 it.memory_mib)

-- Register keeps the types marked, whatever flag its argument has.
pub register-IsMarked :
    (it : InstanceType) (types : RegisteredTypes) → IsMarked types → IsMarked (register it types)
unfolding register get
register-IsMarked it types h k got e =
    let it' : InstanceType = record it { supported = leb 1500 it.memory_mib } in
    let s : (if str_eq it.name k then some it' else lookup k types) ≡ some got =
      sym (lookup-insert it.name k it' types) ∙ e in
    elim (Bool-cases (str_eq it.name k)) [
      | inl t ↦
          let same : some it' ≡ some got = rw t at s in
          let g : it' ≡ got = cc in rw (sym g) ((eq_iff it.name k).0 t, refl)
      | inr t ↦ h k got (rw t at s)
    ]

-- The name is registered.
abbrev pub Registered : RegisteredTypes → String → Type 0
Registered types name = (it : InstanceType) × (get types name ≡ some it)

-- Every name of every region and zone is registered.
abbrev pub IsComplete : InstanceTypeInfo → Type 0
IsComplete info =
    (region zone : String) (names : List String)
    → names_for_zone info.regional_availability region zone ≡ ok names
    → All (Registered info.registered_types) names

abbrev cons_some : Option InstanceType → List InstanceType → List InstanceType
cons_some none its = its
cons_some (some it) its = it ∷ its

-- The types with the names, in order.
abbrev pub details : RegisteredTypes → List String → List InstanceType
details types [] = []
details types (name ∷ names) = cons_some (get types name) (details types names)

-- Whether a type is asked for: with `some true` those of 1500 MiB and more, with `some false` the others.
abbrev pub wanted : Option Bool → InstanceType → Bool
wanted none it = true
wanted (some flag) it = same_flag flag (leb 1500 it.memory_mib)

abbrev pub select : {A : Type 0} → (A → Bool) → List A → List A
select p [] = []
select p (x ∷ xs) = let rest = select p xs in if p x then x ∷ rest else rest

abbrev pub listed :
    Result (List String) → RegisteredTypes → Option Bool → Result (List (Option InstanceType))
listed (err x) types supported = err x
listed (ok names) types supported = ok (map some (select (wanted supported) (details types names)))

types_of-select :
    (types : RegisteredTypes) (supported : Option Bool) (names : List String)
    → IsMarked types
    → All (Registered types) names
    → types_of types supported names
      ≡ some (map some (select (wanted supported) (details types names)))
unfolding types_of
types_of-select types supported [] h r = refl
types_of-select types none (name ∷ names) h ((it, e), r) =
    rw (e, types_of) (rw (types_of-select types none names h r) refl)
types_of-select types (some flag) (name ∷ names) h ((it, e), r) =
    ground (arith, types_of-select types (some flag) names h r, h name it e)

-- Let the types be registered, and every name of a region and zone be the name of one of them. Then the
-- listing of a region and zone does not panic: it is refused where they are unknown, and else lists the
-- types with their names, in order, and of these all, those with 1500 MiB of memory or more, or the
-- others, as is asked for; no entry is nil.
pub instance_types_for_zone-listed :
    (info : InstanceTypeInfo) (region zone : String) (supported : Option Bool)
    → IsMarked info.registered_types
    → IsComplete info
    → instance_types_for_zone info region zone supported
      ≡ some (
          listed
            (names_for_zone info.regional_availability region zone)
            info.registered_types
            supported)
unfolding instance_types_for_zone
instance_types_for_zone-listed info region zone supported h c =
    go (names_for_zone info.regional_availability region zone) refl
  where
    go :
        (r : Result (List String))
        → names_for_zone info.regional_availability region zone ≡ r
        → instance_types_for_zone info region zone supported
          ≡ some (listed r info.registered_types supported)
    go (err x) e = rw (e, instance_types_for_zone) refl
    go (ok names) e =
        rw
          (
            e,
            instance_types_for_zone,
            types_of-select info.registered_types supported names h (c region zone names e),
          )
          refl
