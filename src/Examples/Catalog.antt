-- ===== src/Examples/Catalog.antt =====
-- Regions, zones and instance types, on concrete inputs.
use mathlib.Core.List.{Perm, dec_mem}
use mathlib.Core.List.Perm
use mathlib.Core.Bool.{decide}
use Prim.Native.String
use Prim.Native.String.compare
use Prim.Native.String.{then as and_then}
use Prim.Native.Char.{code}
use Prim.Native.Nat.{ℕ, Ordering, compare as compare_ℕ}
use provisioning_backend.Common.{
  lookup, ◌≡◌, ◌↔◌, refl, sym, String, Bool-cases, true, false, inl, inr, some, List, [], ◌∷◌,
  str_eq, eq_iff, if◌then◌else◌, if_elim, arith,
}
use provisioning_backend.World.{ok, err}
use provisioning_backend.InstanceTypes.{
  Slices, InstanceType, InstanceTypeInfo, key, unknown_region_zone, or_empty, names_for_zone, add,
  split_region_zone, register, get, instance_types_for_zone,
}
use provisioning_backend.InstanceTypes.Keys.{split_region_zone-key}
use provisioning_backend.InstanceTypes.Availability.{
  Ascending, less, SlicesLaws, IsValid, Added, add-IsValid,
}
use provisioning_backend.InstanceTypes.Zones.{
  IsMarked, IsComplete, listed, register-IsMarked, instance_types_for_zone-listed,
}

split_region_zone-key_example : split_region_zone (key "eastus" "1") ≡ ok ("eastus", "1")
split_region_zone-key_example = split_region_zone-key "eastus" "1" (omega arith) (omega arith)

abbrev small : InstanceType
small = record {
  name = "t1";
  vcpus = 1;
  cores = 1;
  memory_mib = 512;
  ephemeral_storage_gb = 0;
  supported = true;
  architecture = "x86_64";
}

-- Sorting by insertion, and a search of the whole slice.
place : String → List String → List String
place x [] = x ∷ []
place x (y ∷ l) = if less y x then y ∷ place x l else x ∷ y ∷ l

sort : List String → List String
unfolding place
sort [] = []
sort (x ∷ l) = place x (sort l)

abbrev flip : Ordering → Ordering
flip Ordering.lt = Ordering.gt
flip Ordering.eq = Ordering.eq
flip Ordering.gt = Ordering.lt

flip-and_then : (o p : Ordering) → and_then (flip o) (flip p) ≡ flip (and_then o p)
flip-and_then Ordering.lt p = refl
flip-and_then Ordering.eq p = refl
flip-and_then Ordering.gt p = refl

flip-compare_ℕ : (m n : ℕ) → compare_ℕ n m ≡ flip (compare_ℕ m n)
flip-compare_ℕ m n = ground arith

flip-compare : (s t : String) → String.compare t s ≡ flip (String.compare s t)
flip-compare String.[] String.[] = rw compare.nil-nil refl
flip-compare String.[] (String.◌∷◌ d t) = rw (compare.nil-cons d t, compare.cons-nil d t) refl
flip-compare (String.◌∷◌ c s) String.[] = rw (compare.nil-cons c s, compare.cons-nil c s) refl
flip-compare (String.◌∷◌ c s) (String.◌∷◌ d t) =
    rw
      (
        compare.cons-cons c d s t,
        compare.cons-cons d c t s,
        flip-compare s t,
        flip-compare_ℕ (code c) (code d),
      )
      (flip-and_then (compare_ℕ (code c) (code d)) (String.compare s t))

less_asymm : (a b : String) → less a b ≡ true → less b a ≡ false
less_asymm a b h = ground (arith, flip-compare a b)

-- The head of the list after a placing is at least a text that both are at least.
place-Ascending :
    (y x : String) (l : List String)
    → less x y ≡ false
    → Ascending (y ∷ l)
    → Ascending (y ∷ place x l)
unfolding place
place-Ascending y x [] h a = (h, tt)
place-Ascending y x (z ∷ l) h (b, a) =
    if_elim (λ m. Ascending (y ∷ m)) (less z x) _ _
      (λ t. (b, place-Ascending z x l (less_asymm z x t) a)) (λ f. (h, (f, a)))

place-Ascending_all : (x : String) (l : List String) → Ascending l → Ascending (place x l)
unfolding place
place-Ascending_all x [] a = tt
place-Ascending_all x (y ∷ l) a =
    if_elim Ascending (less y x) _ _ (λ t. place-Ascending y x l (less_asymm y x t) a) (λ f. (f, a))

place-perm : (x : String) (l : List String) → Perm (place x l) (x ∷ l)
unfolding place
place-perm x [] = Perm.rfl
place-perm x (y ∷ l) =
    if_elim (λ m. Perm m (x ∷ y ∷ l)) (less y x) _ _
      (λ t. Perm.trans (Perm.cons y (place-perm x l)) (Perm.swap x y l)) (λ f. Perm.rfl)

sort-Ascending : (l : List String) → Ascending (sort l)
unfolding sort
sort-Ascending [] = tt
sort-Ascending (x ∷ l) = place-Ascending_all x (sort l) (sort-Ascending l)

sort-perm : (l : List String) → Perm (sort l) l
unfolding sort
sort-perm [] = Perm.rfl
sort-perm (x ∷ l) = Perm.trans (place-perm x (sort l)) (Perm.cons x (sort-perm l))

String-discrete : Discrete String
String-discrete s t = elim (Bool-cases (str_eq s t)) [
  | inl e ↦ yes ((eq_iff s t).0 e)
  | inr f ↦ no (λ p. absurd (cc ((eq_iff s t).1 p)))
]

abbrev slices : Slices
unfolding sort String-discrete
slices = record { sort = sort; binary_search = λ xs x. decide (dec_mem String-discrete x xs) }

decide_iff : {P : Type 0} (d : Dec P) → (decide d ≡ true) ↔ P
unfolding decide
decide_iff (yes p) = (λ _. p, λ _. refl)
decide_iff (no n) = (λ e. absurd (cc), λ p. absurd (n p))

slices_laws : SlicesLaws slices
unfolding slices sort
slices_laws = record {
  sort_ascending = sort-Ascending;
  sort_perm = sort-perm;
  search = λ xs x a. decide_iff (dec_mem String-discrete x xs);
}

empty-IsValid : IsValid []
unfolding lookup
empty-IsValid k names e = absurd (cc)

empty-IsMarked : IsMarked []
unfolding get
empty-IsMarked k it e = absurd (cc)

add-IsValid_example :
    let types = add slices "eastus" "1" "t1" [] in
    IsValid types
    × ((names : List String) × (names_for_zone types "eastus" "1" ≡ ok names)
        × Added "t1" (or_empty (lookup (key "eastus" "1") [])) names
        × ((q : String)
            → lookup q types ≡ (if str_eq (key "eastus" "1") q then some names else lookup q [])))
add-IsValid_example = add-IsValid slices slices_laws "t1" "eastus" "1" [] empty-IsValid

abbrev one_type : InstanceTypeInfo
one_type = record {
  registered_types = register small [];
  regional_availability = ("eastus", "t1" ∷ []) ∷ [];
}

one_type-IsComplete : IsComplete one_type
unfolding names_for_zone get register
one_type-IsComplete region zone names e = elim (Bool-cases (str_eq "eastus" (key region zone))) [
  | inl t ↦
      let e' : ok ("t1" ∷ []) ≡ ok names = rw t at e in
      let same : "t1" ∷ [] ≡ names = cc in
      rw (sym same) ((record small { supported = false }, refl), tt)
  | inr f ↦ let e' : err unknown_region_zone ≡ ok names = rw f at e in absurd (cc)
]

instance_types_for_zone-listed_example :
    instance_types_for_zone one_type "eastus" "" (some true)
    ≡ some (
        listed
          (names_for_zone one_type.regional_availability "eastus" "")
          one_type.registered_types
          (some true))
instance_types_for_zone-listed_example =
    instance_types_for_zone-listed one_type "eastus" "" (some true)
      (register-IsMarked small [] empty-IsMarked) one_type-IsComplete
