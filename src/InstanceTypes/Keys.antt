-- ===== src/InstanceTypes/Keys.antt =====
-- The keys of regions and zones, and how they are taken apart.
use Prim.Native.Char.{Char, code}
use Prim.Native.String
use Prim.Native.String.append
use provisioning_backend.Common.{
  ℕ, ◌≡◌, ◌≢◌, refl, sym, ap, ◌∙◌, String, Bool-cases, inl, inr, [], ◌∷◌, split, str_eq, eq_iff,
  arith,
}
use provisioning_backend.World.{ok}
use provisioning_backend.InstanceTypes.{key, region_separator, split_region_zone}

-- The text does not hold the character.
abbrev pub Lacks : ℕ → String → Type 0
Lacks sep String.[] = Unit
Lacks sep (String.◌∷◌ c s) = (code c ≢ sep) × Lacks sep s

split-Lacks : (s : String) (sep : ℕ) → Lacks sep s → split s sep ≡ s ∷ []
split-Lacks String.[] sep h = refl
split-Lacks (String.◌∷◌ c s) sep h = ground (arith, split-Lacks s sep)

split-append :
    (s t : String) (sep : Char)
    → Lacks (code sep) s
    → split (String.◌++◌ s (String.◌∷◌ sep t)) (code sep) ≡ s ∷ split t (code sep)
split-append String.[] t sep h = rw (append.nil (String.◌∷◌ sep t)) (ground arith)
split-append (String.◌∷◌ c s) t sep h =
    rw (append.cons c s (String.◌∷◌ sep t)) (ground (arith, split-append s t sep))

underscore_front : (t : String) → String.◌++◌ "_" t ≡ String.◌∷◌ "_" t
underscore_front t = append.cons "_" "" t ∙ ap (λ s. String.◌∷◌ "_" s) (append.nil t)

-- The key of a region and a zone is taken apart into them, if neither has the separator in its name; so
-- is the key of a region alone, whose zone is blank.
pub split_region_zone-key :
    (region zone : String)
    → Lacks region_separator region
    → Lacks region_separator zone
    → split_region_zone (key region zone) ≡ ok (region, zone)
unfolding split_region_zone key
split_region_zone-key region zone h k = elim (Bool-cases (str_eq zone "")) [
  | inl e ↦ rw e (
      rw (split-Lacks region region_separator h)
        (ap (λ z. ok (region, z)) (sym ((eq_iff zone "").0 e))))
  | inr e ↦ rw e (
      rw (underscore_front zone)
        (rw (split-append region zone "_" h, split-Lacks zone region_separator k) refl))
]
