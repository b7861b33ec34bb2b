-- ===== src/Access/Matching.antt =====
-- What the parsed permissions allow.
use provisioning_backend.Common.{
  String, ◌≡◌, ◌≢◌, refl, ◌↔◌, ◌⊎◌, inl, inr, Bool, true, List, [], ◌∷◌, map, ◌&&◌, Bool-cases,
  arith, eq_iff, str_eq, split, Any,
}
use provisioning_backend.Access.{Access, from_parts, new_access, match_wildcard, is_allowed}

-- A permission text grants a verb on a resource: it reads provisioning:R:V, where R is the resource
-- or a star, and V is the verb or a star.
pub record Grants (res verb permission : String) : Type 0 where
  pub r : String
  pub v : String
  pub parts : split permission b':' ≡ "provisioning" ∷ r ∷ v ∷ []
  pub on : (r ≡ res) ⊎ (r ≡ "*")
  pub does : (v ≡ verb) ⊎ (v ≡ "*")

abbrev allows : Access → String → String → Bool
allows a res verb = match_wildcard a.resource res && match_wildcard a.verb verb

match_wildcard_iff : (s1 s2 : String) → (match_wildcard s1 s2 ≡ true) ↔ ((s1 ≡ s2) ⊎ (s1 ≡ "*"))
unfolding match_wildcard
match_wildcard_iff s1 s2 = ground (arith, eq_iff s1 s2, eq_iff s1 "*")

from_parts-cases :
    (ps : List String)
    → (from_parts ps ≡ record { resource = ""; verb = "" })
      ⊎ ((r : String) × (v : String) × (ps ≡ "provisioning" ∷ r ∷ v ∷ [])
          × (from_parts ps ≡ record { resource = r; verb = v }))
unfolding from_parts
from_parts-cases (app ∷ r ∷ v ∷ []) = elim (Bool-cases (str_eq app "provisioning")) [
  | inl e ↦ inr (r, v, rw ((eq_iff app "provisioning").0 e), rw e)
  | inr e ↦ inl (rw e)
]
from_parts-cases _ = inl refl

allows_sound :
    (p res verb : String) → res ≢ "" → allows (new_access p) res verb ≡ true → Grants res verb p
unfolding new_access
allows_sound p res verb h e = elim (from_parts-cases (split p b':')) [
  | inl none_granted ↦ absurd (ground (arith, match_wildcard_iff "" res, eq_iff "" "*"))
  | inr (r, v, parts, granted) ↦ record {
    r = r;
    v = v;
    parts = parts;
    on = ground (arith, match_wildcard_iff r res);
    does = ground (arith, match_wildcard_iff v verb);
  }
]

allows_complete : (p res verb : String) → Grants res verb p → allows (new_access p) res verb ≡ true
unfolding new_access from_parts
allows_complete p res verb g =
    rw g.parts (ground (arith, match_wildcard_iff g.r res, match_wildcard_iff g.v verb))

-- A list of permission texts allows a verb on a resource exactly when one of them grants it, for a
-- resource that is not empty. So texts of other applications, or not of three parts, allow nothing.
pub is_allowed-map-new_access :
    (permissions : List String) (res verb : String)
    → res ≢ ""
    → (is_allowed (map new_access permissions) res verb ≡ true) ↔ Any (Grants res verb) permissions
unfolding is_allowed
is_allowed-map-new_access [] res verb h = (λ e. cc, λ m. absurd m)
is_allowed-map-new_access (p ∷ ps) res verb h =
    let ih = is_allowed-map-new_access ps res verb h in
    elim (Bool-cases (allows (new_access p) res verb)) [
      | inl e ↦ rw e (λ _. inl (allows_sound p res verb h e), λ _. refl)
      | inr e ↦ rw e (
        λ r. inr (ih.0 r),
        λ m. elim m [
          | inl g ↦ absurd (ground (arith, allows_complete p res verb g))
          | inr later ↦ ih.1 later
        ],
      )
    ]
