-- ===== src/InstanceTypes/Availability.antt =====
-- What RegionalTypeAvailability keeps of its lists, and what is found after Add.
use mathlib.Core.List.{
  Mem, Mem-prop, Perm, Nodup, Nodup-nil, perm_append_singleton, Nodup-cons, mem-cons_self,
  eq-or-mem_of_mem-cons, mem-cons_of_mem,
}
use mathlib.Core.List.Perm
use mathlib.Core.Logic.Or
use Prim.Native.Nat.{Ordering}
use Prim.Native.String
use provisioning_backend.Common.{
  lookup, insert, lookup-insert, ◌≡◌, ◌≢◌, ◌↔◌, refl, sym, ◌∙◌, String, Bool, Bool-cases, true,
  false, not, inl, inr, Option-cases, some, List, [], ◌∷◌, ◌++◌, str_eq, eq_refl, if◌then◌else◌,
}
use provisioning_backend.World.{ok}
use provisioning_backend.InstanceTypes.{AvailabilityMap, Slices, key, or_empty, names_for_zone, add}

-- `a < b` of texts.
abbrev pub less : String → String → Bool
less a b = elim (String.compare a b) [ Ordering.lt ↦ true | _ ↦ false ]

-- Each name is at most the next one.
abbrev pub Ascending : List String → Type 0
Ascending [] = Unit
Ascending (x ∷ []) = Unit
Ascending (x ∷ y ∷ l) = (less y x ≡ false) × Ascending (y ∷ l)

-- What the documentation of the package slices says: Sort puts the elements into ascending order, and
-- BinarySearch finds exactly the elements of a slice that is ascending.
pub record SlicesLaws (slices : Slices) : Type 0 where
  pub sort_ascending : (xs : List String) → Ascending (slices.sort xs)
  pub sort_perm : (xs : List String) → Perm (slices.sort xs) xs
  pub search :
      (xs : List String) (x : String) → Ascending xs → (slices.binary_search xs x ≡ true) ↔ Mem x xs

-- The lists of names are ascending, and no name stands in a list twice.
abbrev pub IsValid : AvailabilityMap → Type 0
IsValid types =
    (k : String) (names : List String) → lookup k types ≡ some names → Ascending names × Nodup names

-- `names'` has the name and those of `names`, and no other.
pub record Added (name : String) (names names' : List String) : Type 0 where
  pub added : Mem name names'
  pub kept : (x : String) → Mem x names → Mem x names'
  pub no_other : (x : String) → x ≢ name → Mem x names' → Mem x names

module _ (slices : Slices) (laws : SlicesLaws slices) (name : String) where
  new_names : List String → List String
  new_names names =
      if not (slices.binary_search names name) then slices.sort (names ++ name ∷ []) else names

  new_names-Added :
      (names : List String)
      → Ascending names
      → Nodup names
      → Added name names (new_names names) × Ascending (new_names names) × Nodup (new_names names)
  unfolding new_names
  new_names-Added names a n =
      let p = laws.sort_perm (names ++ name ∷ []) in
      let q = Perm.trans p (perm_append_singleton name names) in
      elim (Bool-cases (slices.binary_search names name)) [
        | inl e ↦ rw e (
          record { added = (laws.search names name a).0 e; kept = λ x m. m; no_other = λ x d m. m },
          a,
          n,
        )
        | inr e ↦ rw e (
          record {
            added = (Perm.mem_iff q).1 mem-cons_self;
            kept = λ x m. (Perm.mem_iff q).1 (mem-cons_of_mem name m);
            no_other = λ x d m.
                Or.elim Mem-prop (eq-or-mem_of_mem-cons ((Perm.mem_iff q).0 m)) (λ e. absurd (d e))
                  (λ m'. m');
          },
          laws.sort_ascending (names ++ name ∷ []),
          (Perm.Nodup-iff q).1
              (Nodup-cons.1 (λ m. absurd (cc ((laws.search names name a).1 m)), n)),
        )
      ]

  or_empty-IsValid :
      (types : AvailabilityMap) (k : String)
      → IsValid types
      → Ascending (or_empty (lookup k types)) × Nodup (or_empty (lookup k types))
  or_empty-IsValid types k v = elim (Option-cases (lookup k types)) [
    | inl e ↦ rw e (tt, Nodup-nil)
    | inr (names, e) ↦ rw e (v k names e)
  ]

  -- Let every list of names be ascending and hold no name twice. Then it is so after Add; NamesForZone
  -- of the region and zone gives the name that was added, the names that it gave before, and no other;
  -- and the names of every other key are as before.
  pub add-IsValid :
      (region zone : String) (types : AvailabilityMap)
      → IsValid types
      → let types' = add slices region zone name types in
        IsValid types'
        × ((names' : List String) × (names_for_zone types' region zone ≡ ok names')
            × Added name (or_empty (lookup (key region zone) types)) names'
            × ((q : String)
                → lookup q types'
                  ≡ (if str_eq (key region zone) q then some names' else lookup q types)))
  unfolding add names_for_zone new_names
  add-IsValid region zone types v =
      let raz = key region zone in
      let (a, n) = or_empty-IsValid types raz v in
      let names' = new_names (or_empty (lookup raz types)) in
      let (d, a', n') = new_names-Added (or_empty (lookup raz types)) a n in
      let at_key : (q : String)
          → lookup q (insert raz names' types)
            ≡ (if str_eq raz q then some names' else lookup q types) =
        λ q. lookup-insert raz q names' types in
      (
        λ q names e. elim (Bool-cases (str_eq raz q)) [
          | inl t ↦
              let s : some names' ≡ some names = rw t at (sym (at_key q) ∙ e) in
              let h : names' ≡ names = cc in rw (sym h) (a', n')
          | inr t ↦ v q names (rw t at (sym (at_key q) ∙ e))
        ],
        (names', rw (at_key raz, eq_refl raz) refl, d, at_key),
      )
