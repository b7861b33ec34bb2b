-- ===== src/Dao/Rows.antt =====
-- WHERE, UPDATE, DELETE, LIMIT and OFFSET on the rows of a table.
use provisioning_backend.Common.{
  ℕ, ◌+◌, Bool, true, not, Option, none, some, List, [], ◌∷◌, ◌≡◌, refl, if◌then◌else◌, ◌==◌, ◌&&◌,
  arith, Bool-cases, inl, inr,
}
use provisioning_backend.Models.{Reservation}

module _ {A : Type 0} where
  abbrev pub find : (A → Bool) → List A → Option A
  find p [] = none
  find p (x ∷ xs) = if p x then some x else find p xs

  abbrev pub filter : (A → Bool) → List A → List A
  filter p [] = []
  filter p (x ∷ xs) = if p x then x ∷ filter p xs else filter p xs

  -- UPDATE … SET f WHERE p
  abbrev pub update : (A → Bool) → (A → A) → List A → List A
  update p f [] = []
  update p f (x ∷ xs) = (if p x then f x else x) ∷ update p f xs

  -- The number of rows that WHERE p selects.
  abbrev pub count : (A → Bool) → List A → ℕ
  count p [] = 0
  count p (x ∷ xs) = if p x then count p xs + 1 else count p xs

  -- DELETE … WHERE p
  abbrev pub delete : (A → Bool) → List A → List A
  delete p xs = filter (λ x. not (p x)) xs

abbrev pub has_id : ℕ → Reservation → Bool
has_id id r = r.id == id

abbrev pub scoped : ℕ → ℕ → Reservation → Bool
scoped account id r = (r.account_id == account) && (r.id == id)

-- An UPDATE of the row with an id, seen through the scoped SELECT of that id.
pub find-update :
    (account id : ℕ) (f : Reservation → Reservation) (rows : List Reservation)
    → {r : Reservation} → ((x : Reservation) → (f x).id ≡ x.id)
    → ((x : Reservation) → (f x).account_id ≡ x.account_id)
    → find (scoped account id) rows ≡ some r
    → find (scoped account id) (update (has_id id) f rows) ≡ some (f r)
find-update account id f [] ki ka h = cc
find-update account id f (x ∷ rows) {r = r} ki ka h =
    let same : scoped account id (f x) ≡ scoped account id x = rw (ki x, ka x) refl in
    let ih = find-update account id f rows {r = r} ki ka in
    elim (Bool-cases (scoped account id x)) [
      | inl p ↦ let q : has_id id x ≡ true = ground arith in rw q (rw (same, p) (ground arith))
      | inr p ↦ elim (Bool-cases (has_id id x)) [
        | inl q ↦ rw q (rw (same, p) (ih (rw p at h)))
        | inr q ↦ rw q (rw p (ih (rw p at h)))
      ]
    ]

pub count-update :
    (id : ℕ) (f : Reservation → Reservation) (rows : List Reservation)
    → ((x : Reservation) → (f x).id ≡ x.id)
    → count (has_id id) (update (has_id id) f rows) ≡ count (has_id id) rows
count-update id f [] ki = refl
count-update id f (x ∷ rows) ki = ground (arith, count-update id f rows ki, ki x)
