-- ===== src/Dao/Scoping.antt =====
-- What the reads of internal/dao/pgx/reservation_pgx.go may return to an account.
use provisioning_backend.Common.{
  ℕ, zero, suc, ◌≤◌, ◌≡◌, true, Bool, Bool-cases, Option, Option-cases, none, some, inl, inr, List,
  [], ◌∷◌, All, take, drop, length, length-take, arith, ==_iff, ◌==◌,
}
use provisioning_backend.Models.{Reservation}
use provisioning_backend.World.{Result, ok, World, Env, Db, query, one_row}
use provisioning_backend.Dao.Rows.{find, filter, scoped}
use provisioning_backend.Dao.Reservations.{get_by_id, list}

pub find_holds : {A : Type 0} (p : A → Bool) (xs : List A) {x : A} → find p xs ≡ some x → p x ≡ true
find_holds p [] h = cc
find_holds p (y ∷ ys) h = elim (Bool-cases (p y)) [
  | inl e ↦ ground (arith)
  | inr e ↦ find_holds p ys (rw e at h)
]

pub query_holds :
    {A : Type 0} (f : Env → Db → Result A) (e : Env) (w : World) {a : A}
    → (query f e w).0 ≡ ok a
    → f e w.db ≡ ok a
unfolding query
query_holds f e w h = elim (Option-cases (e.fault w.calls)) [
  | inl p ↦ rw (p, query) at h
  | inr (x, p) ↦ cc (rw (p, query) at h)
]

filter_owned :
    (account : ℕ) (rows : List Reservation)
    → All (λ r. r.account_id ≡ account) (filter (λ r. r.account_id == account) rows)
filter_owned account [] = tt
filter_owned account (r ∷ rows) = elim (Bool-cases (r.account_id == account)) [
  | inl e ↦ rw e ((==_iff r.account_id account).0 e, filter_owned account rows)
  | inr e ↦ rw e (filter_owned account rows)
]

pub one_row_holds : {A : Type 0} (o : Option A) {a : A} → one_row o ≡ ok a → o ≡ some a
one_row_holds none h = cc
one_row_holds (some x) h = cc

drop_holds : {A : Type 0} (P : A → Type 0) (n : ℕ) (xs : List A) → All P xs → All P (drop n xs)
drop_holds P zero xs h = h
drop_holds P (suc n) [] h = h
drop_holds P (suc n) (x ∷ xs) h = drop_holds P n xs h.1

take_holds : {A : Type 0} (P : A → Type 0) (n : ℕ) (xs : List A) → All P xs → All P (take n xs)
take_holds P zero xs h = tt
take_holds P (suc n) [] h = h
take_holds P (suc n) (x ∷ xs) h = (h.0, take_holds P n xs h.1)

-- GetById returns a row of the account of the request with the id asked for, and List returns rows of
-- that account, at most as many as its limit, whatever the tables hold.
pub get_by_id-list-scoped :
    (e : Env) (w : World) (id limit offset : ℕ) (r : Reservation) (rs : List Reservation)
    → (get_by_id id e w).0 ≡ ok r
    → (list limit offset e w).0 ≡ ok rs
    → (r.account_id ≡ e.account_id)
      × (r.id ≡ id)
      × (length rs ≤ limit)
      × All (λ x. x.account_id ≡ e.account_id) rs
unfolding get_by_id list
get_by_id-list-scoped e w id limit offset r rs h k =
    let found = one_row_holds _ (query_holds _ e w h) in
    let owned = filter_owned e.account_id w.db.reservations in
    let same : take limit
          (drop offset (filter (λ x. x.account_id == e.account_id) w.db.reservations))
        ≡ rs =
      cc (query_holds _ e w k) in
    let test = find_holds (scoped e.account_id id) w.db.reservations found in
    (
      ground arith,
      ground arith,
      rw (← same) (length-take limit _),
      rw (← same) (take_holds _ limit _ (drop_holds _ offset _ owned)),
    )
