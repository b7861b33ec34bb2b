-- ===== src/Dao/Lifetime.antt =====
-- Reservations that Cleanup deletes, and those that it keeps.
use provisioning_backend.Common.{
  ℕ, ◌+◌, String, ◌≤◌, ◌≡◌, refl, Bool, true, false, not, Option, none, some, List, [], ◌∷◌, any,
  All, ltb, if_elim, Bool-cases, inl, inr, arith, sym, ap, ◌∙◌,
}
use mathlib.Core.Path.{subst}
use provisioning_backend.Models.{Reservation, Details, AwsDetail, aws}
use provisioning_backend.World.{Result, ok, World, Env, Db, one_row, query, exec}
use provisioning_backend.Dao.Scoping.{find_holds, query_holds, one_row_holds}
use provisioning_backend.Dao.Rows.{find, filter}
use provisioning_backend.Dao.Reservations.{
  remaining, cleanup, get_aws_by_id, joined, of_provider, details_of,
}

module _ {A : Type 0} where
  -- The first row stays the first, if it is kept.
  find-filter :
      (p q : A → Bool) (rows : List A) (a : A)
      → find p rows ≡ some a
      → q a ≡ true
      → find p (filter q rows) ≡ some a
  find-filter p q [] a h k = absurd (cc)
  find-filter p q (x ∷ rows) a h k = elim (Bool-cases (p x)) [
    | inl e ↦
        let same : x ≡ a = cc in
        let kept : q x ≡ true = rw same k in rw kept (rw e (ap (λ b. some b) same))
    | inr e ↦
        let later : find p rows ≡ some a = rw e at h in
        if_elim (λ l. find p l ≡ some a) (q x) (x ∷ filter q rows) (filter q rows)
          (λ _. rw e (find-filter p q rows a later k)) (λ _. find-filter p q rows a later k)
  ]

  any-find : (p : A → Bool) (rows : List A) (a : A) → find p rows ≡ some a → any p rows ≡ true
  any-find p [] a h = absurd (cc)
  any-find p (x ∷ rows) a h = elim (Bool-cases (p x)) [
    | inl e ↦ ground arith
    | inr e ↦ let ih = any-find p rows a (rw e at h) in ground arith
  ]

-- With a reservation that was found, its row and details survive the deletion of others.
joined-delete_where :
    (p : Reservation → Bool) (account id : ℕ) (rows : List Reservation)
    (details : List (Details AwsDetail)) (r : Reservation) (d : Details AwsDetail)
    → joined (find (of_provider aws account id) rows) (find (details_of id) details) ≡ some (r, d)
    → p r ≡ false
    → let kept = filter (λ x. not (p x)) rows in
      joined
        (find (of_provider aws account id) kept)
        (find (details_of id) (filter (λ x. remaining x.reservation_id kept) details))
      ≡ some (r, d)
joined-delete_where p account id rows details r d h k =
    by_row (find (of_provider aws account id) rows) (find (details_of id) details) refl refl h
  where
    q : Reservation → Bool
    q x = not (p x)

    kept : List Reservation
    kept = filter q rows

    row_kept :
        find (of_provider aws account id) rows ≡ some r
        → find (of_provider aws account id) kept ≡ some r
    row_kept e = find-filter (of_provider aws account id) q rows r e (rw k refl)

    held : find (of_provider aws account id) rows ≡ some r → remaining id kept ≡ true
    held e = any_weaken kept (any-find (of_provider aws account id) kept r (row_kept e))
      where
        any_weaken :
            (xs : List Reservation)
            → any (of_provider aws account id) xs ≡ true
            → remaining id xs ≡ true
        any_weaken [] f = f
        any_weaken (x ∷ xs) f = let ih = any_weaken xs in ground arith

    by_row :
        (a : Option Reservation) (b : Option (Details AwsDetail))
        → find (of_provider aws account id) rows ≡ a
        → find (details_of id) details ≡ b
        → joined a b ≡ some (r, d)
        → joined
            (find (of_provider aws account id) kept)
            (find (details_of id) (filter (λ x. remaining x.reservation_id kept) details))
          ≡ some (r, d)
    by_row (some a) (some b) e f g =
        let same_row : a ≡ r = cc in
        let same_detail : b ≡ d = cc in
        let of_id = find_holds (details_of id) details f in
        let of_id' : b.reservation_id ≡ id = ground arith in
        let h1 : find (of_provider aws account id) rows ≡ some r = rw same_row at e in
        let detail_kept =
          find-filter (details_of id) (λ x. remaining x.reservation_id kept) details b f
            (rw of_id' (held h1)) in
        rw (row_kept h1) (rw detail_kept (rw same_detail refl))
    by_row none b e f g = absurd (cc)
    by_row (some a) none e f g = absurd (cc)

filter-All : {A : Type 0} (p : A → Bool) (rows : List A) → All (λ a. p a ≡ true) (filter p rows)
filter-All p [] = tt
filter-All p (a ∷ rows) =
    if_elim (All (λ a. p a ≡ true)) (p a) (a ∷ filter p rows) (filter p rows)
      (λ e. (e, filter-All p rows)) (λ e. filter-All p rows)

All-map :
    {A : Type 0} {P Q : A → Type 0} (f : (a : A) → P a → Q a) (rows : List A)
    → All P rows
    → All Q rows
All-map f [] h = tt
All-map f (a ∷ rows) (h, hs) = (f a h, All-map f rows hs)

query_answers :
    {A : Type 0} (f : Env → Db → Result A) (e : Env) (w : World)
    → e.fault w.calls ≡ none
    → (query f e w).0 ≡ f e w.db
unfolding query
query_answers f e w h = rw (h, query) refl

exec_answers :
    {A : Type 0} (message : String) (f : Env → ℕ → Db → A × Db) (e : Env) (w : World)
    → e.fault w.calls ≡ none
    → let (a, db') = f e w.calls w.db in
      exec message f e w
      ≡ (ok a, record w { state = record w.state { db = db' }; calls = w.calls + 1 })
unfolding exec
exec_answers message f e w h = rw (h, exec) refl

-- Cleanup leaves only reservations within the lifetime, and an AWS reservation within the lifetime is read with
-- its details as before, if the database answers.
pub get_aws_by_id-cleanup :
    (e : Env) (w : World) (lifetime id : ℕ) (r : Reservation) (d : Details AwsDetail)
    → ((n : ℕ) → e.fault n ≡ none)
    → (get_aws_by_id id e w).0 ≡ ok (r, d)
    → e.now w.calls ≤ r.created_at + lifetime
    → let (cleaned, w') = cleanup lifetime e w in
      (cleaned ≡ ok tt)
      × All (λ x. e.now w.calls ≤ x.created_at + lifetime) w'.db.reservations
      × ((get_aws_by_id id e w').0 ≡ ok (r, d))
unfolding get_aws_by_id cleanup
get_aws_by_id-cleanup e w lifetime id r d answers h young =
    let old : Reservation → Bool = λ x. ltb (x.created_at + lifetime) (e.now w.calls) in
    let old : Reservation → Bool = λ x. ltb (x.created_at + lifetime) (e.now w.calls) in
    let found = one_row_holds _ (query_holds _ e w h) in
    let kept =
      joined-delete_where old e.account_id id w.db.reservations w.db.aws_details r d found
        (ground arith) in
    let within =
      All-map {P = λ x. not (old x) ≡ true} {Q = λ x. e.now w.calls ≤ x.created_at + lifetime}
        (λ x k. ground arith) (filter (λ x. not (old x)) w.db.reservations)
        (filter-All (λ x. not (old x)) w.db.reservations) in
    let done = exec_answers "pgx error" _ e w (answers w.calls) in
    subst
      (λ p.
        (p.0 ≡ ok tt)
        × All (λ x. e.now w.calls ≤ x.created_at + lifetime) (p.1).db.reservations
        × ((get_aws_by_id id e p.1).0 ≡ ok (r, d)))
      (sym done)
      (refl, within, query_answers _ e _ (answers (w.calls + 1)) ∙ ap (λ o. one_row o) kept)
