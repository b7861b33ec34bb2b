-- ===== src/Services/Creation.antt =====
-- What the creations of Dao/Reservations.antt leave in the table of reservations, under the contracts
-- of the handlers.
use provisioning_backend.Common.{
  ℕ, ◌+◌, ◌≡◌, refl, ◌∙◌, String, none, Option-cases, inl, inr, List, [], ◌∷◌, ◌++◌,
}
use provisioning_backend.Models.{
  Reservation, ProviderType, noop, aws, azure, gcp, Details, AwsDetail, AzureDetail, GcpDetail,
}
use provisioning_backend.World.{
  Result, ok, err, Db, State, Env, M, pure, check, call, attempt, annotate, ignore, lift, statement,
  exec, continue, mark, ◌>>=◌, ◌>>◌,
}
use provisioning_backend.Dao.Reservations.{
  NewReservation, create_generic_reservation, create_noop, create_aws, create_azure, create_gcp,
  with_transaction, finish_transaction, begin,
}
use provisioning_backend.Services.Contracts.{Before, GoesOn, Silent, Any, Ensures}

-- The table of reservations and its sequence before a request.
pub record Table : Type 0 where
  pub rows : List Reservation
  pub last : ℕ

pub record Unchanged (t : Table) (db : Db) : Type 0 where
  pub rows_same : db.reservations ≡ t.rows
  pub last_same : db.last_reservation ≡ t.last

-- The new row stands at the end of the table, with the next id, at step 0 of its steps.
pub record Created (t : Table) (e : Env) (provider : ProviderType) (steps : ℕ) (row : Reservation)
    (db : Db) : Type 0 where
  pub appended : db.reservations ≡ t.rows ++ row ∷ []
  pub next_id : row.id ≡ t.last + 1
  pub owner : row.account_id ≡ e.account_id
  pub provider_is : row.provider ≡ provider
  pub steps_are : row.steps ≡ steps
  pub at_start : row.step ≡ 0
  pub unfinished : row.success ≡ none
  pub no_error : row.error ≡ none

-- The details are in another table.
same_table :
    {t : Table} {e : Env} {p : ProviderType} {steps : ℕ} {row : Reservation} {db : Db} (db' : Db)
    → db'.reservations ≡ db.reservations
    → Created t e p steps row db
    → Created t e p steps row db'
same_table db' same h = record {
  appended = same ∙ h.appended;
  next_id = h.next_id;
  owner = h.owner;
  provider_is = h.provider_is;
  steps_are = h.steps_are;
  at_start = h.at_start;
  unfinished = h.unfinished;
  no_error = h.no_error;
}

mark-Silent :
    (b : Before) {A : Type 0} (D : A → Db → Type 0) (t : String) (r : Result A) (s : State)
    → Silent b D r s
    → Silent b D (mark t r) s
mark-Silent b D t (ok a) s h = h
mark-Silent b D t (err x) s h = h

pub forget : {b : Before} {D : Db → Type 0} {s : State} → GoesOn b D s → GoesOn b Any s
forget h = record { holds = tt; queued = h.queued; told = h.told; answered = h.answered }

finish-Silent :
    (e : Env) (b : Before) {A : Type 0} (D : A → Db → Type 0) (r : Result A) (s : State) (n : ℕ)
    → Silent b D r s
    → let (r', w) = finish_transaction r e (record { state = s; calls = n }) in
      Silent b D r' w.state
unfolding finish_transaction pure ◌>>=◌ ignore annotate lift begin check call
finish-Silent e b D (ok a) s n h = elim (Option-cases (e.fault n)) [
  | inl p ↦ rw p h
  | inr (x, p) ↦ rw p (forget h)
]
finish-Silent e b D (err x) s n h = h

module _ {e : Env} {b : Before} where
  continue-Silent :
      {A B : Type 0} (D : A → Db → Type 0) (E : B → Db → Type 0) (f : A → M B)
      → ((a : A) → Ensures e (GoesOn b (D a)) (f a) (Silent b E))
      → (r : Result A) (s : State) (n : ℕ) → Silent b D r s
      → let (r', w) = continue r f e (record { state = s; calls = n }) in Silent b E r' w.state
  continue-Silent D E f k (ok a) s n h = (k a).at s n h
  continue-Silent D E f k (err x) s n h = h

  Silent-bind :
      {A B : Type 0} {P : State → Type 0} (D : A → Db → Type 0) (E : B → Db → Type 0) (m : M A)
      (f : A → M B)
      → Ensures e P m (Silent b D)
      → ((a : A) → Ensures e (GoesOn b (D a)) (f a) (Silent b E))
      → Ensures e P (m >>= f) (Silent b E)
  unfolding ◌>>=◌
  Silent-bind D E m f km kf = record {
    at = λ s n h.
        let (r, w) = m e (record { state = s; calls = n }) in
        continue-Silent D E f kf r w.state w.calls (km.at s n h);
  }

  Silent-annotate :
      {A : Type 0} {P : State → Type 0} (D : A → Db → Type 0) (t : String) (m : M A)
      → Ensures e P m (Silent b D)
      → Ensures e P (annotate t m) (Silent b D)
  unfolding annotate
  Silent-annotate D t m k = record {
    at = λ s n h.
        let (r, w) = m e (record { state = s; calls = n }) in
        mark-Silent b D t r w.state (k.at s n h);
  }

  Silent-begin : (D : Db → Type 0) → Ensures e (GoesOn b D) begin (Silent b (λ a. D))
  unfolding begin check call
  Silent-begin D = record {
    at = λ s n h. elim (Option-cases (e.fault n)) [ inl p ↦ rw p h | inr (x, p) ↦ rw p (forget h) ];
  }

  Silent-with_transaction :
      {A : Type 0} (D : Db → Type 0) (E : A → Db → Type 0) (fn : M A)
      → Ensures e (GoesOn b D) fn (Silent b E)
      → Ensures e (GoesOn b D) (with_transaction fn) (Silent b E)
  unfolding with_transaction ◌>>=◌ attempt
  Silent-with_transaction D E fn k =
      Silent-bind (λ a. D) E _ _ (Silent-annotate _ _ _ (Silent-begin D))
        (λ _. record {
          at = λ s n h.
              let (r, w) = fn e (record { state = s; calls = n }) in
              finish-Silent e b E r w.state w.calls (k.at s n h);
        })

module _ {e : Env} {b : Before} {t : Table} where
  Ensures-create_generic :
      (p : ProviderType) (new : NewReservation)
      → Ensures e
          (GoesOn b (Unchanged t))
          (create_generic_reservation p new)
          (Silent b (Created t e p new.steps))
  unfolding create_generic_reservation exec
  Ensures-create_generic p new = record {
    at = λ s n h. elim (Option-cases (e.fault n)) [
      | inl q ↦
          rw (q, exec)
            (record {
              holds = record {
                appended = rw h.holds.rows_same refl;
                next_id = rw h.holds.last_same refl;
                owner = refl;
                provider_is = refl;
                steps_are = refl;
                at_start = refl;
                unfinished = refl;
                no_error = refl;
              };
              queued = h.queued;
              told = h.told;
              answered = h.answered;
            })
      | inr (x, q) ↦ rw (q, exec) (forget h)
    ];
  }

  pub Ensures-create_noop :
      (new : NewReservation)
      → Ensures e (GoesOn b (Unchanged t)) (create_noop new) (Silent b (Created t e noop new.steps))
  unfolding create_noop
  Ensures-create_noop new = Silent-annotate _ _ _ (Ensures-create_generic noop new)

  -- The rest of a creation, which inserts the details.
  insert_details :
      (p : ProviderType) (new : NewReservation) (row : Reservation) (f : Db → Db)
      → ((db : Db) → Created t e p new.steps row db → Created t e p new.steps row (f db))
      → Ensures e
          (GoesOn b (Created t e p new.steps row))
          (statement (λ e' n db. (f db, 1)) >> pure row)
          (Silent b (Created t e p new.steps))
  unfolding statement pure ◌>>=◌
  insert_details p new row f k = record {
    at = λ s n h. elim (Option-cases (e.fault n)) [
      | inl q ↦
          rw (q, statement)
            (record {
              holds = k s.db h.holds;
              queued = h.queued;
              told = h.told;
              answered = h.answered;
            })
      | inr (x, q) ↦ rw (q, statement) (forget h)
    ];
  }

  pub Ensures-create_aws :
      (new : NewReservation) (d : Details AwsDetail)
      → Ensures e (GoesOn b (Unchanged t)) (create_aws new d) (Silent b (Created t e aws new.steps))
  unfolding create_aws
  Ensures-create_aws new d = Silent-annotate _ _ _ (
      Silent-with_transaction _ _ _ (
        Silent-bind _ _ _ _ (Ensures-create_generic aws new)
          (λ row. insert_details aws new row _ (λ db h. same_table _ refl h))))

  pub Ensures-create_azure :
      (new : NewReservation) (d : Details AzureDetail)
      → Ensures e
          (GoesOn b (Unchanged t))
          (create_azure new d)
          (Silent b (Created t e azure new.steps))
  unfolding create_azure
  Ensures-create_azure new d = Silent-annotate _ _ _ (
      Silent-with_transaction _ _ _ (
        Silent-bind _ _ _ _ (Ensures-create_generic azure new)
          (λ row. insert_details azure new row _ (λ db h. same_table _ refl h))))

  pub Ensures-create_gcp :
      (new : NewReservation) (d : Details GcpDetail)
      → Ensures e (GoesOn b (Unchanged t)) (create_gcp new d) (Silent b (Created t e gcp new.steps))
  unfolding create_gcp
  Ensures-create_gcp new d = Silent-annotate _ _ _ (
      Silent-with_transaction _ _ _ (
        Silent-bind _ _ _ _ (Ensures-create_generic gcp new)
          (λ row. insert_details gcp new row _ (λ db h. same_table _ refl h))))
