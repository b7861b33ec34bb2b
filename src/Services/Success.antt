-- ===== src/Services/Success.antt =====
-- CreateAWSReservation of internal/services/aws_reservation_service.go on a request that has all it
-- needs.
use provisioning_backend.Common.{
  false, Bool-cases, ◌⊎◌, inl, inr, ℕ, ◌+◌, ◌≡◌, refl, not, ◌||◌, ◌&&◌, true, none, some, [], ◌∷◌,
  ◌++◌, String, str_eq, has_prefix,
}
use provisioning_backend.Models.{
  Job, Reservation, aws, Authentication, must_be, Pubkey, Details, AwsDetail,
}
use provisioning_backend.World.{
  ok, Db, World, Env, attempt, check, call, lift, gets, pure, ignore, modify, annotate, exec,
  statement, query, ◌>>=◌,
}
use provisioning_backend.Dao.Rows.{find}
use provisioning_backend.Dao.Pubkeys
use provisioning_backend.Dao.Pubkeys.{owned}
use provisioning_backend.Dao.Reservations
use provisioning_backend.Dao.Reservations.{NewReservation, new_row, with_reservation_id}
use provisioning_backend.Services.Requests.{AwsRequest}
use provisioning_backend.Services.Acceptance.{job_reservation}
use provisioning_backend.Services.Render.{
  or_render, guard, render, enqueue, write, supported_type, not_found_or_dao_error,
}
use provisioning_backend.Services.Aws.{
  create_aws_reservation, validate_aws, aws_image, aws_authentication, region_or_default,
  aws_details_of,
}

-- Nothing that the handler calls fails.
pub record Works (e : Env) : Type 0 where
  pub fault : (n : ℕ) → e.fault n ≡ none
  pub enqueue_fault : (n : ℕ) → e.enqueue_fault n ≡ none
  pub render_fault : (n : ℕ) → e.render_fault n ≡ none
  pub sources_client : (n : ℕ) → e.sources_client n ≡ none

-- The request passes every test: its region, its type or template, its key, the authentication of its
-- source, and its image: an AMI, or one of Image Builder for which that service has an AMI.
pub record IsComplete (e : Env) (payload : AwsRequest) (w : World) : Type 0 where
  pub region : e.valid_region aws (region_or_default payload.region) ≡ true
  pub given : not (str_eq payload.instance_type "" && str_eq payload.launch_template_id "") ≡ true
  pub supported :
      not (str_eq payload.launch_template_id "") || supported_type aws payload.instance_type e
      ≡ true
  pub pk : Pubkey
  pub stored : find (owned e.account_id payload.pubkey_id) w.db.pubkeys ≡ some pk
  pub auth : Authentication
  pub source : (n : ℕ) → e.get_authentication n payload.source_id ≡ ok auth
  pub for_aws : must_be auth aws ≡ none
  pub image :
      (str_eq payload.image_id "" || has_prefix payload.image_id "ami-" ≡ true)
      ⊎ (((n : ℕ) → e.image_client n ≡ none)
          × (ami : String) × ((n : ℕ) → e.get_image n aws payload.image_id ≡ ok ami))

module _ {e : Env} (up : Works e) where
  validated :
      (payload : AwsRequest) (w : World)
      → IsComplete e payload w
      → validate_aws payload e w ≡ (ok tt, w)
  unfolding validate_aws or_render guard attempt ◌>>=◌ pure
  validated payload w h = rw h.region (rw h.given (rw h.supported refl))

  authenticated :
      (source_id : String) (auth : Authentication) (w : World)
      → ((n : ℕ) → e.get_authentication n source_id ≡ ok auth)
      → must_be auth aws ≡ none
      → aws_authentication source_id e w ≡ (ok auth, record w { calls = w.calls + 1 + 1 })
  unfolding aws_authentication or_render attempt ◌>>=◌ pure check call lift
  authenticated source_id auth w h k =
      rw (up.sources_client w.calls) (rw (h (w.calls + 1)) (rw k refl))

  ended :
      (job : Job) (w : World)
      → (or_render (λ x. 500) (enqueue job) >>= λ _. render) e w ≡ (
        ok tt,
        record w {
          state = record w.state { queue = job ∷ w.queue; responses = w.responses ++ 200 ∷ [] };
          calls = w.calls + 1 + 1;
        },
      )
  unfolding or_render enqueue render write attempt ◌>>=◌ pure check call modify
  ended job w = rw (up.enqueue_fault w.calls) (rw (up.render_fault (w.calls + 1)) refl)

  created :
      (new : NewReservation) (d : Details AwsDetail) (w : World)
      → (row : Reservation) × (db' : Db) × (row.id ≡ w.db.last_reservation + 1)
        × (or_render (λ x. 500) (Reservations.create_aws new d) e w ≡ (
          ok row,
          record w { state = record w.state { db = db' }; calls = w.calls + 1 + 1 + 1 + 1 },
        ))
  unfolding or_render attempt ◌>>=◌ pure Reservations.create_aws Reservations.with_transaction
      Reservations.begin check call annotate Reservations.create_generic_reservation exec statement
      Reservations.finish_transaction
  created new d w =
      let row = new_row aws new e (w.calls + 1) w.db in
      (
        row,
        record w.db {
          reservations = w.db.reservations ++ row ∷ [];
          last_reservation = row.id;
          aws_details = w.db.aws_details ++ with_reservation_id row.id d ∷ [];
        },
        refl,
        rw (up.fault w.calls) (
            rw (up.fault (w.calls + 1), exec)
              (rw (up.fault (w.calls + 1 + 1), statement)
                (rw (up.fault (w.calls + 1 + 1 + 1)) refl))),
      )

  bound_lem :
      (payload : AwsRequest) (w : World)
      → or_render (λ x. 400) (lift (ok payload)) e w ≡ (ok payload, w)
  unfolding or_render attempt ◌>>=◌ pure lift
  bound_lem payload w = refl

  key_found :
      (id : ℕ) (pk : Pubkey) (w : World)
      → find (owned e.account_id id) w.db.pubkeys ≡ some pk
      → or_render not_found_or_dao_error (Pubkeys.get_by_id id) e w
        ≡ (ok pk, record w { calls = w.calls + 1 })
  unfolding or_render attempt ◌>>=◌ pure Pubkeys.get_by_id query
  key_found id pk w h = rw (up.fault w.calls, query) (rw h refl)

  -- The AMI is found, with the calls of Image Builder or with none.
  abbrev ImageFound : String → World → Type 0
  ImageFound image_id w =
      (ami : String) × (n : ℕ) × (aws_image image_id e w ≡ (ok ami, record w { calls = n }))

  built_image :
      (image_id ami : String) (w : World)
      → str_eq image_id "" || has_prefix image_id "ami-" ≡ false
      → ((n : ℕ) → e.image_client n ≡ none)
      → ((n : ℕ) → e.get_image n aws image_id ≡ ok ami)
      → ImageFound image_id w
  unfolding aws_image pure or_render attempt ◌>>=◌ check call
  built_image image_id ami w given client built =
      (ami, w.calls + 1 + 1, rw given (rw (client w.calls) (rw (built (w.calls + 1)) refl)))

  found_image :
      (payload : AwsRequest) (w : World) (w' : World)
      → IsComplete e payload w
      → ImageFound payload.image_id w'
  unfolding aws_image pure
  found_image payload w w' h =
      let given = str_eq payload.image_id "" || has_prefix payload.image_id "ami-" in
      elim (Bool-cases given) [
        | inl direct ↦ (payload.image_id, w'.calls, rw direct refl)
        | inr other ↦ elim h.image [
          | inl direct ↦ absurd (cc)
          | inr (client, ami, built) ↦ built_image payload.image_id ami w' other client built
        ]
      ]

  -- If no call of the database, the queue, the renderer and the Sources client fails, and a request for
  -- AWS names a valid region, an instance type or a template, with no template a known type of
  -- architecture x86_64, a key of the account, a source with an AWS authentication, and an image that is
  -- blank, an AMI, or one of Image Builder, which can be reached and has an AMI for it, then it is accepted:
  -- the one response written is 200, and one job is pushed to the queue, for the reservation with the next id.
  pub create_aws_reservation-response :
      (payload : AwsRequest) (w : World)
      → IsComplete e payload w
      → let s = (create_aws_reservation (ok payload) e w).1.state in
        (s.responses ≡ w.responses ++ 200 ∷ [])
        × ((job : Job) × (s.queue ≡ job ∷ w.queue)
            × (job_reservation job.args ≡ w.db.last_reservation + 1))
  unfolding create_aws_reservation ignore ◌>>=◌ gets
  create_aws_reservation-response payload w h =
      let w1 : World = record w { calls = w.calls + 1 } in
      let (row, db', next, p) =
        created
          (record {
            steps = 3;
            step_titles =
                "Ensure public key" ∷ "Launch instance(s)" ∷ "Fetch instance(s) description" ∷ [];
          })
          (aws_details_of payload e.instance_prefix) w1 in
      let w2 : World = record w {
        state = record w.state { db = db' };
        calls = w1.calls + 1 + 1 + 1 + 1;
      } in
      let w3 : World = record w2 { calls = w2.calls + 1 + 1 } in
      let (ami, n, q) = found_image payload w w3 h in
      rw (bound_lem payload w) (
        rw (validated payload w h) (
          rw (key_found payload.pubkey_id h.pk w h.stored) (
            rw p (
              rw (authenticated payload.source_id h.auth w2 h.source h.for_aws)
                (rw q (rw (ended _ (record w3 { calls = n })) (refl, (_, refl, next))))))))
