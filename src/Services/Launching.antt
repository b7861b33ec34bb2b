-- ===== src/Services/Launching.antt =====
-- CreateNoopReservation, CreateAWSReservation, CreateAzureReservation and CreateGCPReservation of
-- internal/services: how a request ends.
use provisioning_backend.Common.{
  ℕ, String, Bool, true, false, if◌then◌else◌, refl, ◌⊎◌, inl, inr, arith,
}
use provisioning_backend.Models.{ProviderType, noop, aws, azure, gcp, Authentication}
use provisioning_backend.World.{
  Result, ok, err, Db, State, World, Env, M, lift, gets, ignore, ◌>>=◌,
}
use provisioning_backend.World.Keeps.{Keeps-lift, Keeps-check, Keeps-call}
use provisioning_backend.Services.Requests.{AwsRequest, AzureRequest, GcpRequest}
use provisioning_backend.Services.Render.{or_render}
use provisioning_backend.Services.Contracts.{
  Before, GoesOn, Rejected, Phase, Ensures, Ensures-or_render, Ensures-pure, Ensures-call_ok,
}
use provisioning_backend.Services.Creation.{
  Table, Unchanged, Ensures-create_noop, Ensures-create_aws, Ensures-create_azure,
  Ensures-create_gcp,
}
use provisioning_backend.Services.Acceptance.{
  Accepted, Ended, step, client_step, invalid_step, pubkey_step, then_phase, then_end, launch_end,
}
use provisioning_backend.Services.Aws.{
  validate_aws, aws_image, aws_authentication, create_aws_reservation,
}
use provisioning_backend.Services.Azure.{
  azure_image, azure_authentication, create_azure_reservation,
}
use provisioning_backend.Services.Gcp.{gcp_image, gcp_authentication, create_gcp_reservation}
use provisioning_backend.Services.Noop.{create_noop_reservation}

-- What there was before a request.
abbrev pub before : World → Before
before w = record { queue = w.queue; notices = w.notices; responses = w.responses }

abbrev pub table : World → Table
table w = record { rows = w.db.reservations; last = w.db.last_reservation }

Ended-cases :
    {b : Before} {t : Table} {e : Env} {p : ProviderType} {steps : ℕ} (r : Result (Unit {0}))
    (s : State)
    → Ended b t e p steps r s
    → Rejected b s ⊎ Accepted b t e p steps s
Ended-cases (ok a) s h = inr h
Ended-cases (err x) s h = inl h

ends :
    {e : Env} (p : ProviderType) (steps : ℕ) (m : M (Unit {0})) (w : World)
    → Ensures e (GoesOn (before w) (Unchanged (table w))) m (Ended (before w) (table w) e p steps)
    → let s = (ignore m e w).1.state in
      Rejected (before w) s ⊎ Accepted (before w) (table w) e p steps s
unfolding ignore
ends {e = e} p steps m w k =
    let (r, w') = m e w in
    Ended-cases r w'.state (
      k.at w.state w.calls (record {
        holds = record { rows_same = refl; last_same = refl };
        queued = refl;
        told = refl;
        answered = refl;
      }))

module _ {e : Env} {b : Before} (D : Db → Type 0) where
  Ensures-env :
      {A B : Type 0} {Q : Result B → State → Type 0} (f : Env → A) (k : A → M B)
      → Ensures e (GoesOn b D) (k (f e)) Q
      → Ensures e (GoesOn b D) (gets (λ e' w. f e') >>= k) Q
  unfolding gets ◌>>=◌
  Ensures-env f k h = record { at = h.at }

  bound_step :
      {A : Type 0} (r : Result A)
      → Ensures e (GoesOn b D) (or_render (λ x. 400) (lift r)) (Phase b (λ a. D))
  bound_step r = step D (λ x. 400) _ (λ x. omega arith) (Keeps-lift r)

  validate_aws-Ensures :
      (payload : AwsRequest) → Ensures e (GoesOn b D) (validate_aws payload) (Phase b (λ a. D))
  unfolding validate_aws
  validate_aws-Ensures payload =
      then_phase _ _ _ _ (invalid_step D _)
        (λ _. then_phase _ _ _ _ (invalid_step D _) (λ _. invalid_step D _))

  aws_authentication-Ensures :
      (source_id : String)
      → Ensures e (GoesOn b D) (aws_authentication source_id) (Phase b (λ a. D))
  unfolding aws_authentication
  aws_authentication-Ensures source_id = then_phase _ _ _ _ (client_step D _ (Keeps-check _)) (λ _.
      then_phase _ _ _ _ (client_step D _ (Keeps-call _)) (λ auth.
        then_phase _ _ _ _ (client_step D _ (Keeps-lift _)) (λ _. Ensures-pure (λ a. D) auth)))

  Ensures-if :
      {A : Type 0} {Q : Result A → State → Type 0} (c : Bool) (m k : M A)
      → Ensures e (GoesOn b D) m Q
      → Ensures e (GoesOn b D) k Q
      → Ensures e (GoesOn b D) (if c then m else k) Q
  Ensures-if true m k hm hk = hm
  Ensures-if false m k hm hk = hk

  aws_image-Ensures :
      (image_id : String) → Ensures e (GoesOn b D) (aws_image image_id) (Phase b (λ a. D))
  unfolding aws_image
  aws_image-Ensures image_id =
      Ensures-if _ _ _ (Ensures-pure (λ a. D) image_id)
        (then_phase _ _ _ _ (client_step D _ (Keeps-check _)) (λ _. client_step D _ (Keeps-call _)))

  azure_authentication-Ensures :
      (source_id : String)
      → Ensures e (GoesOn b D) (azure_authentication source_id) (Phase b (λ a. D))
  unfolding azure_authentication
  azure_authentication-Ensures source_id =
      then_phase _ _ _ _ (client_step D _ (Keeps-check _)) (λ _.
        then_phase _ _ _ _ (client_step D _ (Keeps-check _)) (λ _.
          then_phase _ _ _ _ (client_step D _ (Keeps-call _)) (λ auth.
            then_phase _ _ _ _ (client_step D _ (Keeps-lift _)) (λ _. Ensures-pure (λ a. D) auth))))

  azure_image-Ensures :
      (auth : Authentication) (image_id : String)
      → Ensures e (GoesOn b D) (azure_image auth image_id) (Phase b (λ a. D))
  unfolding azure_image
  azure_image-Ensures auth image_id = Ensures-env _ _ (
      Ensures-if _ _ _
        (then_phase _ _ _ _ (client_step D _ (Keeps-call _)) (λ name. Ensures-pure (λ a. D) _))
        (Ensures-pure (λ a. D) _))

  gcp_authentication-Ensures :
      (source_id : String)
      → Ensures e (GoesOn b D) (gcp_authentication source_id) (Phase b (λ a. D))
  unfolding gcp_authentication
  gcp_authentication-Ensures source_id = then_phase _ _ _ _ (client_step D _ (Keeps-check _)) (λ _.
      then_phase _ _ _ _ (client_step D _ (Keeps-call _)) (λ auth.
        then_phase _ _ _ _ (client_step D _ (Keeps-lift _)) (λ _.
          then_phase _ _ _ _ (client_step D _ (Keeps-check _)) (λ _. Ensures-pure (λ a. D) auth))))

  gcp_image-Ensures :
      (image_id : String) → Ensures e (GoesOn b D) (gcp_image image_id) (Phase b (λ a. D))
  unfolding gcp_image
  gcp_image-Ensures image_id =
      Ensures-env _ _
        (Ensures-if _ _ _ (client_step D _ (Keeps-call _)) (Ensures-pure (λ a. D) image_id))

module _ (e : Env) (w : World) where
  -- Whatever the database, the queue, Sources, Image Builder and the renderer do, a request for AWS ends
  -- in one of two ways. Either it was refused: one response with a status of at least 400 was written,
  -- and nothing was enqueued. Or it was accepted: one response was written; the table of reservations
  -- got one more row, with the next id, of the account, at step 0 of 3, with no result; and one AWS
  -- job of the account for that row was pushed to the queue. No notification is sent in either.
  pub create_aws_reservation-Accepted :
      (bound : Result AwsRequest)
      → let s = (create_aws_reservation bound e w).1.state in
        Rejected (before w) s ⊎ Accepted (before w) (table w) e aws 3 s
  unfolding create_aws_reservation
  create_aws_reservation-Accepted bound = ends aws 3 _ w (
      then_end aws 3 _ _ _ (bound_step _ bound) (λ payload.
        then_end aws 3 _ _ _ (validate_aws-Ensures _ payload) (λ _. Ensures-env _ _ _ (
          Ensures-env _ _ _ (
            then_end aws 3 _ _ _ (pubkey_step _ _) (λ pk.
              then_end aws 3 _ _ _
                (Ensures-or_render _ _ _ (λ x. omega arith) (Ensures-create_aws _ _))
                (λ row.
                  then_end aws 3 _ _ _ (aws_authentication-Ensures _ payload.source_id) (λ auth.
                    then_end aws 3 _ _ _ (aws_image-Ensures _ payload.image_id)
                      (λ ami. launch_end aws 3 row _ refl refl refl)))))))))

  -- Whatever the database, the queue, Sources, Image Builder and the renderer do, a request for Azure
  -- ends in one of two ways. Either it was refused: one response with a status of at least 400 was
  -- written, and nothing was enqueued. Or it was accepted: one response was written; the table of
  -- reservations got one more row, with the next id, of the account, at step 0 of 2, with no result;
  -- and one Azure job of the account for that row was pushed to the queue. No notification is sent in
  -- either.
  pub create_azure_reservation-Accepted :
      (bound : Result AzureRequest)
      → let s = (create_azure_reservation bound e w).1.state in
        Rejected (before w) s ⊎ Accepted (before w) (table w) e azure 2 s
  unfolding create_azure_reservation
  create_azure_reservation-Accepted bound = ends azure 2 _ w (
      then_end azure 2 _ _ _ (bound_step _ bound) (λ payload.
        then_end azure 2 _ _ _ (invalid_step _ _) (λ _.
          then_end azure 2 _ _ _ (pubkey_step _ _) (λ pk.
            then_end azure 2 _ _ _ (azure_authentication-Ensures _ payload.source_id) (λ auth.
              then_end azure 2 _ _ _ (azure_image-Ensures _ auth payload.image_id) (λ image.
                then_end azure 2 _ _ _ (invalid_step _ _) (λ _. Ensures-env _ _ _ (
                  Ensures-env _ _ _ (
                    then_end azure 2 _ _ _
                      (Ensures-or_render _ _ _ (λ x. omega arith) (Ensures-create_azure _ _))
                      (λ row. launch_end azure 2 row _ refl refl refl))))))))))

  -- Whatever the database, the queue, Sources, Image Builder and the renderer do, a request for GCP
  -- ends in one of two ways. Either it was refused: one response with a status of at least 400 was
  -- written, and nothing was enqueued. Or it was accepted: one response was written; the table of
  -- reservations got one more row, with the next id, of the account, at step 0 of 2, with no result;
  -- and one GCP job of the account for that row was pushed to the queue. No notification is sent in
  -- either.
  pub create_gcp_reservation-Accepted :
      (bound : Result GcpRequest)
      → let s = (create_gcp_reservation bound e w).1.state in
        Rejected (before w) s ⊎ Accepted (before w) (table w) e gcp 2 s
  unfolding create_gcp_reservation
  create_gcp_reservation-Accepted bound = ends gcp 2 _ w (
      then_end gcp 2 _ _ _ (bound_step _ bound) (λ payload.
        then_end gcp 2 _ _ _ (invalid_step _ _) (λ _.
          then_end gcp 2 _ _ _ (Ensures-call_ok _ _) (λ uuid. Ensures-env _ _ _ (
            then_end gcp 2 _ _ _ (pubkey_step _ _) (λ pk.
              then_end gcp 2 _ _ _
                (Ensures-or_render _ _ _ (λ x. omega arith) (Ensures-create_gcp _ _))
                (λ row.
                  then_end gcp 2 _ _ _ (gcp_authentication-Ensures _ payload.source_id) (λ auth.
                    then_end gcp 2 _ _ _ (gcp_image-Ensures _ payload.image_id)
                      (λ image. launch_end gcp 2 row _ refl refl refl)))))))))

  -- Whatever the database, the queue and the renderer do, a request for a noop reservation
  -- ends in one of two ways. Either it was refused: one response with a status of at least 400 was
  -- written, and nothing was enqueued. Or it was accepted: one response was written; the table of
  -- reservations got one more row, with the next id, of the account, at step 0 of 1, with no result;
  -- and one noop job of the account for that row was pushed to the queue. No notification is sent in
  -- either.
  pub create_noop_reservation-Accepted :
      let s = (create_noop_reservation e w).1.state in
      Rejected (before w) s ⊎ Accepted (before w) (table w) e noop 1 s
  unfolding create_noop_reservation
  create_noop_reservation-Accepted = ends noop 1 _ w (
      Ensures-env _ _ _ (
        then_end noop 1 _ _ _ (Ensures-or_render _ _ _ (λ x. omega arith) (Ensures-create_noop _))
          (λ row. launch_end noop 1 row _ refl refl refl)))
