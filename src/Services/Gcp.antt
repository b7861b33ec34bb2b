-- ===== src/Services/Gcp.antt =====
-- CreateGCPReservation of internal/services/gcp_reservation_service.go.
use provisioning_backend.Common.{ℕ, String, some, none, [], ◌∷◌, if◌then◌else◌}
use provisioning_backend.Errors.{new_client_error}
use provisioning_backend.Models.{gcp, GcpDetail, Details, Authentication, must_be, Job, gcp_args}
use provisioning_backend.World.{
  Result, ok, M, pure, lift, gets, call, check, ignore, of_nil, ◌>>=◌, ◌>>◌,
}
use provisioning_backend.Dao.Reservations
use provisioning_backend.Dao.Pubkeys
use provisioning_backend.Services.Render.{or_render, guard, render, enqueue, not_found_or_dao_error}
use provisioning_backend.Services.Requests.{GcpRequest}

unfoldable pub gcp_authentication : String → M Authentication
gcp_authentication source_id = do
  or_render new_client_error (check λ e n. e.sources_client n)
  auth ← or_render new_client_error (call λ e n. e.get_authentication n source_id)
  or_render new_client_error (lift (of_nil (must_be auth gcp)))
  or_render new_client_error (check λ e n. e.image_client n)
  pure auth

unfoldable pub gcp_image : String → M String
gcp_image image_id = do
  composed ← gets λ e w. e.is_uuid image_id
  if composed
      then or_render new_client_error (call λ e n. e.get_image n gcp image_id)
      else pure image_id

unfoldable pub gcp_details_of : GcpRequest → String → Details GcpDetail
gcp_details_of payload uuid = record {
  reservation_id = 0;
  pubkey_id = payload.pubkey_id;
  source_id = payload.source_id;
  image_id = payload.image_id;
  cloud_id = none;
  detail = record {
    zone = payload.zone;
    name_pattern = some payload.name_pattern;
    machine_type = payload.machine_type;
    amount = payload.amount;
    uuid = uuid;
    launch_template_id = payload.launch_template_id;
    power_off = payload.power_off;
  };
}

abbrev gcp_job : ℕ → ℕ → Details GcpDetail → String → Authentication → Job
gcp_job account_id reservation_id d image auth = record {
  account_id = account_id;
  args = gcp_args (record {
    reservation_id = reservation_id;
    zone = d.detail.zone;
    pubkey_id = d.pubkey_id;
    detail = d.detail;
    image_name = image;
    project_id = auth;
    launch_template_id = d.detail.launch_template_id;
  });
}

-- `bound` is what render.Bind makes of the request's body.
unfoldable pub create_gcp_reservation : Result GcpRequest → M (Unit {0})
unfolding gcp_authentication gcp_image gcp_details_of
create_gcp_reservation bound = ignore (do
  payload ← or_render (λ x. 400) (lift bound)
  or_render (λ x. 400) (guard λ e. e.valid_region gcp payload.zone)
  uuid ← call λ e n. ok (e.new_uuid n)
  account_id ← gets λ e w. e.account_id
  let details = gcp_details_of payload uuid
  pk ← or_render not_found_or_dao_error (Pubkeys.get_by_id payload.pubkey_id)
  row ←
      or_render (λ x. 500)
        (Reservations.create_gcp
          (record {
            steps = 2;
            step_titles = "Launch instance(s)" ∷ "Fetch instance(s) description" ∷ [];
          })
          details)
  auth ← gcp_authentication payload.source_id
  image ← gcp_image payload.image_id
  or_render (λ x. 500) (enqueue (gcp_job account_id row.id details image auth))
  render)
