-- ===== src/Services/Reservations.antt =====
-- CreateReservation, ListReservations and GetReservationDetail of
-- internal/services/reservations_service.go.
use provisioning_backend.Common.{ℕ, String, Bool, true, ◌∷◌, [], if◌then◌else◌}
use provisioning_backend.Access.{AccessList, check_permission}
use provisioning_backend.Models.{
  ProviderType, unknown, noop, aws, azure, gcp, provider_type_from_string, provider_name,
  same_provider, Reservation,
}
use provisioning_backend.World.{Result, M, pure, lift, gets, ignore, ◌>>=◌, ◌>>◌}
use provisioning_backend.Dao.Reservations as ReservationDao
use provisioning_backend.Services.Render.{
  or_render, guard, render, render_error, write, not_found_or_dao_error,
}
use provisioning_backend.Services.Requests.{AwsRequest, AzureRequest, GcpRequest}
use provisioning_backend.Services.Aws.{create_aws_reservation}
use provisioning_backend.Services.Azure.{create_azure_reservation}
use provisioning_backend.Services.Gcp.{create_gcp_reservation}
use provisioning_backend.Services.Noop.{create_noop_reservation}

-- What render.Bind makes of the body of a request, for each of the types of requests.
pub record Body : Type 0 where
  pub aws_body : Result AwsRequest
  pub azure_body : Result AzureRequest
  pub gcp_body : Result GcpRequest

unfoldable pub dispatch : ProviderType → Body → M (Unit {0})
dispatch noop body = create_noop_reservation
dispatch aws body = create_aws_reservation body.aws_body
dispatch azure body = do
  enabled ← gets λ e w. e.azure_enabled
  if enabled then create_azure_reservation body.azure_body else render_error 400
dispatch gcp body = create_gcp_reservation body.gcp_body
dispatch unknown body = render_error 400

-- The response for a disabled launch is written with no return after it.
unfoldable pub create_reservation : AccessList → String → Body → M (Unit {0})
unfolding dispatch provider_type_from_string
create_reservation acl type_param body = do
  enabled ← gets λ e w. e.launch_enabled
  if enabled then pure tt else write 401
  let provider = provider_type_from_string type_param
  if check_permission acl "write" ("reservation" ∷ provider_name provider ∷ [])
      then dispatch provider body
      else render_error 403

unfoldable pub list_reservations : M (Unit {0})
list_reservations = ignore (do or_render (λ x. 500) (ReservationDao.list 100 0); render)

-- The details that the response needs, once the reservation is found to have the type asked for.
unfoldable pub render_detail : ProviderType → ℕ → M (Unit {0})
render_detail unknown id = render
render_detail noop id = render
render_detail aws id = do
  or_render not_found_or_dao_error (ReservationDao.get_aws_by_id id)
  or_render not_found_or_dao_error (ReservationDao.list_instances id)
  render
render_detail azure id = do
  or_render not_found_or_dao_error (ReservationDao.get_azure_by_id id)
  or_render not_found_or_dao_error (ReservationDao.list_instances id)
  render
render_detail gcp id = do
  or_render not_found_or_dao_error (ReservationDao.get_gcp_by_id id)
  or_render not_found_or_dao_error (ReservationDao.list_instances id)
  render

abbrev matches_type : ProviderType → Reservation → Bool
matches_type unknown r = true
matches_type provider r = same_provider r.provider provider

-- `parsed_id` is what ParseInt64 makes of the parameter ID.
unfoldable pub get_reservation_detail : AccessList → String → Result ℕ → M (Unit {0})
unfolding render_detail provider_type_from_string
get_reservation_detail acl type_param parsed_id = ignore (do
  id ← or_render (λ x. 400) (lift parsed_id)
  let provider = provider_type_from_string type_param
  or_render (λ x. 403)
      (guard λ e. check_permission acl "read" ("reservation" ∷ provider_name provider ∷ []))
  reservation ← or_render not_found_or_dao_error (ReservationDao.get_by_id id)
  or_render (λ x. 400) (guard λ e. matches_type provider reservation)
  render_detail provider id)
