-- ===== src/Services/Azure.antt =====
-- CreateAzureReservation of internal/services/azure_reservation_service.go.
use Prim.Native.String
use provisioning_backend.Common.{String, none, [], ◌∷◌, if◌then◌else◌, str_eq, has_prefix, ℕ}
use provisioning_backend.Errors.{new_client_error}
use provisioning_backend.Models.{
  azure, AzureDetail, Details, Authentication, must_be, Job, azure_args,
}
use provisioning_backend.World.{
  Result, M, pure, lift, gets, call, check, ignore, of_nil, ◌>>=◌, ◌>>◌,
}
use provisioning_backend.Dao.Reservations
use provisioning_backend.Dao.Pubkeys
use provisioning_backend.Services.Render.{
  or_render, guard, render, enqueue, supported_type, not_found_or_dao_error,
}
use provisioning_backend.Services.Requests.{AzureRequest}

abbrev location_or_default : String → String
location_or_default location = if str_eq location "" then "eastus_1" else location

-- The clients of Sources and Image Builder, and the authentication of the source.
unfoldable pub azure_authentication : String → M Authentication
azure_authentication source_id = do
  or_render new_client_error (check λ e n. e.sources_client n)
  or_render new_client_error (check λ e n. e.image_client n)
  auth ← or_render new_client_error (call λ e n. e.get_authentication n source_id)
  or_render new_client_error (lift (of_nil (must_be auth azure)))
  pure auth

abbrev in_subscription : String → String → String
in_subscription subscription path = String.◌++◌ "/subscriptions/" (String.◌++◌ subscription path)

abbrev deployed_image : String → String
deployed_image image_id =
    String.◌++◌ "/resourceGroups/redhat-deployed/providers/Microsoft.Compute/images/" image_id

-- An image of Image Builder if the id is a UUID, one of the resource group by its name, or as given.
unfoldable pub azure_image : Authentication → String → M String
azure_image auth image_id = do
  composed ← gets λ e w. e.is_uuid image_id
  if composed
      then (do
        name ← or_render new_client_error (call λ e n. e.get_image n azure image_id)
        pure (in_subscription auth.payload name))
      else pure (
          if has_prefix image_id "composer-api"
          then in_subscription auth.payload (deployed_image image_id)
          else image_id)

unfoldable pub azure_details_of : AzureRequest → String → Details AzureDetail
azure_details_of payload prefix = record {
  reservation_id = 0;
  pubkey_id = payload.pubkey_id;
  source_id = payload.source_id;
  image_id = payload.image_id;
  cloud_id = none;
  detail = record {
    location = location_or_default payload.location;
    name = String.◌++◌ prefix payload.name;
    instance_size = payload.instance_size;
    amount = payload.amount;
    power_off = payload.power_off;
  };
}

abbrev azure_job : ℕ → ℕ → ℕ → Details AzureDetail → String → Authentication → Job
azure_job account_id reservation_id pubkey_id d image auth = record {
  account_id = account_id;
  args = azure_args (record {
    reservation_id = reservation_id;
    location = d.detail.location;
    pubkey_id = pubkey_id;
    source_id = d.source_id;
    azure_image_id = image;
    subscription = auth;
  });
}

-- `bound` is what render.Bind makes of the request's body.
unfoldable pub create_azure_reservation : Result AzureRequest → M (Unit {0})
unfolding azure_authentication azure_image azure_details_of
create_azure_reservation bound = ignore (do
  payload ← or_render (λ x. 400) (lift bound)
  or_render (λ x. 400) (guard λ e. e.valid_region azure (location_or_default payload.location))
  pk ← or_render not_found_or_dao_error (Pubkeys.get_by_id payload.pubkey_id)
  auth ← azure_authentication payload.source_id
  image ← azure_image auth payload.image_id
  or_render (λ x. 400) (guard (supported_type azure payload.instance_size))
  prefix ← gets λ e w. e.instance_prefix
  account_id ← gets λ e w. e.account_id
  let details = azure_details_of payload prefix
  row ←
      or_render (λ x. 500)
        (Reservations.create_azure
          (record { steps = 2; step_titles = "Prepare resource group" ∷ "Launch instance(s)" ∷ [] })
          details)
  or_render (λ x. 500) (enqueue (azure_job account_id row.id pk.id details image auth))
  render)
