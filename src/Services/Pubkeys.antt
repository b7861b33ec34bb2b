-- ===== src/Services/Pubkeys.antt =====
-- CreatePubkey, ListPubkeys, GetPubkey and DeletePubkey of internal/services/pubkey_service.go.
use provisioning_backend.Common.{ℕ, ◌||◌, List, [], ◌∷◌, if◌then◌else◌, str_eq}
use provisioning_backend.Errors.{Error, is_postgres_error, new_client_error}
use provisioning_backend.Models.{Pubkey, PubkeyResource, aws, same_provider, Authentication}
use provisioning_backend.World.{
  Result, ok, err, M, pure, lift, call, check, attempt, ignore, ◌>>=◌, ◌>>◌,
}
use provisioning_backend.Dao.Pubkeys as PubkeyDao
use provisioning_backend.Services.Render.{
  or_render, render, render_error, write, not_found_or_dao_error,
}
use provisioning_backend.Services.Requests.{PubkeyRequest}

-- PubkeyRequest.NewModel; the account is set by the data access object.
unfoldable pub new_model : PubkeyRequest → Pubkey
new_model p = record {
  id = 0;
  account_id = 0;
  name = p.name;
  body = p.body;
  type = "";
  fingerprint = "";
  fingerprint_legacy = "";
}

-- db.UniqueConstraintErrorCode is 23505.
abbrev create_status : Error → ℕ
create_status x = if is_postgres_error x "23505" then 422 else 500

-- The response for a missing name or body is written with no return after it.
unfoldable pub create_pubkey : (Pubkey → Result Pubkey) → Result PubkeyRequest → M (Unit {0})
unfolding new_model
create_pubkey validate bound = ignore (do
  payload ← or_render (λ x. 400) (lift bound)
  if str_eq payload.name "" || str_eq payload.body "" then render_error 400 else pure tt
  or_render create_status (PubkeyDao.create validate (new_model payload))
  render)

unfoldable pub list_pubkeys : M (Unit {0})
list_pubkeys = ignore (do or_render (λ x. 500) (PubkeyDao.list 100 0); render)

unfoldable pub get_pubkey : Result ℕ → M (Unit {0})
get_pubkey parsed_id = ignore (do
  id ← or_render (λ x. 400) (lift parsed_id)
  or_render not_found_or_dao_error (PubkeyDao.get_by_id id)
  render)

-- A source whose authentication cannot be had is skipped.
unfoldable pub delete_from_aws : PubkeyResource → Result Authentication → M (Unit {0})
delete_from_aws res (err x) = pure tt
delete_from_aws res (ok auth) = do
  or_render (λ x. 500) (check λ e n. e.cloud_client n auth res.region)
  or_render (λ x. 500) (check λ e n. e.delete_ssh_key n res.handle)

-- One round of the loop over the resources.
unfoldable pub delete_resource : PubkeyResource → M (Unit {0})
unfolding delete_from_aws
delete_resource res =
    if same_provider res.provider aws
    then (if str_eq res.handle "" then pure tt else (do
      auth ← attempt (call λ e n. e.get_authentication n res.source_id)
      delete_from_aws res auth))
    else render_error 400

unfoldable pub delete_resources : List PubkeyResource → M (Unit {0})
unfolding delete_resource
delete_resources [] = pure tt
delete_resources (res ∷ rest) = do delete_resource res; delete_resources rest

unfoldable pub delete_pubkey : Result ℕ → M (Unit {0})
unfolding delete_resources
delete_pubkey parsed_id = ignore (do
  or_render new_client_error (check λ e n. e.sources_client n)
  id ← or_render (λ x. 400) (lift parsed_id)
  pubkey ← or_render not_found_or_dao_error (PubkeyDao.get_by_id id)
  resources ←
      or_render not_found_or_dao_error (PubkeyDao.unscoped_list_resources_by_pubkey_id pubkey.id)
  delete_resources resources
  or_render not_found_or_dao_error (PubkeyDao.delete_pubkey id)
  write 204)
