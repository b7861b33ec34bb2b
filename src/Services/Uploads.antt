-- ===== src/Services/Uploads.antt =====
-- The handlers GetSourceUploadInfo and GetAWSAccountIdentity of internal/services/sources_service.go, with the cache
-- (internal/cache/redis.go) in which they keep the account of a source of AWS and the tenant of one of Azure, both
-- texts, by the id of the source. Of a refusal the status is kept. Redis, gob and the clients are parameters.
use Prim.Native.String
use provisioning_backend.Common.{
  ℕ, String, Bool, not, Option, none, some, List, lookup, insert, if◌then◌else◌,
}
use provisioning_backend.Errors.{Error, wrapped, new_client_error}
use provisioning_backend.World.{Result, ok, err}
use provisioning_backend.World
use provisioning_backend.Models.{
  Authentication, ProviderType, unknown, noop, aws, azure, gcp, must_be,
}

pub record Redis : Type 0 where
  pub enabled : Bool
  pub get_fault : Option Error
  pub decodes : String → Bool
  pub encode_fault : Option Error
  pub set_fault : Option Error

abbrev pub Entries : Type 0
Entries = List (String × String)

-- What Find comes to: a hit, ErrNotFound, or another error.
pub data Found : Type 0 where
  hit : String → Found
  miss : Found
  failed : Error → Found

pub data Answer : Type 0 where
  status : ℕ → Answer
  -- account
  aws_info : String → Answer
  -- tenant, subscription, resource groups
  azure_info : String → String → List String → Answer
  gcp_info : Answer

pub record Clouds : Type 0 where
  pub sources_client : Option Error
  pub get_authentication : String → Result Authentication
  pub ec2_client : Authentication → Option Error
  pub get_account_id : Authentication → Result String
  pub azure_client : Authentication → Option Error
  pub tenant_id : Authentication → Result String
  pub list_resource_groups : Authentication → Result (List String)
  pub render_fault : Option Error

-- CacheKeyName of AccountDetailsAWS and AzureTenantId (internal/clients/source_upload_info.go)
abbrev pub account_key : String → String
account_key source_id = String.◌++◌ "account_detail_aws" source_id

abbrev pub tenant_key : String → String
tenant_key source_id = String.◌++◌ "azure_tenant_id" source_id

module _ (redis : Redis) where
  abbrev pub decoded : Option String → Found
  decoded none = miss
  decoded (some s) = if redis.decodes s then hit s else miss

  -- Find
  unfoldable pub find : String → Entries → Found
  unfolding lookup
  find k entries = if not redis.enabled then miss else elim redis.get_fault [
    | some x ↦ failed (wrapped "redis get error" x)
    | none ↦ decoded (lookup k entries)
  ]

  -- SetForever
  unfoldable pub set_forever : String → String → Entries → Option Error × Entries
  unfolding insert
  set_forever k s entries = if not redis.enabled then (none, entries) else elim redis.encode_fault [
    | some x ↦ (some (wrapped "unable to encode for Redis cache" x), entries)
    | none ↦ elim redis.set_fault [
      | some x ↦ (some (wrapped "redis set error" x), entries)
      | none ↦ (none, insert k s entries)
    ]
  ]

  abbrev pub after_set : String → Option Error × Entries → Result String × Entries
  after_set s (none, entries) = (ok s, entries)
  after_set s (some x, entries) = (err (wrapped "cache set error" x), entries)

  -- What is asked is kept, unless it failed.
  abbrev pub keep : String → Result String → Entries → Result String × Entries
  keep k (ok s) entries = after_set s (set_forever k s entries)
  keep k (err x) entries = (err x, entries)

  -- A text of the cache, or else what is asked.
  unfoldable pub cached_or : String → Result String → Entries → Result String × Entries
  unfolding find set_forever
  cached_or k asked entries = elim (find k entries) [
    | hit s ↦ (ok s, entries)
    | miss ↦ keep k asked entries
    | failed x ↦ (err (wrapped "cache find error" x), entries)
  ]

  module _ (clouds : Clouds) where
    abbrev account_of : Option Error → Authentication → Result String
    account_of none auth = World.mark "unable to get account id" (clouds.get_account_id auth)
    account_of (some x) auth = err (wrapped "unable to initialize AWS client" x)

    -- getAWSAccountDetails
    unfoldable pub get_aws_account_details :
        String → Authentication → Entries → Result String × Entries
    unfolding cached_or
    get_aws_account_details source_id auth =
        cached_or (account_key source_id) (account_of (clouds.ec2_client auth) auth)

    abbrev with_groups : Authentication → Result String → Result (List String) → Result Answer
    with_groups auth (ok tenant) (ok groups) = ok (azure_info tenant auth.payload groups)
    with_groups auth (ok tenant) (err x) = err (wrapped "unable to fetch Resource Group list" x)
    with_groups auth (err x) groups = err x

    -- getAzureAccountDetails
    unfoldable pub get_azure_account_details :
        String → Authentication → Entries → Result Answer × Entries
    unfolding cached_or
    get_azure_account_details source_id auth entries = elim (clouds.azure_client auth) [
      | some x ↦ (err (wrapped "unable to initialize Azure client" x), entries)
      | none ↦
          let (tenant, entries') =
            cached_or (tenant_key source_id)
              (World.mark "unable to fetch Tenant ID" (clouds.tenant_id auth)) entries in
          (with_groups auth tenant (clouds.list_resource_groups auth), entries')
    ]

    -- renderError, with a status, and render.Render.
    abbrev pub refuse : ℕ → Answer
    refuse n = elim clouds.render_fault [ none ↦ status n | some x ↦ status 500 ]

    abbrev pub rendered : Answer → Answer
    rendered answer = elim clouds.render_fault [ none ↦ answer | some x ↦ status 500 ]

    abbrev pub reply : (Error → ℕ) → Result Answer × Entries → Answer × Entries
    reply f (ok answer, entries) = (rendered answer, entries)
    reply f (err x, entries) = (refuse (f x), entries)

    abbrev pub of_account : Result String × Entries → Result Answer × Entries
    of_account (ok s, entries) = (ok (aws_info s), entries)
    of_account (err x, entries) = (err x, entries)

    abbrev pub authenticated :
        (Authentication → Entries → Answer × Entries)
        → Option Error
        → Result Authentication
        → Entries
        → Answer × Entries
    authenticated k (some x) auth entries = (refuse (new_client_error x), entries)
    authenticated k none (err x) entries = (refuse (new_client_error x), entries)
    authenticated k none (ok auth) entries = k auth entries

    -- The switch of GetSourceUploadInfo.
    unfoldable pub upload_info : String → Authentication → ProviderType → Entries → Answer × Entries
    unfolding get_aws_account_details get_azure_account_details
    upload_info source_id auth aws entries =
        reply (λ x. 500) (of_account (get_aws_account_details source_id auth entries))
    upload_info source_id auth azure entries =
        reply (λ x. 500) (get_azure_account_details source_id auth entries)
    upload_info source_id auth gcp entries = (rendered gcp_info, entries)
    upload_info source_id auth noop entries = (refuse 400, entries)
    upload_info source_id auth unknown entries = (refuse 400, entries)

    -- GetSourceUploadInfo
    unfoldable pub get_source_upload_info : String → Entries → Answer × Entries
    unfolding upload_info
    get_source_upload_info source_id =
        authenticated (λ auth. upload_info source_id auth auth.provider_type) clouds.sources_client
          (clouds.get_authentication source_id)

    abbrev identity_of : String → Option Error → Authentication → Entries → Answer × Entries
    identity_of source_id (some x) auth entries = (refuse (new_client_error x), entries)
    identity_of source_id none auth entries =
        reply new_client_error (of_account (get_aws_account_details source_id auth entries))

    -- GetAWSAccountIdentity
    unfoldable pub get_aws_account_identity : String → Entries → Answer × Entries
    unfolding get_aws_account_details must_be
    get_aws_account_identity source_id =
        authenticated (λ auth. identity_of source_id (must_be auth aws) auth) clouds.sources_client
          (clouds.get_authentication source_id)
