-- ===== src/Backends/Sources.antt =====
-- The client of Sources (internal/clients/http/sources/sources_client.go), the authentications that it
-- makes (internal/clients/authentication.go) and the application type id that is kept in memory
-- (FindAppTypeId and SetAppTypeId of internal/cache/redis.go).
pub mod Authentications
pub mod Caching
use Prim.Native.String
use provisioning_backend.Common.{
  ℕ, String, Bool, Option, none, some, List, [], ◌∷◌, map, join, str_eq, if◌then◌else◌,
}
use provisioning_backend.Errors.{
  Error, named, wrapped, not_even, application_read, application_type_not_found, source_not_found,
  authentication_for_sources_not_found, unknown_authentication_type,
}
use provisioning_backend.Models.{ProviderType, unknown, noop, aws, azure, gcp, Authentication}
use provisioning_backend.Backends.Outcome.{
  Outcome, ok, err, panic, ◌>>=◌, ◌>>◌, annotate, deref, Response, check_status,
}

-- AuthenticationRead of the generated client: each field is a pointer.
pub record AuthenticationRead : Type 0 where
  pub resource_type : Option String
  pub authtype : Option String
  pub username : Option String
  pub resource_id : Option String

pub record AppType : Type 0 where
  pub id : String
  pub name : String

-- Source of the generated client.
pub record SourceRead : Type 0 where
  pub id : Option String
  pub name : Option String
  pub source_type_id : Option String
  pub uid : Option String

-- clients.Source
pub record Source : Type 0 where
  pub id : String
  pub name : String
  pub source_type_id : String
  pub uid : String

-- What Sources answers. An error in place of a response is one of the transport.
pub record Service : Type 0 where
  pub list_source_authentications : String → Outcome (Response (List AuthenticationRead))
  -- The body is decoded by the program: a decoding error, or the application types.
  pub list_application_types : Outcome (ℕ × Outcome (List AppType))
  -- The application type and the query that is added.
  pub list_application_type_sources : String → String → Outcome (Response (List SourceRead))
  pub query_escape : String → String

-- NewAuthenticationFromSourceAuthType
unfoldable pub new_authentication_from_source_auth_type :
    String → String → String → Outcome Authentication
new_authentication_from_source_auth_type str auth_type app_id =
    if str_eq auth_type "provisioning-arn"
    then ok (record { source_application_id = app_id; provider_type = aws; payload = str })
    else if str_eq auth_type "provisioning_lighthouse_subscription_id"
    then ok (record { source_application_id = app_id; provider_type = azure; payload = str })
    else if str_eq auth_type "provisioning_project_id"
    then ok (record { source_application_id = app_id; provider_type = gcp; payload = str })
    else err (named unknown_authentication_type)

-- ProviderType.SourcesProviderName
abbrev pub sources_provider_name : ProviderType → String
sources_provider_name aws = "amazon"
sources_provider_name gcp = "google"
sources_provider_name azure = "azure"
sources_provider_name noop = ""
sources_provider_name unknown = ""

abbrev pub is_provisioning : String → Bool
is_provisioning auth_type =
    if str_eq auth_type "provisioning-arn"
    then Bool.true
    else if str_eq auth_type "provisioning_lighthouse_subscription_id"
    then Bool.true
    else str_eq auth_type "provisioning_project_id"

-- filterSourceAuthentications: a nil pointer that is read is a panic.
unfoldable pub filter_source_authentications : List AuthenticationRead → Outcome AuthenticationRead
filter_source_authentications [] = err (named application_read)
filter_source_authentications (auth ∷ rest) =
    let next = filter_source_authentications rest in
    deref auth.resource_type >>= λ t.
    if str_eq t "Application"
    then (deref auth.authtype >>= λ a. if is_provisioning a then ok auth else next)
    else next

-- The log that is written where no authentication fits reads the types of all of them.
abbrev read_types : List AuthenticationRead → Outcome (Unit {0})
read_types [] = ok tt
read_types (auth ∷ rest) = deref auth.authtype >>= λ a. read_types rest

abbrev pub filtered :
    List AuthenticationRead → Outcome AuthenticationRead → Outcome AuthenticationRead
filtered auths (ok auth) = ok auth
filtered auths (err x) = read_types auths >> err x
filtered auths panic = panic

find_app_type : List AppType → Outcome String
find_app_type [] = err (named application_type_not_found)
find_app_type (t ∷ types) =
    if str_eq t.name "/insights/platform/provisioning" then ok t.id else find_app_type types

abbrev pub stored : Outcome String → Outcome String × Option String
stored (ok id) = (ok id, some id)
stored (err x) = (err x, none)
stored panic = (panic, none)

-- ptr.From
abbrev from : Option String → String
from none = ""
from (some s) = s

abbrev new_source : SourceRead → Source
new_source src = record {
  id = from src.id;
  name = from src.name;
  source_type_id = from src.source_type_id;
  uid = from src.uid;
}

module _ (service : Service) where
  -- sourcesClient.GetAuthentication
  unfoldable pub get_authentication : String → Outcome Authentication
  unfolding check_status filter_source_authentications new_authentication_from_source_auth_type
  get_authentication source_id = do
    resp ←
        annotate "cannot list source authentication" (service.list_source_authentications source_id)
    check_status "get source authentication call" authentication_for_sources_not_found resp.status
    auths ← deref resp.json200
    auth ← filtered auths (filter_source_authentications auths)
    username ← deref auth.username
    authtype ← deref auth.authtype
    resource_id ← deref auth.resource_id
    annotate "cannot create source from source authentication type"
        (new_authentication_from_source_auth_type username authtype resource_id)

  -- sourcesClient.loadAppId
  unfoldable pub load_app_id : Outcome String
  unfolding check_status find_app_type
  load_app_id = do
    (status, body) ← annotate "failed to fetch ApplicationTypes" service.list_application_types
    check_status "load app ID call" application_type_not_found status
    types ← annotate "could not unmarshal application type response" body
    find_app_type types

  -- sourcesClient.GetProvisioningTypeId, on the id that the process holds in memory.
  unfoldable pub get_provisioning_type_id : Option String → Outcome String × Option String
  unfolding load_app_id
  get_provisioning_type_id (some id) = (ok id, some id)
  get_provisioning_type_id none = stored load_app_id

  -- The pairs that BuildQuery joins; `none` for an odd number of arguments.
  query_params : List String → Option (List String)
  query_params [] = some []
  query_params (k ∷ []) = none
  query_params (k ∷ v ∷ rest) = elim (query_params rest) [
    | none ↦ none
    | some params ↦
        some
          (String.◌++◌ (service.query_escape k) (String.◌++◌ "=" (service.query_escape v)) ∷ params)
  ]

  -- BuildQuery: the raw query of the request.
  unfoldable pub build_query : List String → Outcome String
  unfolding query_params
  build_query keys_and_values = elim (query_params keys_and_values) [
    | none ↦ err (named not_even)
    | some params ↦ ok (join params "&")
  ]

  -- The calls for the sources of an application type; the blank query adds none.
  list_sources : String → Outcome String → Outcome (List Source)
  unfolding check_status
  list_sources app_type_id query = do
    resp ←
        annotate "failed to get ApplicationTypes"
          (query >>= service.list_application_type_sources app_type_id)
    check_status "list provisioning sources call" source_not_found resp.status
    rows ← deref resp.json200
    ok (map new_source rows)

  abbrev with_app_type :
      Outcome String × Option String → Outcome String → Outcome (List Source) × Option String
  with_app_type (id, kept) query =
      ((annotate "failed to get provisioning app type" id >>= λ i. list_sources i query), kept)

  -- sourcesClient.ListProvisioningSourcesByProvider
  unfoldable pub list_provisioning_sources_by_provider :
      ProviderType → Option String → Outcome (List Source) × Option String
  unfolding list_sources get_provisioning_type_id build_query
  list_provisioning_sources_by_provider provider kept =
      with_app_type (get_provisioning_type_id kept)
        (build_query ("filter[source_type][name]" ∷ sources_provider_name provider ∷ []))

  -- sourcesClient.ListAllProvisioningSources
  unfoldable pub list_all_provisioning_sources :
      Option String → Outcome (List Source) × Option String
  unfolding list_sources get_provisioning_type_id
  list_all_provisioning_sources kept = with_app_type (get_provisioning_type_id kept) (ok "")
