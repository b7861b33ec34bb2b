-- ===== src/Errors.antt =====
-- Go errors: the error values that the program declares (internal/clients/errors.go,
-- internal/clients/http/*_errors.go, internal/dao/dao_errors.go and the `var` blocks of packages
-- jobs, services and middleware), chains made by fmt.Errorf with %w, errors.Is, the mapping of HTTP
-- statuses of backend services to errors (internal/clients/http/common_http_errors.go) and the
-- mapping of errors to the status that a user sees (internal/payloads/error_payload.go).
pub mod Positions
pub mod Status
use mathlib.Core.Bool.{decide}
use provisioning_backend.Common.{
  ℕ, String, Bool, false, ◌&&◌, not, Option, none, some, List, [], ◌∷◌, any, leb, ◌==◌, str_eq,
  if◌then◌else◌,
}

-- The declared error values that the code compares with or looks up.
pub data Sentinel : Type 0 where
  http_client bad_request not_found unauthorized forbidden non_2xx : Sentinel
  unknown_authentication_type unknown_provider missing_provisioning_sources : Sentinel
  clone_not_found compose_not_found image_status unknown_image_type upload_status : Sentinel
  image_request_not_found application_type_not_found source_not_found : Sentinel
  authentication_for_sources_not_found application_read not_even : Sentinel
  meta_not_present arn_parsing pubkey_not_found duplicate_pubkey : Sentinel
  service_account_unsupported_operation no_reservation operation_failed : Sentinel
  no_rows affected_mismatch : Sentinel
  type_assertion try_again noop_failure deadline_exceeded : Sentinel
  permissions_missing : Sentinel

pub Sentinel-discrete : Discrete Sentinel
Sentinel-discrete = hlevel

unfoldable pub same : Sentinel → Sentinel → Bool
unfolding Sentinel-discrete
same s t = decide (Sentinel-discrete s t)

pub data Error : Type 0 where
  named : Sentinel → Error
  -- fmt.Errorf("message: %w", err)
  wrapped : String → Error → Error
  -- An error of PostgreSQL, with its code.
  postgres : String → Error
  -- Any other error of a library or of a service.
  opaque : String → Error

-- The declared error that a declared error wraps: those of package http that read
-- fmt.Errorf("…: %w", clients.NotFoundErr), and so on.
unfoldable pub parents : Sentinel → List Sentinel
parents bad_request = http_client ∷ []
parents not_found = http_client ∷ []
parents unauthorized = http_client ∷ []
parents forbidden = http_client ∷ []
parents non_2xx = http_client ∷ []
parents meta_not_present = http_client ∷ []
parents clone_not_found = not_found ∷ http_client ∷ []
parents compose_not_found = not_found ∷ http_client ∷ []
parents upload_status = not_found ∷ http_client ∷ []
parents application_type_not_found = not_found ∷ http_client ∷ []
parents source_not_found = not_found ∷ http_client ∷ []
parents authentication_for_sources_not_found = not_found ∷ http_client ∷ []
parents application_read = not_found ∷ http_client ∷ []
parents _ = []

-- The declared errors of a chain, in the order of errors.Unwrap.
unfoldable pub chain : Error → List Sentinel
unfolding parents
chain (named s) = s ∷ parents s
chain (wrapped m e) = chain e
chain (postgres code) = []
chain (opaque m) = []

-- errors.Is(err, target)
unfoldable pub is : Error → Sentinel → Bool
unfolding chain same
is e target = any (λ s. same s target) (chain e)

-- db.IsPostgresError(err, code) != nil
unfoldable pub is_postgres_error : Error → String → Bool
is_postgres_error (named s) code = false
is_postgres_error (wrapped m e) code = is_postgres_error e code
is_postgres_error (postgres c) code = str_eq c code
is_postgres_error (opaque m) code = false

-- errStatus: the status that a user sees for a declared error of a client.
unfoldable pub err_status : Sentinel → Option ℕ
err_status http_client = some 500
err_status bad_request = some 400
err_status not_found = some 404
err_status unauthorized = some 401
err_status forbidden = some 403
err_status non_2xx = some 500
err_status clone_not_found = some 404
err_status compose_not_found = some 404
err_status image_status = some 400
err_status unknown_image_type = some 400
err_status upload_status = some 400
err_status image_request_not_found = some 404
err_status unknown_authentication_type = some 500
err_status unknown_provider = some 500
err_status missing_provisioning_sources = some 500
err_status not_even = some 500
err_status _ = none

-- The walk of findUserPayload along errors.Unwrap.
unfoldable pub find_in_chain : List Sentinel → Option ℕ
unfolding err_status
find_in_chain [] = none
find_in_chain (s ∷ l) = elim (err_status s) [ none ↦ find_in_chain l | some code ↦ some code ]

unfoldable pub find_user_payload : Error → Option ℕ
unfolding find_in_chain chain
find_user_payload e = find_in_chain (chain e)

-- The status of NewClientError.
unfoldable pub new_client_error : Error → ℕ
unfolding find_user_payload
new_client_error e = elim (find_user_payload e) [ none ↦ 500 | some code ↦ code ]

unfoldable pub is_http_status_2xx : ℕ → Bool
is_http_status_2xx status = leb 200 status && leb status 299

-- HandleHTTPResponses: nil is `none`.
unfoldable pub handle_http_responses : ℕ → Option Error
unfolding is_http_status_2xx
handle_http_responses status =
    if status == 404
    then some (named not_found)
    else if status == 401
    then some (named unauthorized)
    else if status == 403
    then some (named forbidden)
    else if not (is_http_status_2xx status)
    then some (named non_2xx)
    else none
