-- ===== src/Examples/Clients.antt =====
-- Permissions and statuses of backend services.
use provisioning_backend.Common.{
  ℕ, ◌≤◌, ◌≡◌, refl, ◌↔◌, true, none, some, [], ◌∷◌, map, Any, take, drop, ◌==◌, if◌then◌else◌,
  arith, eq_iff,
}
use provisioning_backend.Errors.{Error, handle_http_responses, new_client_error}
use provisioning_backend.Errors.Status.{wrap_all, new_client_error-handle_http_responses}
use provisioning_backend.Access.{
  new_access, is_allowed, Reply, page, fetched, fetch_limit, get_principal_access,
}
use provisioning_backend.Access.Matching.{Grants, is_allowed-map-new_access}
use provisioning_backend.Access.Pages.{get_principal_access-eq_take}

is_allowed-map-new_access_example :
    (is_allowed
        (map new_access ("inventory:hosts:read" ∷ "provisioning:reservation.aws:*" ∷ []))
        "reservation.aws"
        "write"
      ≡ true)
    ↔ Any
        (Grants "reservation.aws" "write")
        ("inventory:hosts:read" ∷ "provisioning:reservation.aws:*" ∷ [])
is_allowed-map-new_access_example =
    is_allowed-map-new_access ("inventory:hosts:read" ∷ "provisioning:reservation.aws:*" ∷ [])
      "reservation.aws" "write" (λ e. ground (arith, eq_iff "reservation.aws" ""))

abbrev two_pages : ℕ → Reply
two_pages offset =
    page 200 (some 2)
      (take fetch_limit (drop offset ("provisioning:source:read" ∷ "provisioning:pubkey:*" ∷ [])))

get_principal_access-eq_take_example :
    get_principal_access two_pages
    ≡ fetched
        (map new_access (take 5000 ("provisioning:source:read" ∷ "provisioning:pubkey:*" ∷ [])))
get_principal_access-eq_take_example =
    get_principal_access-eq_take ("provisioning:source:read" ∷ "provisioning:pubkey:*" ∷ [])
      two_pages (λ offset. refl)

new_client_error-handle_http_responses_example :
    ((handle_http_responses 503 ≡ none) ↔ ((200 ≤ 503) × (503 ≤ 299)))
    × ((e : Error)
        → handle_http_responses 503 ≡ some e
        → new_client_error (wrap_all ("cannot get source" ∷ []) e) ≡ (
            if 503 == 404
            then 404
            else if 503 == 401
            then 401
            else if 503 == 403
            then 403
            else 500))
new_client_error-handle_http_responses_example =
    new_client_error-handle_http_responses 503 ("cannot get source" ∷ [])
