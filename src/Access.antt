-- ===== src/Access.antt =====
-- Permissions: internal/clients/access.go (parsing and matching), internal/clients/http/rbac/
-- rbac_client.go (fetching them page by page), internal/middleware/enforce_permissions.go and
-- internal/services/permissions.go (the checks before a handler and inside of it).
pub mod Matching
pub mod Pages
use provisioning_backend.Common.{
  ℕ, zero, suc, ◌+◌, String, Bool, true, false, ◌&&◌, ◌||◌, not, Option, none, some, List, [], ◌∷◌,
  ◌++◌, map, length, ltb, split, join, str_eq, if◌then◌else◌,
}
use provisioning_backend.Errors.{Error, named, wrapped, meta_not_present, handle_http_responses}

-- ResourceDefinitions of RBAC are ignored.
pub record Access : Type 0 where
  pub resource : String
  pub verb : String

abbrev pub AccessList : Type 0
AccessList = List Access

from_parts : List String → Access
from_parts (app ∷ res ∷ verb ∷ []) =
    if str_eq app "provisioning"
    then record { resource = res; verb = verb }
    else record { resource = ""; verb = "" }
from_parts _ = record { resource = ""; verb = "" }

-- NewAccess: three parts between colons, the first of them the name of the application.
unfoldable pub new_access : String → Access
unfolding from_parts
new_access access = from_parts (split access b':')

unfoldable pub match_wildcard : String → String → Bool
match_wildcard s1 s2 = str_eq s1 s2 || str_eq s1 "*"

unfoldable pub is_allowed : AccessList → String → String → Bool
unfolding match_wildcard
is_allowed [] res verb = false
is_allowed (a ∷ l) res verb =
    if match_wildcard a.resource res && match_wildcard a.verb verb
    then true
    else is_allowed l res verb

-- An answer of the RBAC service to a request for a page.
pub data Reply : Type 0 where
  transport_error : Error → Reply
  -- The HTTP status; resp.JSON200 is nil.
  no_json : ℕ → Reply
  -- The HTTP status, Meta.Count if it is there, and the permissions of the page.
  page : ℕ → Option ℕ → List String → Reply

-- What GetPrincipalAccess returns; `panicked` is the nil pointer that it dereferences.
pub data Fetched : Type 0 where
  fetched : AccessList → Fetched
  failed : Error → Fetched
  panicked : Fetched

abbrev pub fetch_limit : ℕ
fetch_limit = 500

abbrev get_failed : Error → Fetched
get_failed e = failed (wrapped "get principal access" e)

-- One round of the loop, with the rest of the loop as a function of the new result and `records`.
-- The trace line reads len(resp.JSON200.Data) before the test of resp.JSON200 for nil.
fetch_round : Reply → AccessList → (AccessList → ℕ → Fetched) → Fetched
fetch_round (transport_error e) result rest = get_failed e
fetch_round (no_json status) result rest = elim (handle_http_responses status) [
  | some e ↦ get_failed e
  | none ↦ panicked
]
fetch_round (page status count entries) result rest = elim (handle_http_responses status) [
  | some e ↦ get_failed e
  | none ↦ elim count [
    | none ↦ failed (named meta_not_present)
    | some records ↦ rest (result ++ map new_access entries) records
  ]
]

-- The loop of GetPrincipalAccess, `max_queries` rounds at most; `more` is the loop's test.
unfoldable pub fetch_pages : (ℕ → Reply) → ℕ → Bool → ℕ → AccessList → Fetched
unfolding fetch_round
fetch_pages fetch zero more offset result = fetched result
fetch_pages fetch (suc max_queries) more offset result = elim more [
  | false ↦ fetched result
  | true ↦ fetch_round (fetch offset) result λ result' records.
      fetch_pages fetch max_queries (ltb (length result') records) (offset + fetch_limit) result'
]

-- GetPrincipalAccess. `records` is math.MaxInt at first, so that the first round always runs.
unfoldable pub get_principal_access : (ℕ → Reply) → Fetched
unfolding fetch_pages
get_principal_access fetch = fetch_pages fetch 10 true 0 []

-- What the middleware EnforcePermissions does with a request.
pub data Enforced : Type 0 where
  next_handler : AccessList → Enforced
  client_error : Error → Enforced
  missing_permission : Enforced
  handler_panic : Enforced

unfoldable pub enforce_permissions : String → String → String → Fetched → Enforced
enforce_permissions resource permission org_id access =
    if str_eq org_id "" then handler_panic else elim access [
      | fetched acl ↦
          if not (is_allowed acl resource permission) then missing_permission else next_handler acl
      | failed e ↦ client_error (wrapped "unable to get ACL" e)
      | panicked ↦ handler_panic
    ]

remove_empty_strings : List String → List String
remove_empty_strings [] = []
remove_empty_strings (s ∷ l) =
    let rest = remove_empty_strings l in if str_eq s "" then rest else s ∷ rest

-- CheckPermissionAndRender: true if the permission is there; otherwise a 403 is rendered.
unfoldable pub check_permission : AccessList → String → List String → Bool
unfolding remove_empty_strings
check_permission acl permission resources =
    is_allowed acl (join (remove_empty_strings resources) ".") permission
