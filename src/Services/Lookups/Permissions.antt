-- ===== src/Services/Lookups/Permissions.antt =====
-- What ValidatePermissions tells of a role.
use provisioning_backend.Common.{
  String, ◌≡◌, ◌↔◌, refl, true, Option, none, some, List, [], ◌∷◌, arith, sym, ◌∙◌, str_eq,
  if◌then◌else◌,
}
use provisioning_backend.Errors.{Error}
use provisioning_backend.World.{Result, ok, err}
use provisioning_backend.Models.{Authentication, aws, same_provider}
use provisioning_backend.Iam.{
  Iam, check_permission, attached_statements, answer_of, check_inline_policies, missing_answer,
}
use provisioning_backend.Iam.Permissions.{Permitted, check_permission-none_iff}
use provisioning_backend.Services.Lookups.{
  Clients, refuse, rendered, permissions, permissions_reply, validate_permissions,
}

module _ (iam : Iam) where
  missing_answer-none :
      (missing : List String) (role_name : String)
      → (missing_answer iam missing role_name).1 ≡ none
      → (missing_answer iam missing role_name).0 ≡ []
  unfolding check_inline_policies
  missing_answer-none [] role_name h = refl
  missing_answer-none (p ∷ ps) role_name h = absurd (ground arith)

  check_permission-none-nil :
      (arn : String) → (check_permission iam arn).1 ≡ none → (check_permission iam arn).0 ≡ []
  unfolding check_permission answer_of
  check_permission-none-nil arn h = by_statements (attached_statements iam arn) h
    where
      by_statements :
          (r : Result (String × List String))
          → (answer_of iam r).1 ≡ none
          → (answer_of iam r).0 ≡ []
      by_statements (err x) e = refl
      by_statements (ok (role_name, statements)) e = missing_answer-none _ role_name e

permissions_reply-true :
    (clients : Clients) (missing : List String) (e : Option Error)
    → clients.render_fault ≡ none
    → (permissions_reply clients (missing, e) ≡ permissions true []) ↔ ((e ≡ none) × (missing ≡ []))
unfolding permissions_reply refuse rendered
permissions_reply-true clients [] none r = (λ h. (refl, refl), λ h. rw r refl)
permissions_reply-true clients [] (some x) r = (λ h. absurd (cc (rw r at h)), λ h. absurd (cc))
permissions_reply-true clients (m ∷ ms) e r = (λ h. absurd (cc (rw r at h)), λ h. absurd (cc))

validate_permissions-reply :
    (clients : Clients) (source_id region : String) (auth : Authentication)
    → clients.sources_client ≡ none
    → clients.get_authentication source_id ≡ ok auth
    → same_provider auth.provider_type aws ≡ true
    → ((r : String) → clients.ec2_client auth r ≡ none)
    → validate_permissions clients source_id region
      ≡ permissions_reply clients (check_permission (clients.iam auth) auth.payload)
unfolding validate_permissions
validate_permissions-reply clients source_id region auth s a p c =
    rw s (rw a (rw p (rw (c (if str_eq region "" then clients.default_region else region)) refl)))

-- For a source of AWS, when Sources and the client for AWS answer and the response is rendered, ValidatePermissions
-- answers that the permissions are valid exactly when every expected action is granted by a policy that is
-- attached to the role of the source.
pub validate_permissions-Permitted_iff :
    (clients : Clients) (source_id region : String) (auth : Authentication)
    → clients.sources_client ≡ none
    → clients.get_authentication source_id ≡ ok auth
    → same_provider auth.provider_type aws ≡ true
    → ((r : String) → clients.ec2_client auth r ≡ none)
    → clients.render_fault ≡ none
    → (validate_permissions clients source_id region ≡ permissions true [])
      ↔ Permitted (clients.iam auth) auth.payload
validate_permissions-Permitted_iff clients source_id region auth s a p c r =
    let reply = validate_permissions-reply clients source_id region auth s a p c in
    let answer = check_permission (clients.iam auth) auth.payload in
    let (f, g) = permissions_reply-true clients answer.0 answer.1 r in
    let (h, k) = check_permission-none_iff (clients.iam auth) auth.payload in
    (
      λ e. h ((f (sym reply ∙ e)).0),
      λ permitted.
          let no_error = k permitted in
          reply ∙ g (no_error, check_permission-none-nil (clients.iam auth) auth.payload no_error),
    )
