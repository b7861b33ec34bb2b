-- ===== src/Services/Lookups.antt =====
-- The handlers that look something up in Sources or in a cloud: aws_iam_service.go, sources_status_service.go,
-- instance_types_service.go, launch_templates_service.go, availability_status_service.go, and ListSources of
-- sources_service.go (internal/services). Of a response its status is kept, and of permissions the body. The
-- clients are parameters; region and provider are blank where the request has none.
pub mod Permissions
use provisioning_backend.Common.{
  ℕ, String, Bool, true, false, Option, none, some, List, [], ◌∷◌, ◌++◌, str_eq, if◌then◌else◌, not,
}
use provisioning_backend.Errors.{Error, new_client_error}
use provisioning_backend.World.{Result, ok, err}
use provisioning_backend.Models.{
  Authentication, ProviderType, unknown, noop, aws, azure, gcp, same_provider,
  provider_type_from_string,
}
use provisioning_backend.Iam.{Iam, check_permission}
use provisioning_backend.Kafka.{GenericMessage}

pub data Reply : Type 0 where
  status : ℕ → Reply
  -- PermissionsResponse: whether the list is empty, and the list
  permissions : Bool → List String → Reply

abbrev pub is_empty : List String → Bool
is_empty [] = true
is_empty (x ∷ xs) = false

-- The clients, and whether the renderer of Chi fails: then writeBasicError or NewRenderError answers.
pub record Clients : Type 0 where
  pub sources_client : Option Error
  pub get_authentication : String → Result Authentication
  pub list_by_provider : ProviderType → Option Error
  pub list_all : Option Error
  pub ec2_client : Authentication → String → Option Error
  pub gcp_client : Authentication → Option Error
  pub azure_client : Authentication → Option Error
  pub iam : Authentication → Iam
  pub cloud_status : Authentication → Option Error
  pub list_instance_types : Authentication → Option Error
  pub list_launch_templates : Authentication → Option Error
  pub default_region : String
  pub render_fault : Option Error

module _ (clients : Clients) where
  -- renderError, with a status.
  unfoldable pub refuse : ℕ → Reply
  refuse n = elim clients.render_fault [ none ↦ status n | some x ↦ status 500 ]

  unfoldable pub rendered : Reply → Reply
  rendered reply = elim clients.render_fault [ none ↦ reply | some x ↦ status 500 ]

  -- `if err != nil { renderError(…); return }`
  abbrev pub unless : Option Error → (Error → ℕ) → Reply → Reply
  unless none f reply = reply
  unless (some x) f reply = refuse (f x)

  abbrev pub with_authentication : Result Authentication → (Authentication → Reply) → Reply
  with_authentication (ok auth) k = k auth
  with_authentication (err x) k = refuse (new_client_error x)

  -- The client of Sources and the authentication of a source: how most of these handlers start.
  abbrev pub authenticated : String → (Authentication → Reply) → Reply
  authenticated source_id k =
      unless clients.sources_client new_client_error
        (with_authentication (clients.get_authentication source_id) k)

  -- What follows CheckPermission in ValidatePermissions.
  unfoldable pub permissions_reply : List String × Option Error → Reply
  unfolding refuse rendered
  permissions_reply ([], some x) = refuse 500
  permissions_reply (missing, e) = rendered (permissions (is_empty missing) missing)

  -- ValidatePermissions, from the authentication on.
  unfoldable pub validate_authentication : String → Authentication → Reply
  unfolding permissions_reply
  validate_authentication region auth =
      let region' = if str_eq region "" then clients.default_region else region in
      if not (same_provider auth.provider_type aws)
      then rendered (permissions true [])
      else unless (clients.ec2_client auth region') (λ x. 500)
          (permissions_reply (check_permission (clients.iam auth) auth.payload))

  -- ValidatePermissions
  unfoldable pub validate_permissions : String → String → Reply
  unfolding validate_authentication
  validate_permissions source_id region = authenticated source_id (validate_authentication region)

  -- ListSources
  unfoldable pub list_sources : String → Reply
  unfolding refuse rendered
  list_sources provider =
      let as_provider_type = provider_type_from_string provider in
      unless clients.sources_client new_client_error (
        if not (same_provider as_provider_type unknown)
        then unless (clients.list_by_provider as_provider_type) new_client_error
            (rendered (status 200))
        else if str_eq provider ""
        then unless clients.list_all new_client_error (rendered (status 200))
        else refuse 400)

  -- The response for a missing region is written with no return after it.
  abbrev pub region_missing : String → List Reply
  region_missing region = if str_eq region "" then refuse 400 ∷ [] else []

  -- ListInstanceTypes
  unfoldable pub list_types : String → String → List Reply
  unfolding refuse rendered
  list_types source_id region =
      region_missing region
      ++ authenticated source_id (λ auth.
        unless (clients.ec2_client auth region) (λ x. 500)
          (unless (clients.list_instance_types auth) (λ x. 500) (rendered (status 200))))
        ∷ []

  -- ListLaunchTemplateAWS and ListLaunchTemplateGCP
  unfoldable pub list_launch_template_aws : String → String → List Reply
  unfolding refuse rendered
  list_launch_template_aws source_id region =
      region_missing region
      ++ authenticated source_id (λ auth.
        unless (clients.ec2_client auth region) (λ x. 500)
          (unless (clients.list_launch_templates auth) (λ x. 500) (rendered (status 200))))
        ∷ []

  unfoldable pub list_launch_template_gcp : String → Reply
  unfolding refuse rendered
  list_launch_template_gcp source_id = authenticated source_id (λ auth.
      unless (clients.gcp_client auth) (λ x. 500)
        (unless (clients.list_launch_templates auth) (λ x. 500) (rendered (status 200))))

  -- ListLaunchTemplates, by the provider of the source.
  unfoldable pub templates_of : String → String → ProviderType → List Reply
  unfolding refuse list_launch_template_aws list_launch_template_gcp
  templates_of source_id region aws = list_launch_template_aws source_id region
  templates_of source_id region gcp = list_launch_template_gcp source_id ∷ []
  templates_of source_id region _ = refuse 400 ∷ []

  abbrev pub refused_at :
      {A : Type 0} → (Reply → A) → Option Error → Result Authentication → (Authentication → A) → A
  refused_at one (some x) r k = one (refuse (new_client_error x))
  refused_at one none (err x) k = one (refuse (new_client_error x))
  refused_at one none (ok auth) k = k auth

  abbrev pub refused_or : {A : Type 0} → (Reply → A) → String → (Authentication → A) → A
  refused_or one source_id k =
      refused_at one clients.sources_client (clients.get_authentication source_id) k

  -- ListLaunchTemplates
  unfoldable pub list_templates : String → String → List Reply
  unfolding refuse templates_of
  list_templates source_id region =
      refused_or (λ reply. reply ∷ []) source_id
        (λ auth. templates_of source_id region auth.provider_type)

  -- The client that the switch of SourcesStatus makes, if it makes one: its error or nil. The cases of noop and
  -- unknown are empty in it and leave the client nil; Sources has no authentication of these for the program.
  abbrev pub status_client : ProviderType → Authentication → Option (Option Error)
  status_client aws auth = some (clients.ec2_client auth clients.default_region)
  status_client gcp auth = some (clients.gcp_client auth)
  status_client azure auth = some (clients.azure_client auth)
  status_client noop auth = none
  status_client unknown auth = none

  abbrev pub checked_status : Authentication → Option (Option Error) → Option Reply
  checked_status auth none = none
  checked_status auth (some made) =
      some (unless made (λ x. 500) (unless (clients.cloud_status auth) (λ x. 500) (status 200)))

  -- SourcesStatus; `none` is the panic of the call on a nil client.
  unfoldable pub sources_status : String → Option Reply
  unfolding refuse
  sources_status source_id =
      refused_or (λ reply. some reply) source_id
        (λ auth. checked_status auth (status_client auth.provider_type auth))

  -- AvailabilityStatus: the bound request with the id of a source, and the answer of
  -- EnqueueAvailabilityStatusRequest.
  unfoldable pub availability_status : Result String → (String → Option Error) → Reply
  unfolding refuse
  availability_status (err x) enqueue = refuse 400
  availability_status (ok source_id) enqueue = unless (enqueue source_id) (λ x. 500) (status 200)
