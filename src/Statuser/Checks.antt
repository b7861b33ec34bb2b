-- ===== src/Statuser/Checks.antt =====
-- From a message to a channel, and from a source to the result of its check.
use provisioning_backend.Common.{
  ℕ, suc, ◌≡◌, ◌⊎◌, ◌↔◌, refl, String, Bool, true, false, inl, inr, Option, none, some, List, [],
  ◌∷◌, ◌++◌, map, if_elim,
}
use provisioning_backend.Errors.{Error}
use provisioning_backend.World.{Result, ok}
use provisioning_backend.Models.{ProviderType, aws, azure, gcp, Authentication}
use provisioning_backend.Kafka.{GenericMessage, Principal, SourceResult, available}
use provisioning_backend.Iam.{Iam, check_permission}
use provisioning_backend.Iam.Permissions.{Permitted, check_permission-none_iff}
use provisioning_backend.Backends.Outcome.{Outcome}
use provisioning_backend.Backends.Sources.{Service, get_authentication}
use provisioning_backend.Backends.Sources.Authentications.{Kind, get_authentication-Kind}
use provisioning_backend.Statuser.{
  SourceInfo, Channels, dispatch, source_info, process_message, aws_result, permission_result,
  check_sources, check_source_availability_aws,
}

-- The source stands at the end of one channel, that of the provider; the others are as before.
abbrev pub Put : ProviderType → SourceInfo → Channels → Channels → Type 0
Put p s c c' =
    ((p ≡ aws) × (c' ≡ record c { aws_sources = c.aws_sources ++ s ∷ [] }))
    ⊎ ((p ≡ azure) × (c' ≡ record c { azure_sources = c.azure_sources ++ s ∷ [] }))
    ⊎ ((p ≡ gcp) × (c' ≡ record c { gcp_sources = c.gcp_sources ++ s ∷ [] }))

Kind-Put :
    (t : String) (p : ProviderType) (s : SourceInfo) (c : Channels)
    → Kind t p
    → Put p s c (dispatch p s c)
unfolding dispatch
Kind-Put t p s c (inl (e, q)) = inl (q, rw q refl)
Kind-Put t p s c (inr (inl (e, q))) = inr (inl (q, rw q refl))
Kind-Put t p s c (inr (inr (e, q))) = inr (inr (q, rw q refl))

-- Let the message hold the id of a source, and let Sources be reached and have an authentication for it that
-- the program uses. Then processMessage puts the source, with that authentication and the application of it,
-- on exactly the channel of the provider of the authentication, and on no other.
pub process_message-Put :
    (unmarshal : String → Result String) (service : Service) (id : Principal)
    (message : GenericMessage) (c : Channels) (source_id : String) (a : Authentication)
    → unmarshal message.value ≡ ok source_id
    → get_authentication service source_id ≡ Outcome.ok a
    → (c' : Channels) × (process_message unmarshal none service id message c ≡ Outcome.ok c')
      × Put a.provider_type (source_info id a) c c'
unfolding process_message
process_message-Put unmarshal service id message c source_id a u g =
    let (resp, l, (auths, j, (auth, m, app, (t, ty, k), n, i))) =
      get_authentication-Kind service source_id a g in
    (
      dispatch a.provider_type (source_info id a) c,
      rw (u, process_message, g) refl,
      Kind-Put t a.provider_type (source_info id a) c k,
    )

module _ (ec2_client : Authentication → Option Error) (iam : Authentication → Iam) where
  -- The result is for the application of the source, and it is "available" exactly when the client was made
  -- and the role of the source has all the permissions.
  abbrev pub Tells : SourceInfo → SourceResult → Type 0
  Tells s r =
      (r.resource_id ≡ s.source_application_id)
      × ((r.status ≡ available) ↔ (
          (ec2_client s.authentication ≡ none)
          × Permitted (iam s.authentication) s.authentication.payload))

  permission_result-available :
      (s : SourceInfo) (o : Option Error) (answer : List String × Option Error)
      → ((permission_result s o answer).status ≡ available) ↔ ((o ≡ none) × (answer.1 ≡ none))
  permission_result-available s (some x) answer = (λ e. absurd (cc), λ (e, f). absurd (cc))
  permission_result-available s none (permissions, none) = (λ e. (refl, refl), λ (e, f). refl)
  permission_result-available s none (permissions, some x) =
      (λ e. absurd (cc), λ (e, f). absurd (cc))

  permission_result-id :
      (s : SourceInfo) (o : Option Error) (answer : List String × Option Error)
      → (permission_result s o answer).resource_id ≡ s.source_application_id
  permission_result-id s (some x) answer = refl
  permission_result-id s none (permissions, none) = refl
  permission_result-id s none (permissions, some x) = refl

  aws_result-Tells : (s : SourceInfo) → Tells s (aws_result ec2_client iam s)
  unfolding aws_result
  aws_result-Tells s =
      let o = ec2_client s.authentication in
      let answer = check_permission (iam s.authentication) s.authentication.payload in
      let (to, from) = permission_result-available s o answer in
      let (may, can) = check_permission-none_iff (iam s.authentication) s.authentication.payload in
      (
        permission_result-id s o answer,
        (λ e. let (f, g) = to e in (f, may g), λ (f, p). from (f, can p)),
      )

-- The results of the sources that come from round `i` on, in their order: none for a source whose round is
-- skipped, and otherwise one, which is the last one where the context is seen to be cancelled after it.
pub data Checked (skip cancelled : ℕ → Bool) (R : SourceInfo → SourceResult → Type 0)
    : ℕ → List SourceInfo → List SourceResult → Type 0 where
  stop : (i : ℕ) → Checked skip cancelled R i [] []
  pass :
      {i : ℕ} (s : SourceInfo) {sources : List SourceInfo} {results : List SourceResult}
      → skip i ≡ true
      → Checked skip cancelled R (suc i) sources results
      → Checked skip cancelled R i (s ∷ sources) results
  last :
      {i : ℕ} {s : SourceInfo} {r : SourceResult} (sources : List SourceInfo)
      → skip i ≡ false
      → cancelled i ≡ true
      → R s r
      → Checked skip cancelled R i (s ∷ sources) (r ∷ [])
  check :
      {i : ℕ} {s : SourceInfo} {r : SourceResult} {sources : List SourceInfo}
      {results : List SourceResult}
      → skip i ≡ false
      → cancelled i ≡ false
      → R s r
      → Checked skip cancelled R (suc i) sources results
      → Checked skip cancelled R i (s ∷ sources) (r ∷ results)

check_sources-Checked :
    (skip cancelled : ℕ → Bool) (result : SourceInfo → SourceResult)
    (R : SourceInfo → SourceResult → Type 0)
    → ((s : SourceInfo) → R s (result s))
    → (i : ℕ) (sources : List SourceInfo)
    → Checked skip cancelled R i sources (check_sources skip cancelled result i sources)
unfolding check_sources
check_sources-Checked skip cancelled result R right i [] = stop i
check_sources-Checked skip cancelled result R right i (s ∷ sources) =
    let rest = check_sources-Checked skip cancelled result R right (suc i) sources in
    if_elim (Checked skip cancelled R i (s ∷ sources)) (skip i) _ _ (λ p. pass s p rest)
      (λ taken.
        if_elim (Checked skip cancelled R i (s ∷ sources)) (cancelled i) _ _
          (λ ended. last sources taken ended (right s)) (λ on. check taken on (right s) rest))

check_sources-map :
    (skip cancelled : ℕ → Bool) (result : SourceInfo → SourceResult)
    → ((i : ℕ) → skip i ≡ false)
    → ((i : ℕ) → cancelled i ≡ false)
    → (i : ℕ) (sources : List SourceInfo)
    → check_sources skip cancelled result i sources ≡ map result sources
unfolding check_sources
check_sources-map skip cancelled result h k i [] = refl
check_sources-map skip cancelled result h k i (s ∷ sources) =
    rw (h i, k i, check_sources-map skip cancelled result h k (suc i) sources) refl

-- For each source on the AWS channel whose round is not skipped for the rate, up to the first one after which the
-- context is seen to be cancelled, the check sends one result, in their order, and for no other: it is for the
-- application of the source, and says "available" exactly when the client for AWS was made and every expected action
-- is granted by the policies that are attached to the role of the source, inline policies left out.
pub check_source_availability_aws-Checked :
    (skip cancelled : ℕ → Bool) (ec2_client : Authentication → Option Error)
    (iam : Authentication → Iam) (sources : List SourceInfo)
    → Checked skip cancelled
        (Tells ec2_client iam)
        0
        sources
        (check_source_availability_aws skip cancelled ec2_client iam sources)
unfolding check_source_availability_aws
check_source_availability_aws-Checked skip cancelled ec2_client iam sources =
    check_sources-Checked skip cancelled (aws_result ec2_client iam) (Tells ec2_client iam)
      (aws_result-Tells ec2_client iam) 0 sources

-- If no source is skipped and the context is not cancelled, every source on the AWS channel gets its result.
pub check_source_availability_aws-map :
    (skip cancelled : ℕ → Bool) (ec2_client : Authentication → Option Error)
    (iam : Authentication → Iam)
    → ((i : ℕ) → skip i ≡ false)
    → ((i : ℕ) → cancelled i ≡ false)
    → (sources : List SourceInfo)
    → check_source_availability_aws skip cancelled ec2_client iam sources
      ≡ map (aws_result ec2_client iam) sources
unfolding check_source_availability_aws
check_source_availability_aws-map skip cancelled ec2_client iam h k =
    check_sources-map skip cancelled (aws_result ec2_client iam) h k 0
