-- ===== src/Backends/Sources/Authentications.antt =====
-- Which authentication GetAuthentication returns, and what the user sees of an unknown source.
use provisioning_backend.Common.{
  ◌≡◌, ◌≢◌, ◌⊎◌, refl, sym, ap, ◌∙◌, String, true, false, inl, inr, some, List, [], ◌∷◌, ◌++◌, All,
  Any, str_eq, eq_iff, if_elim, arith,
}
use provisioning_backend.Errors.{authentication_for_sources_not_found}
use provisioning_backend.Models.{ProviderType, aws, azure, gcp, Authentication}
use provisioning_backend.Backends.Outcome.{
  Outcome, ok, err, panic, ◌>>=◌, deref, Response, check_status, >>=-ok, annotate-ok, deref-ok,
}
use provisioning_backend.Backends.Sources.{
  AuthenticationRead, Service, is_provisioning, new_authentication_from_source_auth_type,
  filter_source_authentications, filtered, get_authentication,
}

-- The kinds of authentication in Sources, and the provider of each.
abbrev pub Kind : String → ProviderType → Type 0
Kind auth_type provider =
    ((auth_type ≡ "provisioning-arn") × (provider ≡ aws))
    ⊎ ((auth_type ≡ "provisioning_lighthouse_subscription_id") × (provider ≡ azure))
    ⊎ ((auth_type ≡ "provisioning_project_id") × (provider ≡ gcp))

-- The authentication is not one that the program uses: its resource is no application, or its type is of no
-- provider. The fields that are read are there.
abbrev pub Passed : AuthenticationRead → Type 0
Passed auth =
    (resource : String) × (auth.resource_type ≡ some resource)
    × ((resource ≢ "Application")
        ⊎ ((t : String) × (auth.authtype ≡ some t) × (is_provisioning t ≡ false)))

filter_skips :
    (before after : List AuthenticationRead)
    → All Passed before
    → filter_source_authentications (before ++ after) ≡ filter_source_authentications after
unfolding filter_source_authentications
filter_skips [] after h = refl
filter_skips (auth ∷ before) after ((r, e, inl ne), h) =
    rw (e, ◌>>=◌)
      (if_elim (λ o. o ≡ filter_source_authentications after) (str_eq r "Application") _ _
        (λ t. absurd (ne ((eq_iff r "Application").0 t))) (λ _. filter_skips before after h))
filter_skips (auth ∷ before) after ((r, e, inr (t, e', f)), h) =
    rw (e, ◌>>=◌)
      (if_elim (λ o. o ≡ filter_source_authentications after) (str_eq r "Application") _ _
        (λ _. rw (e', ◌>>=◌) (rw f (filter_skips before after h)))
        (λ _. filter_skips before after h))

Kind-provisioning : (t : String) (p : ProviderType) → Kind t p → is_provisioning t ≡ true
Kind-provisioning t p (inl (e, q)) = rw e refl
Kind-provisioning t p (inr (inl (e, q))) = rw e refl
Kind-provisioning t p (inr (inr (e, q))) = rw e refl

Kind-new :
    (t : String) (p : ProviderType) (str id : String)
    → Kind t p
    → new_authentication_from_source_auth_type str t id
      ≡ ok (record { source_application_id = id; provider_type = p; payload = str })
unfolding new_authentication_from_source_auth_type
Kind-new t p str id (inl (e, q)) = rw (e, q) refl
Kind-new t p str id (inr (inl (e, q))) = rw (e, q) refl
Kind-new t p str id (inr (inr (e, q))) = rw (e, q) refl

new-Kind :
    (t str id : String) (a : Authentication)
    → new_authentication_from_source_auth_type str t id ≡ ok a
    → Kind t a.provider_type × (a.payload ≡ str) × (a.source_application_id ≡ id)
unfolding new_authentication_from_source_auth_type
new-Kind t str id a e = grind (
  arith,
  eq_iff t "provisioning-arn",
  eq_iff t "provisioning_lighthouse_subscription_id",
  eq_iff t "provisioning_project_id",
)

-- An authentication for an application, with all its fields.
abbrev pub full : String → String → String → AuthenticationRead
full authtype username id = record {
  resource_type = some "Application";
  authtype = some authtype;
  username = some username;
  resource_id = some id;
}

filter_first :
    (before after : List AuthenticationRead) (t u i : String) (p : ProviderType)
    → All Passed before
    → Kind t p
    → filter_source_authentications (before ++ full t u i ∷ after) ≡ ok (full t u i)
filter_first before after t u i p h k =
    filter_skips before (full t u i ∷ after) h
    ∙ unfold filter_source_authentications in (rw (Kind-provisioning t p k) refl)

-- Let Sources answer for the source with a list of authentications, of which one is for an application, of
-- a type that a provider has, and has all its fields, and let none before it be such. Then GetAuthentication
-- returns its user name as the payload, its resource as the application, and the provider of its type,
-- whatever stands behind it.
pub get_authentication-first :
    (service : Service) (source_id : String) (before after : List AuthenticationRead)
    (authtype username id : String) (provider : ProviderType)
    → service.list_source_authentications source_id
      ≡ ok (record { status = 200; json200 = some (before ++ full authtype username id ∷ after) })
    → All Passed before
    → Kind authtype provider
    → get_authentication service source_id
      ≡ ok (record { source_application_id = id; provider_type = provider; payload = username })
unfolding get_authentication
get_authentication-first service source_id before after authtype username id provider l h k =
    rw (l, filter_first before after authtype username id provider h k)
      (rw (Kind-new authtype provider username id k) refl)

filter_sound :
    (auths : List AuthenticationRead) (auth : AuthenticationRead)
    → filter_source_authentications auths ≡ ok auth
    → Any (λ x. x ≡ auth) auths × (auth.resource_type ≡ some "Application")
unfolding filter_source_authentications
filter_sound [] auth e = absurd (cc)
filter_sound (x ∷ rest) auth e =
    let (r, has, f) = >>=-ok (deref x.resource_type) _ auth e in
    let later : filter_source_authentications rest ≡ ok auth
        → Any (λ y. y ≡ auth) (x ∷ rest) × (auth.resource_type ≡ some "Application") =
      λ q. let (m, t) = filter_sound rest auth q in (inr m, t) in
    if_elim
      (λ o.
        o ≡ ok auth → Any (λ y. y ≡ auth) (x ∷ rest) × (auth.resource_type ≡ some "Application"))
      (str_eq r "Application") _ _
      (λ app q.
        let (a, has', g) = >>=-ok (deref x.authtype) _ auth q in
        if_elim
          (λ o.
            o ≡ ok auth
            → Any (λ y. y ≡ auth) (x ∷ rest) × (auth.resource_type ≡ some "Application"))
          (is_provisioning a) _ _
          (λ _ p.
            let same : x ≡ auth = cc in
            (
              inl same,
              ap (λ (y : AuthenticationRead). y.resource_type) (sym same)
                  ∙ deref-ok x.resource_type r has
                  ∙ ap some ((eq_iff r "Application").0 app),
            ))
          (λ _. later) g)
      (λ _. later) f

filtered-ok :
    (auths : List AuthenticationRead) (o : Outcome AuthenticationRead) (auth : AuthenticationRead)
    → filtered auths o ≡ ok auth
    → o ≡ ok auth
filtered-ok auths (ok a) auth e = e
filtered-ok auths (err x) auth e = let (u, p, q) = >>=-ok _ (λ _. err x) auth e in absurd (cc)
filtered-ok auths panic auth e = absurd (cc)

-- An authentication that GetAuthentication returns is of AWS, Azure or GCP. It is made of one that Sources
-- listed for the source, which is for an application and of the type that this provider has: the payload
-- is its user name, the application its resource.
pub get_authentication-Kind :
    (service : Service) (source_id : String) (a : Authentication)
    → get_authentication service source_id ≡ ok a
    → (resp : Response (List AuthenticationRead)) × (service.list_source_authentications source_id
        ≡ ok resp)
      × ((auths : List AuthenticationRead) × (resp.json200 ≡ some auths)
          × ((auth : AuthenticationRead) × Any (λ x. x ≡ auth) auths
              × (auth.resource_type ≡ some "Application")
              × ((t : String) × (auth.authtype ≡ some t) × Kind t a.provider_type)
              × (auth.username ≡ some a.payload)
              × (auth.resource_id ≡ some a.source_application_id)))
unfolding get_authentication
get_authentication-Kind service source_id a e =
    let (resp, r, e1) = >>=-ok _ _ a e in
    let (u, c, e2) =
      >>=-ok
        (check_status "get source authentication call" authentication_for_sources_not_found
          resp.status)
        _ a e1 in
    let (auths, j, e3) = >>=-ok (deref resp.json200) _ a e2 in
    let (auth, f, e4) = >>=-ok (filtered auths (filter_source_authentications auths)) _ a e3 in
    let (username, n, e5) = >>=-ok (deref auth.username) _ a e4 in
    let (t, ty, e6) = >>=-ok (deref auth.authtype) _ a e5 in
    let (id, i, e7) = >>=-ok (deref auth.resource_id) _ a e6 in
    let (m, app) = filter_sound auths auth (filtered-ok auths _ auth f) in
    let (k, p, q) =
      new-Kind t username id a
        (annotate-ok "cannot create source from source authentication type" _ a e7) in
    (
      resp,
      annotate-ok _ _ resp r,
      (
        auths,
        deref-ok _ auths j,
        (
          auth,
          m,
          app,
          (t, deref-ok _ t ty, k),
          deref-ok _ username n ∙ ap some (sym p),
          deref-ok _ id i ∙ ap some (sym q),
        ),
      ),
    )
