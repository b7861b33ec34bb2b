-- ===== src/Backends/Sources/Caching.antt =====
-- The application type id that a process keeps in memory.
use provisioning_backend.Common.{ℕ, ◌≡◌, refl, String, Option, none, some, List}
use provisioning_backend.Models.{ProviderType}
use provisioning_backend.Backends.Outcome.{Outcome, ok, err, panic, annotate, >>=-ok, annotate-ok}
use provisioning_backend.Backends.Sources.{
  AppType, Source, Service, stored, load_app_id, get_provisioning_type_id,
  list_provisioning_sources_by_provider,
}

-- A call that returns the id keeps it.
get_provisioning_type_id-kept :
    (service : Service) (kept : Option String) (id : String)
    → (get_provisioning_type_id service kept).0 ≡ ok id
    → (get_provisioning_type_id service kept).1 ≡ some id
unfolding get_provisioning_type_id
get_provisioning_type_id-kept service (some i) id e = cc
get_provisioning_type_id-kept service none id e = go (load_app_id service) e
  where
    go : (o : Outcome String) → (stored o).0 ≡ ok id → (stored o).1 ≡ some id
    go (ok i) h = cc
    go (err x) h = absurd (cc)
    go panic h = absurd (cc)

-- Once a list of sources was returned, the application types of Sources are not asked for again: whatever
-- Sources would answer to that, later lists, of any provider, are the same.
pub list_provisioning_sources_by_provider-again :
    (service : Service) (types : Outcome (ℕ × Outcome (List AppType))) (p q : ProviderType)
    (kept : Option String) (sources : List Source)
    → (list_provisioning_sources_by_provider service p kept).0 ≡ ok sources
    → let kept' = (list_provisioning_sources_by_provider service p kept).1 in
      list_provisioning_sources_by_provider
        (record service { list_application_types = types })
        q
        kept'
      ≡ list_provisioning_sources_by_provider service q kept'
unfolding list_provisioning_sources_by_provider
list_provisioning_sources_by_provider-again service types p q kept sources e =
    let (id, got, rest) =
      >>=-ok
        (annotate "failed to get provisioning app type" (get_provisioning_type_id service kept).0) _
        sources e in
    let k = get_provisioning_type_id-kept service kept id (annotate-ok _ _ id got) in
    rw (k, get_provisioning_type_id) refl
