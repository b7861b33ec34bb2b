-- ===== src/Examples/Google.antt =====
-- Two machines in Google Cloud, listed on two pages.
use provisioning_backend.Common.{
  ℕ, String, true, ◌≡◌, refl, none, List, [], ◌∷◌, ◌++◌, map, concat, format_int,
}
use provisioning_backend.Models.{gcp, Authentication}
use provisioning_backend.Backends.Outcome.{ok}
use provisioning_backend.Clouds.Actions.{◌>>=◌, annotate, lift, send, pure}
use provisioning_backend.Clouds.Gcp.{
  Params, Request, BulkInsert, bulk_insert, wait, next_instances, Operation, Sdk, Config,
  body_with_username, label_filter, insert_instances,
}
use provisioning_backend.Clouds.Gcp.Service.{get_zone}
use provisioning_backend.Clouds.Gcp.Insertion.{IsFor, insert_instances-ids}

abbrev google : Sdk
google = record {
  new_client = λ kind. none;
  regions = [];
  templates = [];
  inserted = λ log. ok "op-1";
  waited = λ log. ok (record { name = "op-1"; done = true });
  instances = λ filter. ok (101 ∷ []) ∷ ok [] ∷ ok (2048 ∷ []) ∷ [];
  got = λ log. ok (record { id = 101; interfaces = [] });
  machine_types = λ zone. [];
  mb_to_mib = λ mb. mb;
}

abbrev config : Config
config = record { project_id = "service"; default_zone = "us-east4"; environment = "prod" }

abbrev project : Authentication
project = record { source_application_id = "1"; provider_type = gcp; payload = "customer" }

abbrev params : Params
params = record {
  name_pattern = "inst-#####";
  image_name = "image";
  machine_type = "e2-medium";
  reservation_id = 42;
  uuid = "7";
  launch_template_id = "";
  zone = "";
  key_body = "ssh-ed25519 AAAA me";
  startup_script = "";
}

abbrev requests : List Request
requests = (insert_instances google config project params 2 []).1

insert_instances-requests :
    insert_instances google config project params 2 []
    ≡ (ok ("101" ∷ "2048" ∷ [], "op-1"), requests)
unfolding insert_instances ◌>>=◌ annotate lift send pure
insert_instances-requests = refl

get_zone-us : get_zone "projects/p/zones/us-east4-a" ≡ "us-east4-a"
unfolding get_zone
get_zone-us = refl

insert_instances-ids_example :
    (pk_body started : String) × (b : BulkInsert) × (op : Operation) × (pages : List (List ℕ))
    × IsFor google config project params 2 pk_body b
    × (body_with_username params.key_body ≡ ok pk_body)
    × (google.inserted [] ≡ ok started)
    × (op.done ≡ true)
    × ("op-1" ≡ op.name)
    × (google.instances (label_filter google config params.uuid) ≡ map ok pages)
    × ("101" ∷ "2048" ∷ [] ≡ concat (map (map format_int) pages))
    × (requests
        ≡ []
          ++ bulk_insert b
            ∷ wait started
            ∷ map
                (λ _. next_instances project.payload (label_filter google config params.uuid))
                pages)
insert_instances-ids_example =
    insert_instances-ids google config project params 2 ("101" ∷ "2048" ∷ []) "op-1" [] requests
      insert_instances-requests
