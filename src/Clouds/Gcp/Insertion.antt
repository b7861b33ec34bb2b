-- ===== src/Clouds/Gcp/Insertion.antt =====
-- What InsertInstances asks of Google Cloud when it succeeds (internal/clients/http/gcp/gcp_client.go).
use Prim.Native.String
use mathlib.Core.List.{append_assoc, append-nil}
use provisioning_backend.Common.{
  ℕ, Any, inl, inr, String, Bool, true, false, not, ◌≡◌, refl, sym, ap, ◌∙◌, List, [], ◌∷◌, ◌++◌,
  map, concat, format_int, if◌then◌else◌,
}
use provisioning_backend.Errors.{named, wrapped, operation_failed}
use provisioning_backend.Models.{Authentication}
use provisioning_backend.Backends.Outcome.{Outcome, ok, err}
use provisioning_backend.Clouds.Actions.{
  Action, Run, lift, annotate, send, ◌>>◌, pure-Run, lift-Run, send-Run, annotate-Run, >>=-Run,
}
use provisioning_backend.Clouds.Gcp.{
  Params, Request, BulkInsert, bulk_insert, wait, next_instances, Operation, Sdk, Config, of_nil,
  body_with_username, iterate, new_instances_client, label_filter, list_instances_ids_by_label,
  bulk_insert_request, finished, insert_instances,
}

iterate-Run :
    {A B : Type 0} (message : String) (next : Request) (read : A → List B)
    (answers : List (Outcome A)) (res l : List B) (log log' : List Request)
    → Run (iterate message next (λ a. ok (read a)) answers res) log l log'
    → (pages : List A) × (answers ≡ map ok pages)
      × (l ≡ res ++ concat (map read pages))
      × (log' ≡ log ++ map (λ _. next) pages)
unfolding iterate
iterate-Run message next read [] res l log log' h =
    let (same, end) = pure-Run res l log log' h in
    ([], refl, sym same ∙ sym (append-nil res), sym end ∙ sym (append-nil log))
iterate-Run {A} message next read (answer ∷ answers) res l log log' h =
    let (a, l1, asked, rest) = >>=-Run _ _ l log log' h in
    let (answered, e1) =
      send-Run (λ _ _. answer) next a log l1
        (annotate-Run message (send (λ _ _. answer) next) a log l1 asked) in
    let (b, l2, given, more) = >>=-Run _ _ l l1 log' rest in
    let (taken, e2) = lift-Run (ok (read a)) b l1 l2 given in
    let (pages, are_ok, all, e3) =
      iterate-Run message next read answers (res ++ b) l l2 log' more in
    let same : b ≡ read a = cc in
    let later = concat (map read pages) in
    (
      a ∷ pages,
      cc,
      all ∙ append_assoc res b later ∙ ap (λ b. res ++ (b ++ later)) same,
      e3
          ∙ ap (λ m. m ++ map (λ _. next) pages) (sym e2 ∙ e1)
          ∙ append_assoc log (next ∷ []) (map (λ _. next) pages),
    )

chain :
    {l1 l2 l3 l4 l5 log' : List Request} (log : List Request) (r w : Request)
    (listing : List Request)
    → log ≡ l1
    → l2 ≡ l1 ++ r ∷ []
    → l3 ≡ l2 ++ w ∷ []
    → l3 ≡ l4
    → l5 ≡ l4 ++ listing
    → l5 ≡ log'
    → log' ≡ log ++ r ∷ w ∷ listing
chain {l1} {l2} {l3} {l4} {l5} {log'} log r w listing e1 e2 e3 e4 e5 e6 =
    let assoc : ((log ++ r ∷ []) ++ w ∷ []) ++ listing ≡ log ++ r ∷ w ∷ listing =
      append_assoc (log ++ r ∷ []) (w ∷ []) listing ∙ append_assoc log (r ∷ []) (w ∷ listing) in
    cc

module _ (sdk : Sdk) (config : Config) where
  client-Run :
      {A : Type 0} (m : Action Request A) (a : A) (log log' : List Request)
      → Run (new_instances_client sdk config >> m) log a log'
      → Run m log a log'
  client-Run m a log log' h =
      let (u, mid, made, rest) = >>=-Run (new_instances_client sdk config) (λ _. m) a log log' h in
      let (_, same) =
        lift-Run (of_nil (sdk.new_client "instances")) u log mid (
          annotate-Run _ (lift _) u log mid
            (annotate-Run _ (annotate _ (lift _)) u log mid made)) in
      rw same rest

  finished-ok : (op : Operation) {u : Unit {0}} → finished sdk config op ≡ ok u → op.done ≡ true
  finished-ok op {u} h = of_done op.done h
    where
      of_done :
          (b : Bool)
          → (if not b
              then err (
                  wrapped
                    (String.◌++◌ "an error occured on operation " op.name)
                    (named operation_failed))
              else ok tt)
            ≡ ok u
          → b ≡ true
      of_done true e = refl
      of_done false e = absurd (cc)

  -- A bulk insert for the parameters: in the project of the authentication, of exactly the amount or none, with the
  -- image, the type, the label of the identifier and the key.
  pub record IsFor (auth : Authentication) (params : Params) (amount : ℕ) (pk_body : String)
      (b : BulkInsert) : Type 0 where
    pub in_project : b.project ≡ auth.payload
    pub counted : (b.count ≡ amount) × (b.min_count ≡ amount)
    pub of_image : b.source_image ≡ params.image_name
    pub of_type : b.machine_type ≡ params.machine_type
    pub labelled : Any (λ l. l ≡ ("rh-uuid", params.uuid)) b.labels
    pub keyed : Any (λ item. item ≡ ("ssh-keys", pk_body)) b.metadata

  -- An insertion of machines that succeeds asks for these, in this order: one bulk insert, of exactly the amount or
  -- none, with the key of the parameters and the label of their identifier; the end of the operation that was
  -- started, which is done; and every page of the list of the instances with that label. The ids are those of all
  -- these pages in order, and the name is that of the operation.
  pub insert_instances-ids :
      (auth : Authentication) (params : Params) (amount : ℕ) (ids : List String) (name : String)
      (log log' : List Request)
      → Run (insert_instances sdk config auth params amount) log (ids, name) log'
      → (pk_body started : String) × (b : BulkInsert) × (op : Operation) × (pages : List (List ℕ))
        × IsFor auth params amount pk_body b
        × (body_with_username params.key_body ≡ ok pk_body)
        × (sdk.inserted log ≡ ok started)
        × (op.done ≡ true)
        × (name ≡ op.name)
        × (sdk.instances (label_filter sdk config params.uuid) ≡ map ok pages)
        × (ids ≡ concat (map (map format_int) pages))
        × (log'
            ≡ log
              ++ bulk_insert b
                ∷ wait started
                ∷ map
                    (λ _. next_instances auth.payload (label_filter sdk config params.uuid))
                    pages)
  unfolding insert_instances list_instances_ids_by_label bulk_insert_request
  insert_instances-ids auth params amount ids name log log' h =
      let (pk_body, l1, keyed, rest) =
        >>=-Run _ _ (ids, name) log log' (client-Run _ _ log log' h) in
      let (is_key, e1) =
        lift-Run (body_with_username params.key_body) pk_body log l1
          (annotate-Run _ (lift _) pk_body log l1 keyed) in
      let (started, l2, begun, rest2) = >>=-Run _ _ (ids, name) l1 log' rest in
      let (inserted, e2) =
        send-Run (λ log _. sdk.inserted log)
          (bulk_insert (bulk_insert_request sdk config auth params amount pk_body)) started l1 l2
          (annotate-Run _ (send _ _) started l1 l2 begun) in
      let (op, l3, waited, rest3) = >>=-Run _ _ (ids, name) l2 log' rest2 in
      let (ended, e3) =
        send-Run (λ log _. sdk.waited log) (wait started) op l2 l3
          (annotate-Run _ (send _ _) op l2 l3 waited) in
      let (_, l4, checked, rest4) = >>=-Run _ _ (ids, name) l3 log' rest3 in
      let (is_done, e4) = lift-Run (finished sdk config op) _ l3 l4 checked in
      let (found, l5, listed, rest5) = >>=-Run _ _ (ids, name) l4 log' rest4 in
      let (pages, are_ok, all, e5) =
        iterate-Run _ _ (map format_int) (sdk.instances (label_filter sdk config params.uuid)) []
          found l4 l5
          (client-Run _ found l4 l5 (
            annotate-Run _ (list_instances_ids_by_label sdk config auth params.uuid) found l4 l5
              listed)) in
      let (same, e6) = pure-Run (found, op.name) (ids, name) l5 log' rest5 in
      let r = bulk_insert (bulk_insert_request sdk config auth params amount pk_body) in
      let listing =
        map (λ _. next_instances auth.payload (label_filter sdk config params.uuid)) pages in
      (
        pk_body,
        started,
        bulk_insert_request sdk config auth params amount pk_body,
        op,
        pages,
        record {
          in_project = refl;
          counted = (refl, refl);
          of_image = refl;
          of_type = refl;
          labelled = inr (inl refl);
          keyed = inl refl;
        },
        is_key,
        ap sdk.inserted e1 ∙ inserted,
        finished-ok op is_done,
        sym (ap (λ p. p.1) same),
        are_ok,
        sym (ap (λ p. p.0) same) ∙ all,
        chain log r (wait started) listing e1 e2 e3 e4 e5 e6,
      )
