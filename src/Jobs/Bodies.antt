-- ===== src/Jobs/Bodies.antt =====
-- Lemmas on the parts of the state that the bodies of the steps of Jobs/Noop.antt, Jobs/Aws.antt,
-- Jobs/Azure.antt and Jobs/Gcp.antt leave alone.
use provisioning_backend.Common.{ℕ, String, List, [], ◌∷◌}
use provisioning_backend.Models.{
  Reservation, ReservationInstance, InstanceDescription, Pubkey, PubkeyResource, AwsDetail,
  NoopArgs, AwsArgs, AzureArgs, GcpArgs,
}
use provisioning_backend.World.{Result, ok, err, State, Env, Notice, M}
use provisioning_backend.World.Keeps.{
  Keeps, keeps_rules, Keeps-query, Keeps-statement, Keeps-exec, Keeps-pure, Keeps-fail, Keeps-lift,
  Keeps-bind,
}
use provisioning_backend.Dao.Reservations
use provisioning_backend.Dao.Pubkeys
use provisioning_backend.Jobs.Common.{
  nil_unless_timeout, retry_rounds, wait_and_retry, create_instances,
}
use provisioning_backend.Jobs.Progress.{Untouched}
use provisioning_backend.Jobs.Noop
use provisioning_backend.Jobs.Aws
use provisioning_backend.Jobs.Azure
use provisioning_backend.Jobs.Gcp

module _ {e : Env} {P : State → Type 0} where
  Keeps-get_aws_by_id : (id : ℕ) → Keeps e P (Reservations.get_aws_by_id id)
  unfolding Reservations.get_aws_by_id
  Keeps-get_aws_by_id id = Keeps-query _

  Keeps-get_azure_by_id : (id : ℕ) → Keeps e P (Reservations.get_azure_by_id id)
  unfolding Reservations.get_azure_by_id
  Keeps-get_azure_by_id id = Keeps-query _

  Keeps-list_instances : (id : ℕ) → Keeps e P (Reservations.list_instances id)
  unfolding Reservations.list_instances
  Keeps-list_instances id = Keeps-query _

  Keeps-get_pubkey : (id : ℕ) → Keeps e P (Pubkeys.get_by_id id)
  unfolding Pubkeys.get_by_id
  Keeps-get_pubkey id = Keeps-query _

  Keeps-get_resource :
      (id : ℕ) (source region : String)
      → Keeps e P (Pubkeys.unscoped_get_resource_by_source_and_region id source region)
  unfolding Pubkeys.unscoped_get_resource_by_source_and_region
  Keeps-get_resource id source region = Keeps-query _

  Keeps-nil_unless_timeout : Keeps e P nil_unless_timeout
  unfolding nil_unless_timeout
  Keeps-nil_unless_timeout = search keeps_rules

  Keeps-retry_rounds :
      {A : Type 0} (f : M A) (intervals : List ℕ) (last : Result A)
      → Keeps e P f
      → Keeps e P (retry_rounds f intervals last)
  unfolding retry_rounds
  Keeps-retry_rounds f [] last k = Keeps-lift last
  Keeps-retry_rounds {A = A} f (i ∷ is) last k =
      search (keeps_rules, λ (r : Result A). Keeps-retry_rounds f is r k)

  Keeps-wait_and_retry :
      {A : Type 0} (f : M A) (i j : ℕ) (is : List ℕ)
      → Keeps e P f
      → Keeps e P (wait_and_retry f i j is)
  unfolding wait_and_retry
  Keeps-wait_and_retry {A = A} f i j is k =
      search (keeps_rules, λ (r : Result A). Keeps-retry_rounds f (j ∷ is) r k)

module _ {e : Env} {rows : List Reservation} {ns : List Notice} where
  Keeps-update_aws_detail :
      (id : ℕ) (d : AwsDetail)
      → Keeps e (Untouched rows ns) (Reservations.unscoped_update_aws_detail id d)
  unfolding Reservations.unscoped_update_aws_detail
  Keeps-update_aws_detail id d =
      Keeps-statement _ (λ s n h. record { rows_same = h.rows_same; told = h.told })

  Keeps-update_reservation_id :
      (id : ℕ) (t : String)
      → Keeps e (Untouched rows ns) (Reservations.update_reservation_id_for_aws id t)
  unfolding Reservations.update_reservation_id_for_aws
  Keeps-update_reservation_id id t =
      Keeps-statement _ (λ s n h. record { rows_same = h.rows_same; told = h.told })

  Keeps-update_operation_name :
      (id : ℕ) (t : String)
      → Keeps e (Untouched rows ns) (Reservations.update_operation_name_for_gcp id t)
  unfolding Reservations.update_operation_name_for_gcp
  Keeps-update_operation_name id t =
      Keeps-statement _ (λ s n h. record { rows_same = h.rows_same; told = h.told })

  Keeps-update_instance :
      (id : ℕ) (d : InstanceDescription)
      → Keeps e (Untouched rows ns) (Reservations.update_reservation_instance id d)
  unfolding Reservations.update_reservation_instance
  Keeps-update_instance id d =
      Keeps-statement _ (λ s n h. record { rows_same = h.rows_same; told = h.told })

  Keeps-create_instance :
      (i : ReservationInstance) → Keeps e (Untouched rows ns) (Reservations.create_instance i)
  unfolding Reservations.create_instance
  Keeps-create_instance i =
      Keeps-statement _ (λ s n h. record { rows_same = h.rows_same; told = h.told })

  Keeps-create_resource :
      (r : PubkeyResource) → Keeps e (Untouched rows ns) (Pubkeys.unscoped_create_resource r)
  unfolding Pubkeys.unscoped_create_resource
  Keeps-create_resource r =
      Keeps-exec _ _ (λ s n h. record { rows_same = h.rows_same; told = h.told })

  Keeps-create_instances :
      (id : ℕ) (ds : List InstanceDescription)
      → Keeps e (Untouched rows ns) (create_instances id ds)
  unfolding create_instances
  Keeps-create_instances id [] = Keeps-pure tt
  Keeps-create_instances id (d ∷ ds) =
      Keeps-bind _ _ (search (keeps_rules, Keeps-create_instance))
        (λ _. Keeps-create_instances id ds)

  Keeps-resource_or_new :
      (args : AwsArgs) (k : Pubkey) (r : Result PubkeyResource)
      → Keeps e (Untouched rows ns) (Aws.resource_or_new args k r)
  unfolding Aws.resource_or_new
  Keeps-resource_or_new args k (ok pkr) = Keeps-pure pkr
  Keeps-resource_or_new args k (err x) = search keeps_rules

  Keeps-imported :
      (pkr : PubkeyResource) (r : Result String) → Keeps e (Untouched rows ns) (Aws.imported pkr r)
  Keeps-imported pkr (ok handle) = Keeps-pure _
  Keeps-imported pkr (err x) = Keeps-fail _

  Keeps-ensure_on_aws :
      (k : Pubkey) (pkr : PubkeyResource) (r : Result String)
      → Keeps e (Untouched rows ns) (Aws.ensure_on_aws k pkr r)
  unfolding Aws.ensure_on_aws
  Keeps-ensure_on_aws k pkr (ok name) = Keeps-pure _
  Keeps-ensure_on_aws k pkr (err x) = search (keeps_rules, Keeps-imported)

  pub Keeps-ensure_pubkey_on_aws_body :
      (args : AwsArgs) → Keeps e (Untouched rows ns) (Aws.do_ensure_pubkey_on_aws_body args)
  unfolding Aws.do_ensure_pubkey_on_aws_body
  Keeps-ensure_pubkey_on_aws_body args =
      search
        (
          keeps_rules, Keeps-get_aws_by_id, Keeps-get_pubkey, Keeps-get_resource,
          Keeps-resource_or_new, Keeps-ensure_on_aws, Keeps-update_aws_detail,
          Keeps-create_resource, Keeps-nil_unless_timeout,
        )
        depth 20

  pub Keeps-launch_instance_aws_body :
      (args : AwsArgs) → Keeps e (Untouched rows ns) (Aws.do_launch_instance_aws_body args)
  unfolding Aws.do_launch_instance_aws_body
  Keeps-launch_instance_aws_body args =
      search
        (
          keeps_rules, Keeps-get_aws_by_id, Keeps-create_instances, Keeps-update_reservation_id,
          Keeps-nil_unless_timeout,
        )
        depth 20

  Keeps-update_failed : (r : Result (Unit {0})) → Keeps e (Untouched rows ns) (Aws.update_failed r)
  Keeps-update_failed (ok a) = Keeps-pure tt
  Keeps-update_failed (err x) = Keeps-fail _

  Keeps-update_descriptions :
      (id : ℕ) (ds : List InstanceDescription)
      → Keeps e (Untouched rows ns) (Aws.update_descriptions id ds)
  unfolding Aws.update_descriptions
  Keeps-update_descriptions id [] = Keeps-pure tt
  Keeps-update_descriptions id (d ∷ ds) =
      Keeps-bind _ _ (search (keeps_rules, Keeps-update_instance))
        (λ r. Keeps-bind _ _ (Keeps-update_failed r) (λ _. Keeps-update_descriptions id ds))

  Keeps-not_empty : (ds : List InstanceDescription) → Keeps e (Untouched rows ns) (Aws.not_empty ds)
  Keeps-not_empty [] = Keeps-fail _
  Keeps-not_empty (d ∷ ds) = Keeps-pure tt

  Keeps-describe_and_update :
      (args : AwsArgs) (ids : List String)
      → Keeps e (Untouched rows ns) (Aws.describe_and_update args ids)
  unfolding Aws.describe_and_update
  Keeps-describe_and_update args ids =
      search (keeps_rules, Keeps-not_empty, Keeps-update_descriptions)

  pub Keeps-fetch_instances_description_aws_body :
      (args : AwsArgs) → Keeps e (Untouched rows ns) (Aws.fetch_instances_description_aws_body args)
  unfolding Aws.fetch_instances_description_aws_body
  Keeps-fetch_instances_description_aws_body args =
      search (keeps_rules, Keeps-list_instances, Keeps-wait_and_retry, Keeps-describe_and_update)
        depth 20

  pub Keeps-noop_body : (args : NoopArgs) → Keeps e (Untouched rows ns) (Noop.do_noop_body args)
  unfolding Noop.do_noop_body
  Keeps-noop_body args = search (keeps_rules, Keeps-nil_unless_timeout)

  pub Keeps-ensure_azure_resource_group_body :
      (args : AzureArgs)
      → Keeps e (Untouched rows ns) (Azure.do_ensure_azure_resource_group_body args)
  unfolding Azure.do_ensure_azure_resource_group_body
  Keeps-ensure_azure_resource_group_body args = search keeps_rules

  pub Keeps-launch_instance_azure_body :
      (args : AzureArgs) → Keeps e (Untouched rows ns) (Azure.do_launch_instance_azure_body args)
  unfolding Azure.do_launch_instance_azure_body
  Keeps-launch_instance_azure_body args =
      search (keeps_rules, Keeps-get_pubkey, Keeps-get_azure_by_id, Keeps-create_instances) depth 20

  pub Keeps-launch_instance_gcp_body :
      (args : GcpArgs) → Keeps e (Untouched rows ns) (Gcp.do_launch_instance_gcp_body args)
  unfolding Gcp.do_launch_instance_gcp_body
  Keeps-launch_instance_gcp_body args =
      search (keeps_rules, Keeps-get_pubkey, Keeps-update_operation_name, Keeps-create_instances)
        depth 20

  Keeps-describe_instance :
      (args : GcpArgs) (id : String) → Keeps e (Untouched rows ns) (Gcp.describe_instance args id)
  unfolding Gcp.describe_instance
  Keeps-describe_instance args id = search keeps_rules

  Keeps-store_description :
      (args : GcpArgs) (r : Result InstanceDescription)
      → Keeps e (Untouched rows ns) (Gcp.store_description args r)
  unfolding Gcp.store_description
  Keeps-store_description args (ok d) = search (keeps_rules, Keeps-update_instance)
  Keeps-store_description args (err x) = Keeps-pure tt

  Keeps-fetch_each :
      (args : GcpArgs) (ids : List String) → Keeps e (Untouched rows ns) (Gcp.fetch_each args ids)
  unfolding Gcp.fetch_each
  Keeps-fetch_each args [] = Keeps-pure tt
  Keeps-fetch_each args (id ∷ ids) =
      Keeps-bind _ _ (search (keeps_rules, Keeps-wait_and_retry, Keeps-describe_instance))
        (λ r. Keeps-bind _ _ (Keeps-store_description args r) (λ _. Keeps-fetch_each args ids))

  pub Keeps-fetch_instances_description_gcp_body :
      (args : GcpArgs) → Keeps e (Untouched rows ns) (Gcp.fetch_instances_description_gcp_body args)
  unfolding Gcp.fetch_instances_description_gcp_body
  Keeps-fetch_instances_description_gcp_body args = search (keeps_rules, Keeps-fetch_each)
