-- ===== src/Jobs/Gcp.antt =====
-- internal/jobs/launch_instance_gcp.go.
use Prim.Native.String
use provisioning_backend.Common.{
  String, Option, none, some, List, [], ◌∷◌, map, if◌then◌else◌, str_eq,
}
use provisioning_backend.Errors.{named, try_again}
use provisioning_backend.Models.{
  gcp, InstanceDescription, GcpArgs, JobArgs, noop_args, aws_args, azure_args, gcp_args,
}
use provisioning_backend.World.{
  Result, ok, err, M, pure, fail, read, call, check, attempt, annotate, ◌>>=◌, ◌>>◌,
}
use provisioning_backend.Dao.Reservations
use provisioning_backend.Dao.Pubkeys
use provisioning_backend.Jobs.Common.{
  with_status, wait_and_retry, create_instances, only_id, unless_failed, notify_and_finish,
}

unfoldable pub instance_name : Option String → String
instance_name none = "inst-####"
instance_name (some pattern) = String.◌++◌ pattern "-#####"

unfoldable pub do_launch_instance_gcp_body : GcpArgs → M (Unit {0})
unfolding instance_name
do_launch_instance_gcp_body args = do
  pk ← annotate "cannot get pubkey by id" (Pubkeys.get_by_id args.pubkey_id)
  annotate "cannot get gcp client" (check λ e n. e.cloud_client n args.project_id "")
  user_data ←
      annotate "cannot generate user data"
        (read λ e. e.generate_user_data gcp args.detail.power_off)
  (instances, op_name) ← annotate "cannot run instances for gcp client" (
      call λ e n.
        e.insert_instances n
          (record {
            launch_template_id = args.launch_template_id;
            instance_type = args.detail.machine_type;
            image = args.image_name;
            key = pk.body;
            user_data = user_data;
            amount = args.detail.amount;
            name = some (instance_name args.detail.name_pattern);
            location = args.zone;
          })
          args.detail.uuid)
  annotate "cannot update operation name for GCP "
      (Reservations.update_operation_name_for_gcp args.reservation_id op_name)
  create_instances args.reservation_id (map only_id instances)

unfoldable pub do_launch_instance_gcp : GcpArgs → M (Unit {0})
unfolding do_launch_instance_gcp_body
do_launch_instance_gcp args =
    with_status args.reservation_id "Launching instance(s)" "Launched instance(s)"
      (do_launch_instance_gcp_body args)

-- The function that is retried: an instance without an address is asked for again.
unfoldable pub describe_instance : GcpArgs → String → M InstanceDescription
describe_instance args id = do
  d ←
      annotate "cannot get instance description "
        (call λ e n. e.get_instance_description n id args.zone)
  if str_eq d.public_ipv4 "" then fail (named try_again) else pure d

-- An instance without a description is skipped.
unfoldable pub store_description : GcpArgs → Result InstanceDescription → M (Unit {0})
store_description args (err x) = pure tt
store_description args (ok d) =
    annotate "cannot update instance description"
      (Reservations.update_reservation_instance args.reservation_id d)

unfoldable pub fetch_each : GcpArgs → List String → M (Unit {0})
unfolding describe_instance store_description
fetch_each args [] = pure tt
fetch_each args (id ∷ ids) = do
  r ← attempt (wait_and_retry (describe_instance args id) 1 500 (500 ∷ 1000 ∷ 2000 ∷ 2000 ∷ []))
  store_description args r
  fetch_each args ids

unfoldable pub fetch_instances_description_gcp_body : GcpArgs → M (Unit {0})
unfolding fetch_each
fetch_instances_description_gcp_body args = do
  annotate "cannot get gcp client" (check λ e n. e.cloud_client n args.project_id "")
  ids ←
      annotate "cannot list instances ids by tag"
        (call λ e n. e.list_instances_by_label n args.detail.uuid)
  fetch_each args ids

unfoldable pub fetch_instances_description_gcp : GcpArgs → M (Unit {0})
unfolding fetch_instances_description_gcp_body
fetch_instances_description_gcp args =
    with_status args.reservation_id "Fetching instances description" "Fetched instances description"
      (fetch_instances_description_gcp_body args)

unfoldable pub handle_launch_instance_gcp : JobArgs → M (Unit {0})
unfolding do_launch_instance_gcp fetch_instances_description_gcp
handle_launch_instance_gcp (gcp_args args) = do
  launched ← attempt (do_launch_instance_gcp args)
  unless_failed args.reservation_id launched (do
    fetched ← attempt (fetch_instances_description_gcp args)
    notify_and_finish args.reservation_id fetched)
handle_launch_instance_gcp (noop_args args) = pure tt
handle_launch_instance_gcp (aws_args args) = pure tt
handle_launch_instance_gcp (azure_args args) = pure tt
