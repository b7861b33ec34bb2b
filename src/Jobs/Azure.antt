-- ===== src/Jobs/Azure.antt =====
-- internal/jobs/launch_instance_azure.go.
use provisioning_backend.Common.{String, Option, map}
use provisioning_backend.Models.{
  azure, InstanceDescription, AzureArgs, JobArgs, noop_args, aws_args, azure_args, gcp_args,
}
use provisioning_backend.World.{M, pure, read, call, check, attempt, annotate, ◌>>=◌, ◌>>◌}
use provisioning_backend.Dao.Reservations
use provisioning_backend.Dao.Pubkeys
use provisioning_backend.Jobs.Common.{
  with_status, create_instances, unless_failed, notify_and_finish,
}

abbrev resource_group_name : String
resource_group_name = "redhat-deployed"

abbrev location : String
location = "eastus"

abbrev vm_name_prefix : String
vm_name_prefix = "redhat-vm"

unfoldable pub do_ensure_azure_resource_group_body : AzureArgs → M (Unit {0})
do_ensure_azure_resource_group_body args = do
  annotate "cannot create new Azure client" (check λ e n. e.cloud_client n args.subscription "")
  annotate "failed to ensure resource group"
      (call λ e n. e.ensure_resource_group n resource_group_name location)
  pure tt

unfoldable pub do_ensure_azure_resource_group : AzureArgs → M (Unit {0})
unfolding do_ensure_azure_resource_group_body
do_ensure_azure_resource_group args =
    with_status args.reservation_id "Ensuring resource group presence"
      "Ensured resource group presence" (do_ensure_azure_resource_group_body args)

-- Only the address is stored.
abbrev only_ipv4 : InstanceDescription → InstanceDescription
only_ipv4 d = record d { public_dns = "" }

unfoldable pub do_launch_instance_azure_body : AzureArgs → M (Unit {0})
do_launch_instance_azure_body args = do
  pubkey ← annotate "cannot get public key by id" (Pubkeys.get_by_id args.pubkey_id)
  (reservation, details) ←
      annotate "cannot get azure reservation by id"
        (Reservations.get_azure_by_id args.reservation_id)
  annotate "failed to instantiate Azure client" (check λ e n. e.cloud_client n args.subscription "")
  user_data ←
      annotate "cannot generate user data"
        (read λ e. e.generate_user_data azure details.detail.power_off)
  descriptions ← annotate "cannot create Azure instance" (
      call λ e n. e.create_vms n (record {
        launch_template_id = "";
        instance_type = details.detail.instance_size;
        image = args.azure_image_id;
        key = pubkey.body;
        user_data = user_data;
        amount = details.detail.amount;
        name = Option.some vm_name_prefix;
        location = location;
      }))
  create_instances args.reservation_id (map only_ipv4 descriptions)

unfoldable pub do_launch_instance_azure : AzureArgs → M (Unit {0})
unfolding do_launch_instance_azure_body
do_launch_instance_azure args =
    with_status args.reservation_id "Launching instance(s)" "Launched instance(s)"
      (do_launch_instance_azure_body args)

unfoldable pub handle_launch_instance_azure : JobArgs → M (Unit {0})
unfolding do_ensure_azure_resource_group do_launch_instance_azure
handle_launch_instance_azure (azure_args args) = do
  ensured ← attempt (do_ensure_azure_resource_group args)
  unless_failed args.reservation_id ensured (do
    launched ← attempt (do_launch_instance_azure args)
    notify_and_finish args.reservation_id launched)
handle_launch_instance_azure (noop_args args) = pure tt
handle_launch_instance_azure (aws_args args) = pure tt
handle_launch_instance_azure (gcp_args args) = pure tt
