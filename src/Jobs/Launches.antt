-- ===== src/Jobs/Launches.antt =====
-- The handlers of jobs (HandleNoop, HandleLaunchInstanceAWS, HandleLaunchInstanceAzure and
-- HandleLaunchInstanceGCP): what they leave behind of a reservation that waits for them.
use provisioning_backend.Common.{List, refl}
use provisioning_backend.Models.{
  NoopArgs, AwsArgs, AzureArgs, GcpArgs, noop_args, aws_args, azure_args, gcp_args,
}
use provisioning_backend.World.{World, Env, Notice, ◌>>◌}
use provisioning_backend.Jobs.Progress.{Answers, InProgress}
use provisioning_backend.Jobs.Outcomes.{
  Outcome, Settled, Advances, with_status-Advances, last-Concludes, first-Concludes,
}
use provisioning_backend.Jobs.Bodies
use provisioning_backend.Jobs.Noop.{do_noop, handle_noop}
use provisioning_backend.Jobs.Aws.{
  do_ensure_pubkey_on_aws, do_launch_instance_aws, fetch_instances_description_aws,
  handle_launch_instance_aws,
}
use provisioning_backend.Jobs.Azure.{
  do_ensure_azure_resource_group, do_launch_instance_azure, handle_launch_instance_azure,
}
use provisioning_backend.Jobs.Gcp.{
  do_launch_instance_gcp, fetch_instances_description_gcp, handle_launch_instance_gcp,
}

module _ {e : Env} (up : Answers e) (args : AwsArgs) where
  ensure_aws-Advances : Advances e args.reservation_id 3 0 (do_ensure_pubkey_on_aws args)
  unfolding do_ensure_pubkey_on_aws
  ensure_aws-Advances =
      with_status-Advances up 0 _ _ _ (λ rows ms. Bodies.Keeps-ensure_pubkey_on_aws_body args)

  launch_aws-Advances : Advances e args.reservation_id 3 1 (do_launch_instance_aws args)
  unfolding do_launch_instance_aws
  launch_aws-Advances =
      with_status-Advances up 1 _ _ _ (λ rows ms. Bodies.Keeps-launch_instance_aws_body args)

  fetch_aws-Advances : Advances e args.reservation_id 3 2 (fetch_instances_description_aws args)
  unfolding fetch_instances_description_aws
  fetch_aws-Advances =
      with_status-Advances up 2 _ _ _
        (λ rows ms. Bodies.Keeps-fetch_instances_description_aws_body args)

  -- Let no call of the database and of Kafka fail but for the deadline of its context, whatever Sources and AWS
  -- answer; let the reservation of the arguments be stored once, belong to the account of the job and stand at step
  -- 0 of 3 with no result; and let the deadline pass at any time but during the calls of the end of the handler, after
  -- its steps. After the handler, the reservation agrees with the result of the three steps run one after the other up
  -- to the first error: on success it is marked a success at step 3 with no error, and on an error a failure with that
  -- error, also when the deadline has passed. One notification was added, of the success with the stored instances or
  -- of that error, if the deadline has not passed by the end of the steps, and none if it has.
  pub handle_launch_instance_aws-Outcome :
      (ns : List Notice) (w : World)
      → InProgress e args.reservation_id 3 0 ns w.state
      → Settled e
          ((do_ensure_pubkey_on_aws args
              >> (do_launch_instance_aws args >> fetch_instances_description_aws args))
            e w).1
      → Outcome e args.reservation_id 3 ns
          ((do_ensure_pubkey_on_aws args
              >> (do_launch_instance_aws args >> fetch_instances_description_aws args))
            e w)
          (handle_launch_instance_aws (aws_args args) e w).1.state
  unfolding handle_launch_instance_aws
  handle_launch_instance_aws-Outcome ns w h st =
      (first-Concludes up 0 _ _ _ ensure_aws-Advances (
          first-Concludes up 1 _ _ _ launch_aws-Advances
            (last-Concludes up 2 _ refl fetch_aws-Advances))).at
        ns w h st

module _ {e : Env} (up : Answers e) (args : AzureArgs) where
  ensure_azure-Advances : Advances e args.reservation_id 2 0 (do_ensure_azure_resource_group args)
  unfolding do_ensure_azure_resource_group
  ensure_azure-Advances =
      with_status-Advances up 0 _ _ _
        (λ rows ms. Bodies.Keeps-ensure_azure_resource_group_body args)

  launch_azure-Advances : Advances e args.reservation_id 2 1 (do_launch_instance_azure args)
  unfolding do_launch_instance_azure
  launch_azure-Advances =
      with_status-Advances up 1 _ _ _ (λ rows ms. Bodies.Keeps-launch_instance_azure_body args)

  -- Let no call of the database and of Kafka fail but for the deadline of its context, whatever Azure answers; let
  -- the reservation of the arguments be stored once, belong to the account of the job and stand at step 0 of 2 with
  -- no result; and let the deadline pass at any time but during the calls of the end of the handler, after its steps.
  -- After the handler, the reservation is marked a success at step 2 if both steps returned nil, and otherwise a
  -- failure with their first error, also when the deadline has passed. One notification was added, of the success
  -- with its instances or of that error, if the deadline has not passed by the end of the steps, and none if it has.
  pub handle_launch_instance_azure-Outcome :
      (ns : List Notice) (w : World)
      → InProgress e args.reservation_id 2 0 ns w.state
      → Settled e ((do_ensure_azure_resource_group args >> do_launch_instance_azure args) e w).1
      → Outcome e args.reservation_id 2 ns
          ((do_ensure_azure_resource_group args >> do_launch_instance_azure args) e w)
          (handle_launch_instance_azure (azure_args args) e w).1.state
  unfolding handle_launch_instance_azure
  handle_launch_instance_azure-Outcome ns w h st =
      (first-Concludes up 0 _ _ _ ensure_azure-Advances
          (last-Concludes up 1 _ refl launch_azure-Advances)).at
        ns w h st

module _ {e : Env} (up : Answers e) (args : GcpArgs) where
  launch_gcp-Advances : Advances e args.reservation_id 2 0 (do_launch_instance_gcp args)
  unfolding do_launch_instance_gcp
  launch_gcp-Advances =
      with_status-Advances up 0 _ _ _ (λ rows ms. Bodies.Keeps-launch_instance_gcp_body args)

  fetch_gcp-Advances : Advances e args.reservation_id 2 1 (fetch_instances_description_gcp args)
  unfolding fetch_instances_description_gcp
  fetch_gcp-Advances =
      with_status-Advances up 1 _ _ _
        (λ rows ms. Bodies.Keeps-fetch_instances_description_gcp_body args)

  -- Let no call of the database and of Kafka fail but for the deadline of its context, whatever GCP answers; let
  -- the reservation of the arguments be stored once, belong to the account of the job and stand at step 0 of 2 with
  -- no result; and let the deadline pass at any time but during the calls of the end of the handler, after its steps.
  -- After the handler, the reservation is marked a success at step 2 if both steps returned nil, and otherwise a
  -- failure with their first error, also when the deadline has passed. One notification was added, of the success
  -- with its instances or of that error, if the deadline has not passed by the end of the steps, and none if it has.
  pub handle_launch_instance_gcp-Outcome :
      (ns : List Notice) (w : World)
      → InProgress e args.reservation_id 2 0 ns w.state
      → Settled e ((do_launch_instance_gcp args >> fetch_instances_description_gcp args) e w).1
      → Outcome e args.reservation_id 2 ns
          ((do_launch_instance_gcp args >> fetch_instances_description_gcp args) e w)
          (handle_launch_instance_gcp (gcp_args args) e w).1.state
  unfolding handle_launch_instance_gcp
  handle_launch_instance_gcp-Outcome ns w h st =
      (first-Concludes up 0 _ _ _ launch_gcp-Advances
          (last-Concludes up 1 _ refl fetch_gcp-Advances)).at
        ns w h st

module _ {e : Env} (up : Answers e) (args : NoopArgs) where
  noop-Advances : Advances e args.reservation_id 1 0 (do_noop args)
  unfolding do_noop
  noop-Advances = with_status-Advances up 0 _ _ _ (λ rows ms. Bodies.Keeps-noop_body args)

  -- With the same conditions, for a reservation at step 0 of 1: after the handler the reservation tells the result of
  -- the step, a success or the error, and so does one notification if the deadline had not passed by the end of it.
  pub handle_noop-Outcome :
      (ns : List Notice) (w : World)
      → InProgress e args.reservation_id 1 0 ns w.state
      → Settled e (do_noop args e w).1
      → Outcome e args.reservation_id 1 ns
          (do_noop args e w)
          (handle_noop (noop_args args) e w).1.state
  unfolding handle_noop
  handle_noop-Outcome ns w h st = (last-Concludes up 0 _ refl noop-Advances).at ns w h st
