-- ===== src/Jobs/Aws.antt =====
-- internal/jobs/launch_instance_aws.go, with FindAwsFingerprint of internal/models/pubkey_model.go and
-- RandomizeTag of internal/models/pubkey_resource.go.
use provisioning_backend.Common.{ℕ, String, List, [], ◌∷◌, map, if◌then◌else◌, ◌==◌, str_eq}
use Prim.Native.String
use provisioning_backend.Errors.{
  Error, named, wrapped, opaque, is, no_rows, pubkey_not_found, duplicate_pubkey, try_again,
}
use provisioning_backend.Models.{
  aws, Pubkey, PubkeyResource, ReservationInstance, InstanceDescription, AwsArgs, JobArgs,
  noop_args, aws_args, azure_args, gcp_args,
}
use provisioning_backend.World.{
  Result, ok, err, Env, M, pure, fail, read, call, check, attempt, annotate, ◌>>=◌, ◌>>◌,
}
use provisioning_backend.Dao.Reservations
use provisioning_backend.Dao.Pubkeys
use provisioning_backend.Jobs.Common.{
  with_status, nil_unless_timeout, create_instances, only_id, wait_and_retry, unless_failed,
  notify_and_finish,
}

abbrev pub or_blank : Result String → String
or_blank (ok s) = s
or_blank (err x) = ""

-- Pubkey.FindAwsFingerprint
unfoldable pub find_aws_fingerprint : Env → Pubkey → String
find_aws_fingerprint e pk =
    if str_eq pk.type "ssh-rsa"
    then or_blank (e.aws_fingerprint pk.body)
    else if str_eq pk.type "ssh-ed25519"
    then pk.fingerprint
    else ""

-- The record of the resource if there is one, or a new one.
unfoldable pub resource_or_new : AwsArgs → Pubkey → Result PubkeyResource → M PubkeyResource
resource_or_new args pubkey (ok pkr) = pure pkr
resource_or_new args pubkey (err x) =
    if is x no_rows
    then pure (record {
      id = 0;
      tag = "";
      pubkey_id = pubkey.id;
      provider = aws;
      source_id = args.source_id;
      handle = "";
      region = args.region;
    })
    else fail (wrapped "unable to check pubkey resource" x)

abbrev pub import_failed : Error → Error
import_failed x =
    if is x duplicate_pubkey
    then wrapped "key with fingerprint not found on AWS, but importing the key failed" x
    else wrapped "cannot upload aws pubkey" x

abbrev pub imported : PubkeyResource → Result String → M PubkeyResource
imported pkr (ok handle) = pure (record pkr { handle = handle })
imported pkr (err x) = fail (import_failed x)

-- PubkeyResource.FormattedTag
abbrev pub formatted_tag : String → String
formatted_tag tag = String.◌++◌ "pk-" tag

-- What follows GetPubkeyName: the key is imported if AWS does not know its fingerprint.
unfoldable pub ensure_on_aws : Pubkey → PubkeyResource → Result String → M (PubkeyResource × String)
ensure_on_aws pubkey pkr (ok ec2_name) = pure (pkr, ec2_name)
ensure_on_aws pubkey pkr (err x) =
    if is x pubkey_not_found
    then (do
      tag ← call λ e n. ok (e.generate_tag n)
      handle ← attempt (call λ e n. e.import_pubkey n pubkey (formatted_tag tag))
      pkr' ← imported (record pkr { tag = tag }) handle
      pure (pkr', pubkey.name))
    else fail (wrapped "cannot fetch name of pubkey by its fingerprint" x)

unfoldable pub do_ensure_pubkey_on_aws_body : AwsArgs → M (Unit {0})
unfolding resource_or_new ensure_on_aws find_aws_fingerprint
do_ensure_pubkey_on_aws_body args = do
  (reservation, details) ←
      annotate "cannot get aws reservation by id" (Reservations.get_aws_by_id args.reservation_id)
  pubkey ← annotate "cannot upload aws pubkey" (Pubkeys.get_by_id args.pubkey_id)
  found ←
      attempt (
        Pubkeys.unscoped_get_resource_by_source_and_region args.pubkey_id args.source_id
          args.region)
  pkr ← resource_or_new args pubkey found
  annotate "cannot create new ec2 client from config"
      (check λ e n. e.cloud_client n args.arn args.region)
  name ← attempt (call λ e n. e.get_pubkey_name n (find_aws_fingerprint e pubkey))
  (pkr', ec2_name) ← ensure_on_aws pubkey pkr name
  annotate "failed to save AWS pubkey name to DB" (
      Reservations.unscoped_update_aws_detail reservation.id
        (record details.detail { pubkey_name = ec2_name }))
  if pkr'.id == 0
      then annotate "cannot create resource for aws pubkey" (Pubkeys.unscoped_create_resource pkr')
      else pure tt
  nil_unless_timeout

unfoldable pub do_ensure_pubkey_on_aws : AwsArgs → M (Unit {0})
unfolding do_ensure_pubkey_on_aws_body
do_ensure_pubkey_on_aws args =
    with_status args.reservation_id "Uploading public key" "Uploaded public key"
      (do_ensure_pubkey_on_aws_body args)

unfoldable pub do_launch_instance_aws_body : AwsArgs → M (Unit {0})
do_launch_instance_aws_body args = do
  (reservation, details) ←
      annotate "cannot get aws reservation by id" (Reservations.get_aws_by_id args.reservation_id)
  user_data ←
      annotate "cannot generate user data"
        (read λ e. e.generate_user_data aws args.detail.power_off)
  annotate "cannot create new ec2 client from config"
      (check λ e n. e.cloud_client n args.arn args.region)
  (instances, aws_reservation_id) ← annotate "cannot run instances" (
      call λ e n. e.run_instances n (record {
        launch_template_id = args.launch_template_id;
        instance_type = args.detail.instance_type;
        image = args.ami;
        key = details.detail.pubkey_name;
        user_data = user_data;
        amount = args.detail.amount;
        name = args.detail.name;
        location = "";
      }))
  create_instances args.reservation_id (map only_id instances)
  annotate "cannot UpdateReservationIDForAWS"
      (Reservations.update_reservation_id_for_aws args.reservation_id aws_reservation_id)
  nil_unless_timeout

unfoldable pub do_launch_instance_aws : AwsArgs → M (Unit {0})
unfolding do_launch_instance_aws_body
do_launch_instance_aws args =
    with_status args.reservation_id "Launching instance(s)" "Launched instance(s)"
      (do_launch_instance_aws_body args)

abbrev pub update_failed : Result (Unit {0}) → M (Unit {0})
update_failed (ok a) = pure tt
update_failed (err x) = fail (opaque "cannot update instance description: %!w(<nil>)")

unfoldable pub update_descriptions : ℕ → List InstanceDescription → M (Unit {0})
update_descriptions reservation_id [] = pure tt
update_descriptions reservation_id (d ∷ ds) = do
  r ← attempt (Reservations.update_reservation_instance reservation_id d)
  update_failed r
  update_descriptions reservation_id ds

-- The error for an empty list of descriptions.
abbrev pub not_empty : {A : Type 0} → List A → M (Unit {0})
not_empty [] = fail (named try_again)
not_empty (x ∷ xs) = pure tt

-- The function that is retried.
unfoldable pub describe_and_update : AwsArgs → List String → M (Unit {0})
unfolding update_descriptions
describe_and_update args ids = do
  descriptions ←
      annotate "cannot get list instances description" (call λ e n. e.describe_instances n ids)
  not_empty descriptions
  update_descriptions args.reservation_id descriptions

unfoldable pub fetch_instances_description_aws_body : AwsArgs → M (Unit {0})
unfolding describe_and_update
fetch_instances_description_aws_body args = do
  instances ← annotate "cannot get instances list" (Reservations.list_instances args.reservation_id)
  annotate "cannot create new ec2 client from config"
      (check λ e n. e.cloud_client n args.arn args.region)
  annotate "giving up" (
      wait_and_retry
        (describe_and_update args (map (λ (i : ReservationInstance). i.instance_id) instances)) 1000
        500 (500 ∷ 1000 ∷ 2000 ∷ []))

unfoldable pub fetch_instances_description_aws : AwsArgs → M (Unit {0})
unfolding fetch_instances_description_aws_body
fetch_instances_description_aws args =
    with_status args.reservation_id "Fetching instance(s) description"
      "Instance(s) description fetched" (fetch_instances_description_aws_body args)

unfoldable pub handle_launch_instance_aws : JobArgs → M (Unit {0})
unfolding do_ensure_pubkey_on_aws do_launch_instance_aws fetch_instances_description_aws
handle_launch_instance_aws (aws_args args) = do
  ensured ← attempt (do_ensure_pubkey_on_aws args)
  unless_failed args.reservation_id ensured (do
    launched ← attempt (do_launch_instance_aws args)
    unless_failed args.reservation_id launched (do
      fetched ← attempt (fetch_instances_description_aws args)
      notify_and_finish args.reservation_id fetched))
handle_launch_instance_aws (noop_args args) = pure tt
handle_launch_instance_aws (azure_args args) = pure tt
handle_launch_instance_aws (gcp_args args) = pure tt
