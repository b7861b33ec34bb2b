-- ===== src/Backends/ImageBuilder.antt =====
-- The client of Image Builder (internal/clients/http/image_builder/image_client.go).
pub mod Images
use Prim.Native.String
use provisioning_backend.Common.{
  ℕ, String, Bool, true, false, not, Option, none, some, List, [], ◌∷◌, str_eq, if◌then◌else◌,
}
use provisioning_backend.Errors.{
  Error, named, wrapped, bad_request, clone_not_found, compose_not_found, image_status,
  unknown_image_type, upload_status, image_request_not_found,
}
use provisioning_backend.Backends.Outcome.{
  Outcome, ok, err, panic, ◌>>=◌, ◌>>◌, annotate, deref, Response, check_status,
}

-- The options of an upload status: a JSON value, which each As… method decodes for itself.
pub record UploadStatus : Type 0 where
  pub type : String
  pub status : String
  -- AsAWSUploadStatus: the AMI
  pub as_aws : Outcome String
  -- AsAzureUploadStatus: the name of the image
  pub as_azure : Outcome String
  -- AsGCPUploadStatus: the project and the name of the image
  pub as_gcp : Outcome (String × String)

-- An image request: AsAzureUploadRequestOptions, the resource group.
pub record ImageRequest : Type 0 where
  pub as_azure_options : Outcome String

pub record ComposeStatus : Type 0 where
  pub status : String
  -- a pointer
  pub upload_status : Option UploadStatus
  pub image_requests : List ImageRequest

-- What uuid.Parse and Image Builder answer.
pub record Builder : Type 0 where
  pub parse_uuid : String → Option Error
  pub get_compose_status : String → Outcome (Response ComposeStatus)
  pub get_clone_status : String → Outcome (Response UploadStatus)

abbrev pub success : String
success = "success"

abbrev pub valid : Option Error → Outcome (Unit {0})
valid none = ok tt
valid (some x) = err x

abbrev pub or_clone :
    Outcome (Option UploadStatus) → Outcome (Option UploadStatus) → Outcome (Option UploadStatus)
or_clone (ok status) clone = ok status
or_clone (err x) clone = annotate "could not find image neither in compose nor in clones" clone
or_clone panic clone = panic

abbrev pub as_error : {A : Type 0} → Error → Outcome A → Outcome A
as_error x (ok a) = ok a
as_error x (err y) = err x
as_error x panic = panic

first_request : List ImageRequest → Outcome ImageRequest
first_request [] = err (named image_request_not_found)
first_request (r ∷ requests) = ok r

module _ (builder : Builder) where
  -- ibClient.getComposeStatus: the pointer that it returns.
  unfoldable pub get_compose_status : String → Outcome (Option ComposeStatus)
  unfolding check_status
  get_compose_status compose_id = do
    annotate "unable to parse UUID" (valid (builder.parse_uuid compose_id))
    resp ← annotate "cannot get compose status" (builder.get_compose_status compose_id)
    check_status "fetch image status call" compose_not_found resp.status
    ok resp.json200

  -- ibClient.checkCompose
  unfoldable pub check_compose : String → Outcome (Option UploadStatus)
  unfolding get_compose_status
  check_compose compose_id = do
    pointer ← get_compose_status compose_id
    compose ← deref pointer
    if not (str_eq compose.status success)
        then err (named image_status)
        else ok compose.upload_status

  -- ibClient.checkClone
  unfoldable pub check_clone : String → Outcome (Option UploadStatus)
  unfolding check_status
  check_clone compose_id = do
    annotate "unable to parse UUID" (valid (builder.parse_uuid compose_id))
    resp ← annotate "cannot get compose status" (builder.get_clone_status compose_id)
    check_status "fetch image status call" clone_not_found resp.status
    clone ← deref resp.json200
    if not (str_eq clone.status success) then err (named image_status) else ok (some clone)

  -- ibClient.fetchImageStatus
  unfoldable pub fetch_image_status : String → Outcome (Option UploadStatus)
  unfolding check_compose check_clone
  fetch_image_status compose_id = or_clone (check_compose compose_id) (check_clone compose_id)

  -- ibClient.GetAWSAmi
  unfoldable pub get_aws_ami : String → Outcome String
  unfolding fetch_image_status
  get_aws_ami compose_id = do
    as_error (wrapped "compose ID is not valid UUID" (named bad_request))
        (valid (builder.parse_uuid compose_id))
    pointer ← fetch_image_status compose_id
    upload ← deref pointer
    if not (str_eq upload.type "aws")
        then err (wrapped "expected image type AWS" (named unknown_image_type))
        else as_error (wrapped "not an AWS status" (named upload_status)) upload.as_aws

  -- ibClient.GetAzureImageID: the status of the compose is not looked at.
  unfoldable pub get_azure_image_id : String → Outcome String
  unfolding get_compose_status first_request
  get_azure_image_id compose_id = do
    pointer ← get_compose_status compose_id
    compose ← deref pointer
    upload ← deref compose.upload_status
    if not (str_eq upload.type "azure")
        then err (wrapped "expected image type Azure" (named unknown_image_type))
        else do
          request ← first_request compose.image_requests
          image_name ←
              as_error (wrapped "not an Azure status" (named upload_status)) upload.as_azure
          group ← annotate "failed to decode Azure upload request from IB" request.as_azure_options
          ok (
              String.◌++◌ "/resourceGroups/"
                (String.◌++◌ group (String.◌++◌ "/providers/Microsoft.Compute/images/" image_name)))

  -- ibClient.GetGCPImageName
  unfoldable pub get_gcp_image_name : String → Outcome String
  unfolding fetch_image_status
  get_gcp_image_name compose_id = do
    pointer ← fetch_image_status compose_id
    upload ← deref pointer
    if not (str_eq upload.type "gcp")
        then err (wrapped "expected image type GCP" (named unknown_image_type))
        else do
          image ← as_error (wrapped "not a GCP status" (named upload_status)) upload.as_gcp
          ok (String.◌++◌ "projects/" (String.◌++◌ image.0 (String.◌++◌ "/global/images/" image.1)))
