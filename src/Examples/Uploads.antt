-- ===== src/Examples/Uploads.antt =====
-- Upload information, asked twice: the second answer comes from the cache.
use provisioning_backend.Common.{◌≡◌, refl, true, none, [], ◌∷◌}
use provisioning_backend.Errors.{named, no_rows}
use provisioning_backend.World.{ok, err}
use provisioning_backend.Models.{aws, azure, Authentication}
use provisioning_backend.Services.Uploads.{
  Redis, Clouds, Entries, aws_info, status, get_source_upload_info, get_aws_account_identity,
}

abbrev redis : Redis
redis = record {
  enabled = true;
  get_fault = none;
  decodes = λ s. true;
  encode_fault = none;
  set_fault = none;
}

abbrev amazon_source : Authentication
amazon_source = record {
  source_application_id = "1";
  provider_type = aws;
  payload = "arn:aws:iam::1:role/rh";
}

abbrev clouds : Clouds
clouds = record {
  sources_client = none;
  get_authentication = λ id. ok amazon_source;
  ec2_client = λ auth. none;
  get_account_id = λ auth. ok "12";
  azure_client = λ auth. none;
  tenant_id = λ auth. ok "tenant";
  list_resource_groups = λ auth. ok [];
  render_fault = none;
}

abbrev entries : Entries
entries = ("account_detail_aws7", "12") ∷ []

get_source_upload_info-first : get_source_upload_info redis clouds "7" [] ≡ (aws_info "12", entries)
unfolding get_source_upload_info
get_source_upload_info-first = refl

get_aws_account_identity-again :
    get_aws_account_identity redis
      (record clouds { get_account_id = λ auth. err (named no_rows) })
      "7"
      entries
    ≡ (aws_info "12", entries)
unfolding get_aws_account_identity
get_aws_account_identity-again = refl

get_source_upload_info-azure :
    get_source_upload_info redis
      (record clouds {
        get_authentication =
            λ id. ok (record amazon_source { provider_type = azure; payload = "sub" });
        list_resource_groups = λ auth. err (named no_rows);
      })
      "7"
      []
    ≡ (status 500, ("azure_tenant_id7", "tenant") ∷ [])
unfolding get_source_upload_info
get_source_upload_info-azure = refl
