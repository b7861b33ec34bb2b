-- ===== src/Examples/Setting.antt =====
-- An environment in which everything works, a table with one key, and reservations that wait.
use provisioning_backend.Common.{ℕ, ◌+◌, String, refl, true, false, none, some, List, [], ◌∷◌}
use provisioning_backend.Models.{
  ProviderType, provider_type_from_string, Reservation, Details, AwsDetail, Pubkey, Authentication,
}
use provisioning_backend.World.{ok, State, World, Env}
use provisioning_backend.Jobs.Progress.{Answers, InProgress}

abbrev pub authentication : String → Authentication
authentication source = record {
  source_application_id = "11";
  provider_type = provider_type_from_string source;
  payload = "payload";
}

-- The authentication of a source is for the provider that names it.
abbrev pub sample_env : Env
sample_env = record {
  account_id = 7;
  expired = λ n. false;
  canceled = λ n. false;
  instance_prefix = "";
  launch_enabled = true;
  azure_enabled = true;
  valid_region = λ p r. true;
  find_architecture = λ p t. some "x86_64";
  fault = λ n. none;
  now = λ n. n + 1000;
  enqueue_fault = λ n. none;
  dequeue_fault = λ n. none;
  send_fault = λ n. none;
  render_fault = λ n. none;
  sources_client = λ n. none;
  get_authentication = λ n source. ok (authentication source);
  image_client = λ n. none;
  get_image = λ n p id. ok "image";
  cloud_client = λ n a r. none;
  get_pubkey_name = λ n f. ok "key";
  import_pubkey = λ n k t. ok "handle";
  delete_ssh_key = λ n h. none;
  run_instances = λ n p. ok ("i-1" ∷ "i-2" ∷ [], "r-1");
  describe_instances =
      λ n ids. ok (record { id = "i-1"; public_dns = "one"; public_ipv4 = "10.0.0.1" } ∷ []);
  ensure_resource_group = λ n g l. ok "group";
  create_vms = λ n p. ok (record { id = "vm-1"; public_dns = ""; public_ipv4 = "10.0.0.2" } ∷ []);
  insert_instances = λ n p u. ok ("g-1" ∷ [], "operation");
  list_instances_by_label = λ n u. ok ("g-1" ∷ []);
  get_instance_description =
      λ n i z. ok (record { id = "g-1"; public_dns = ""; public_ipv4 = "10.0.0.3" });
  generate_user_data = λ p off. ok "user data";
  aws_fingerprint = λ b. ok "fingerprint";
  is_uuid = λ t. false;
  new_uuid = λ n. "uuid";
  generate_tag = λ n. "tag";
}

pub sample_env-Answers : Answers sample_env
sample_env-Answers = record { fault = λ n. refl; send = λ n. refl }

abbrev pub sample_row : ProviderType → ℕ → Reservation
sample_row provider steps = record {
  id = 1;
  provider = provider;
  account_id = 7;
  created_at = 5;
  steps = steps;
  step_titles = [];
  step = 0;
  status = "Created";
  error = none;
  finished_at = none;
  success = none;
}

abbrev pub aws_detail : AwsDetail
aws_detail = record {
  region = "us-east-1";
  name = none;
  launch_template_id = "";
  instance_type = "t1.micro";
  amount = 2;
  power_off = false;
  pubkey_name = "";
}

abbrev pub aws_row_details : Details AwsDetail
aws_row_details = record {
  reservation_id = 1;
  pubkey_id = 1;
  source_id = "aws";
  image_id = "ami-1";
  cloud_id = none;
  detail = aws_detail;
}

abbrev pub key : Pubkey
key = record {
  id = 1;
  account_id = 7;
  name = "key";
  body = "ssh-ed25519 body";
  type = "ssh-ed25519";
  fingerprint = "print";
  fingerprint_legacy = "";
}

abbrev pub sample_state : List Reservation → ℕ → State
sample_state rows last = record {
  db = record {
    reservations = rows;
    aws_details = aws_row_details ∷ [];
    azure_details = [];
    gcp_details = [];
    instances = [];
    pubkeys = key ∷ [];
    resources = [];
    last_reservation = last;
    last_pubkey = 1;
    last_resource = 0;
  };
  queue = [];
  notices = [];
  responses = [];
}

-- One reservation waits for its job.
abbrev pub waiting : ProviderType → ℕ → World
waiting provider steps = record {
  state = sample_state (sample_row provider steps ∷ []) 1;
  calls = 0;
}

abbrev pub empty_world : World
empty_world = record { state = sample_state [] 0; calls = 0 }

pub waiting-InProgress :
    (p : ProviderType) (steps : ℕ) → InProgress sample_env 1 steps 0 [] (waiting p steps).state
waiting-InProgress p steps = record {
  row = sample_row p steps;
  stored = record { found = refl; unique = refl };
  total = refl;
  done = refl;
  unfinished = refl;
  no_error = refl;
  told = refl;
}
