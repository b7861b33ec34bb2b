-- ===== src/Statuser.antt =====
-- The process that checks the availability of sources (cmd/pbackend/statuser.go): the handler of messages,
-- the checks of the three clouds, and the sender of results. A channel is the list of what was put on it.
-- Random draws, cancellation and clouds are parameters; delays and metrics are left out.
pub mod Checks
pub mod Results
use provisioning_backend.Common.{
  ℕ, suc, String, Bool, true, false, Option, none, some, List, [], ◌∷◌, ◌++◌, length, leb, ltb,
  if◌then◌else◌,
}
use provisioning_backend.Errors.{Error}
use provisioning_backend.Models.{ProviderType, unknown, noop, aws, azure, gcp, Authentication}
use provisioning_backend.Kafka.{
  GenericMessage, Principal, Topics, SourceResult, available, unavailable, send, result_message,
}
use provisioning_backend.Background.{Sender, send_buffer}
use provisioning_backend.Iam.{Iam, check_permission}
use provisioning_backend.Backends.Outcome.{Outcome}
use provisioning_backend.Backends.Sources.{Service, get_authentication}
use provisioning_backend.World.{Result, ok, err}

pub record SourceInfo : Type 0 where
  pub message_context : Principal
  pub authentication : Authentication
  pub source_application_id : String

pub record Channels : Type 0 where
  pub aws_sources : List SourceInfo
  pub azure_sources : List SourceInfo
  pub gcp_sources : List SourceInfo

-- The switch of processMessage.
unfoldable pub dispatch : ProviderType → SourceInfo → Channels → Channels
dispatch aws s c = record c { aws_sources = c.aws_sources ++ s ∷ [] }
dispatch azure s c = record c { azure_sources = c.azure_sources ++ s ∷ [] }
dispatch gcp s c = record c { gcp_sources = c.gcp_sources ++ s ∷ [] }
dispatch noop s c = c
dispatch unknown s c = c

abbrev pub source_info : Principal → Authentication → SourceInfo
source_info id a = record {
  message_context = id;
  authentication = a;
  source_application_id = a.source_application_id;
}

module _ (unmarshal : String → Result String) (sources_client : Option Error)
    (service : Service) where
  abbrev pub queue_source : Principal → Outcome Authentication → Channels → Outcome Channels
  queue_source id (Outcome.ok a) c = Outcome.ok (dispatch a.provider_type (source_info id a) c)
  queue_source id (Outcome.err x) c = Outcome.ok c
  queue_source id Outcome.panic c = Outcome.panic

  -- processMessage: an error is only logged.
  unfoldable pub process_message : Principal → GenericMessage → Channels → Outcome Channels
  unfolding dispatch
  process_message id message c = elim (unmarshal message.value) [
    | err x ↦ Outcome.ok c
    | ok source_id ↦ elim sources_client [
      | some x ↦ Outcome.ok c
      | none ↦ queue_source id (get_authentication service source_id) c
    ]
  ]

abbrev pub no_result : SourceInfo → SourceResult
no_result s = record {
  message_context = s.message_context;
  resource_id = s.source_application_id;
  resource_type = "Application";
  status = unavailable;
  error = none;
  missing_permissions = [];
}

unfoldable pub azure_result : SourceInfo → SourceResult
azure_result s = record (no_result s) { status = available }

-- The error of GetEC2Client, or else what CheckPermission returned.
abbrev pub permission_result : SourceInfo → Option Error → List String × Option Error → SourceResult
permission_result s (some x) answer = record (no_result s) { error = some x }
permission_result s none (permissions, none) = record (no_result s) { status = available }
permission_result s none (permissions, some x) = record (no_result s) {
  error = some x;
  missing_permissions = permissions;
}

module _ (ec2_client : Authentication → Option Error) (iam : Authentication → Iam) where
  unfoldable pub aws_result : SourceInfo → SourceResult
  unfolding check_permission
  aws_result s =
      permission_result s (ec2_client s.authentication)
        (check_permission (iam s.authentication) s.authentication.payload)

module _ (gcp_client list_all_regions : Authentication → Option Error) where
  abbrev regions_result : SourceInfo → Option Error → SourceResult
  regions_result s none = record (no_result s) { status = available }
  regions_result s (some x) = record (no_result s) { error = some x }

  -- The results that are sent, and whether the call on the client that is nil panics after them.
  unfoldable pub gcp_results : SourceInfo → List SourceResult × Bool
  gcp_results s = elim (gcp_client s.authentication) [
    | some x ↦ (record (no_result s) { error = some x } ∷ [], true)
    | none ↦ (regions_result s (list_all_regions s.authentication) ∷ [], false)
  ]

-- The loops over a channel: `skip` tells for which round the random number is above the rate, `cancelled`
-- after which the context is seen to be cancelled.
module _ (skip cancelled : ℕ → Bool) where
  unfoldable pub check_sources :
      (SourceInfo → SourceResult) → ℕ → List SourceInfo → List SourceResult
  check_sources result i [] = []
  check_sources result i (s ∷ sources) =
      let rest = check_sources result (suc i) sources in
      if skip i then rest else if cancelled i then result s ∷ [] else result s ∷ rest

  -- checkSourceAvailabilityAzure
  unfoldable pub check_source_availability_azure : List SourceInfo → List SourceResult
  unfolding check_sources azure_result
  check_source_availability_azure = check_sources azure_result 0

  -- checkSourceAvailabilityAWS
  unfoldable pub check_source_availability_aws :
      (Authentication → Option Error) → (Authentication → Iam) → List SourceInfo → List SourceResult
  unfolding check_sources aws_result
  check_source_availability_aws ec2_client iam = check_sources (aws_result ec2_client iam) 0

  abbrev and_rest : List SourceResult × Bool → List SourceResult × Bool → List SourceResult × Bool
  and_rest (rs, true) rest = (rs, true)
  and_rest (rs, false) rest = (rs ++ rest.0, rest.1)

  gcp_loop :
      (SourceInfo → List SourceResult × Bool) → ℕ → List SourceInfo → List SourceResult × Bool
  gcp_loop results i [] = ([], false)
  gcp_loop results i (s ∷ sources) =
      let rest = gcp_loop results (suc i) sources in
      if skip i then rest else and_rest (results s) (if cancelled i then ([], false) else rest)

  -- checkSourceAvailabilityGCP
  unfoldable pub check_source_availability_gcp :
      (Authentication → Option Error)
      → (Authentication → Option Error)
      → List SourceInfo
      → List SourceResult × Bool
  unfolding gcp_loop gcp_results
  check_source_availability_gcp gcp_client list_all_regions =
      gcp_loop (gcp_results gcp_client list_all_regions) 0

-- What the `select` of sendResults takes up.
pub data ResultEvent : Type 0 where
  result : SourceResult → ResultEvent
  tick done : ResultEvent

module _ (marshal : SourceResult → Result String) (topics : Topics) (fault : ℕ → Option Error) where
  abbrev pub push_result : ℕ → Result GenericMessage → Sender → Sender
  push_result batch_size (err x) s = s
  push_result batch_size (ok m) s =
      let messages = s.buffer ++ m ∷ [] in
      if leb batch_size (length messages)
      then record s { buffer = []; log = (send fault messages s.log).1 }
      else record s { buffer = messages }

  -- One round of the loop of sendResults.
  unfoldable pub results_step : ℕ → ResultEvent → Sender → Sender
  unfolding send result_message
  results_step batch_size (result sr) s =
      push_result batch_size (result_message marshal topics sr.message_context sr) s
  results_step batch_size tick s =
      if ltb 0 (length s.buffer)
      then record s { buffer = []; log = (send fault s.buffer s.log).1 }
      else s
  results_step batch_size done s =
      record (if ltb 0 (length s.buffer)
        then record s { buffer = []; log = (send fault s.buffer s.log).1 }
        else s) { buffer = []; running = false }

  -- sendResults, from what it holds on, on the events that follow.
  unfoldable pub send_results : ℕ → List ResultEvent → Sender → Sender
  unfolding results_step
  send_results batch_size [] s = s
  send_results batch_size (ev ∷ events) s =
      let rest = send_results batch_size events (results_step batch_size ev s) in
      if s.running then rest else s
