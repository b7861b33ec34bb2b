-- ===== src/World.antt =====
-- The state that requests and jobs work on, what stands outside of the program, and the actions
-- that the other modules are made of.
--
-- The database is its tables. A service, a cloud or a library is a function in `Env` of the number of
-- calls made so far and of the arguments, so that each call may answer as it likes, and `fault`
-- tells which calls of the database fail (connection, timeout, violated constraint, rate limit).
pub mod Keeps
use provisioning_backend.Common.{
  ℕ, ◌+◌, String, Bool, Option, none, some, List, [], ◌∷◌, ◌++◌, ◌==◌, if◌then◌else◌, false,
}
use provisioning_backend.Errors.{
  Error, named, wrapped, no_rows, affected_mismatch, deadline_exceeded,
}
use provisioning_backend.Models.{
  ProviderType, Reservation, Details, AwsDetail, AzureDetail, GcpDetail, ReservationInstance,
  InstanceDescription, Pubkey, PubkeyResource, Authentication, Job,
}

pub data Result (A : Type 0) : Type 0 where
  ok : A → Result A
  err : Error → Result A

pub record Db : Type 0 where
  pub reservations : List Reservation
  pub aws_details : List (Details AwsDetail)
  pub azure_details : List (Details AzureDetail)
  pub gcp_details : List (Details GcpDetail)
  pub instances : List ReservationInstance
  pub pubkeys : List Pubkey
  pub resources : List PubkeyResource
  -- The last value that the sequence of each table gave out.
  pub last_reservation : ℕ
  pub last_pubkey : ℕ
  pub last_resource : ℕ

-- A message handed to Kafka by the notification client.
pub data Notice : Type 0 where
  -- the provider, the reservation, its instances
  launch_success : ProviderType → ℕ → List ReservationInstance → Notice
  -- the provider, the reservation, the error
  launch_failed : ProviderType → ℕ → Error → Notice

-- What requests and jobs change.
pub record State : Type 0 where
  pub db : Db
  pub queue : List Job
  pub notices : List Notice
  -- The HTTP statuses written for the request that is handled.
  pub responses : List ℕ

-- The state, and how many calls to the outside have been made.
pub record World : Type 0 where
  pub state : State
  pub open state use *
  pub calls : ℕ

-- The arguments of RunInstances, CreateVMs and InsertInstances that the program chooses.
-- `location` is blank where the client of the cloud has it.
pub record LaunchParams : Type 0 where
  pub launch_template_id : String
  pub instance_type : String
  pub image : String
  pub key : String
  pub user_data : String
  pub amount : ℕ
  pub name : Option String
  pub location : String

pub record Env : Type 0 where
  -- the context of the request or job
  pub account_id : ℕ
  pub expired : ℕ → Bool
  pub canceled : ℕ → Bool
  -- configuration and embedded files
  pub instance_prefix : String
  pub launch_enabled : Bool
  pub azure_enabled : Bool
  pub valid_region : ProviderType → String → Bool
  pub find_architecture : ProviderType → String → Option String
  -- PostgreSQL, Redis, Kafka, the HTTP renderer
  pub fault : ℕ → Option Error
  pub now : ℕ → ℕ
  pub enqueue_fault : ℕ → Option Error
  pub dequeue_fault : ℕ → Option Error
  pub send_fault : ℕ → Option Error
  pub render_fault : ℕ → Option Error
  -- the services Sources and Image Builder
  pub sources_client : ℕ → Option Error
  pub get_authentication : ℕ → String → Result Authentication
  pub image_client : ℕ → Option Error
  pub get_image : ℕ → ProviderType → String → Result String
  -- the clouds
  pub cloud_client : ℕ → Authentication → String → Option Error
  pub get_pubkey_name : ℕ → String → Result String
  pub import_pubkey : ℕ → Pubkey → String → Result String
  pub delete_ssh_key : ℕ → String → Option Error
  pub run_instances : ℕ → LaunchParams → Result (List String × String)
  pub describe_instances : ℕ → List String → Result (List InstanceDescription)
  pub ensure_resource_group : ℕ → String → String → Result String
  pub create_vms : ℕ → LaunchParams → Result (List InstanceDescription)
  pub insert_instances : ℕ → LaunchParams → String → Result (List String × String)
  pub list_instances_by_label : ℕ → String → Result (List String)
  pub get_instance_description : ℕ → String → String → Result InstanceDescription
  -- libraries: text templates, SSH keys, UUIDs, random numbers
  pub generate_user_data : ProviderType → Bool → Result String
  pub aws_fingerprint : String → Result String
  pub is_uuid : String → Bool
  pub new_uuid : ℕ → String
  pub generate_tag : ℕ → String

-- The calls of the database and of Kafka with the context itself: they fail once its deadline passed.
abbrev pub live : Env → Env
live e = record e {
  fault = λ n. if e.expired n then some (named deadline_exceeded) else e.fault n;
  send_fault = λ n. if e.expired n then some (named deadline_exceeded) else e.send_fault n;
}

-- The calls with a copy of the context, which has no deadline and is not canceled.
abbrev pub copied : Env → Env
copied e = record e { expired = λ n. false; canceled = λ n. false }

abbrev pub M : Type 0 → Type 0
M A = Env → World → Result A × World

module _ {A : Type 0} where
  -- An action on the context of the job.
  unfoldable pub on_context : M A → M A
  on_context m e w = m (live e) w

  -- An action that makes a copy of the context first if its deadline has passed (copyContext).
  unfoldable pub copy_context : M A → M A
  copy_context m e w = m (if e.expired w.calls then copied e else live e) w

  unfoldable pub pure : A → M A
  pure a e w = (ok a, w)

  unfoldable pub fail : Error → M A
  fail x e w = (err x, w)

  unfoldable pub lift : Result A → M A
  lift r e w = (r, w)

  -- An answer of a library or of the configuration.
  unfoldable pub read : (Env → Result A) → M A
  read f e w = (f e, w)

  unfoldable pub gets : (Env → World → A) → M A
  gets f e w = (ok (f e w), w)

  -- A call to the outside.
  unfoldable pub call : (Env → ℕ → Result A) → M A
  call f e w = (f e w.calls, record w { calls = w.calls + 1 })

  -- The error as a value: what `if err != nil` looks at.
  unfoldable pub attempt : M A → M (Result A)
  attempt m e w = let (r, w') = m e w in (ok r, w')

unfoldable pub modify : (State → State) → M (Unit {0})
modify f e w = (ok tt, record w { state = f w.state })

abbrev pub mark : {A : Type 0} → String → Result A → Result A
mark message (ok a) = ok a
mark message (err x) = err (wrapped message x)

-- fmt.Errorf("message: %w", err) on the error of a step.
unfoldable pub annotate : {A : Type 0} → String → M A → M A
annotate message m e w = let (r, w') = m e w in (mark message r, w')

-- A call that answers with an error or nil.
abbrev pub of_nil : Option Error → Result (Unit {0})
of_nil none = ok tt
of_nil (some x) = err x

unfoldable pub check : (Env → ℕ → Option Error) → M (Unit {0})
unfolding call
check f = call (λ e n. of_nil (f e n))

-- Run the action for its effect: its error was only logged.
unfoldable pub ignore : {A : Type 0} → M A → M (Unit {0})
ignore m e w = let (r, w') = m e w in (ok tt, w')

-- A query of the database, and what it returns if it does not fail.
unfoldable pub query : {A : Type 0} → (Env → Db → Result A) → M A
query f e w = (
  elim (e.fault w.calls) [ none ↦ f e w.db | some x ↦ err (wrapped "pgx error" x) ],
  record w { calls = w.calls + 1 },
)

-- The test of tag.RowsAffected() after a statement.
abbrev pub expect_one : ℕ → Result (Unit {0})
expect_one n = if n == 1 then ok tt else err (wrapped "expected 1 row" (named affected_mismatch))

-- A statement: the new database and the number of affected rows if it does not fail. The rows are
-- changed whatever their number.
unfoldable pub statement : (Env → ℕ → Db → Db × ℕ) → M (Unit {0})
statement f e w = elim (e.fault w.calls) [
  | none ↦
      let (db', affected) = f e w.calls w.db in
      (expect_one affected, record w { state = record w.state { db = db' }; calls = w.calls + 1 })
  | some x ↦ (err (wrapped "pgx error" x), record w { calls = w.calls + 1 })
]

-- An insertion with RETURNING, or a statement whose number of rows is not tested.
unfoldable pub exec : {A : Type 0} → String → (Env → ℕ → Db → A × Db) → M A
exec message f e w = elim (e.fault w.calls) [
  | none ↦
      let (a, db') = f e w.calls w.db in
      (ok a, record w { state = record w.state { db = db' }; calls = w.calls + 1 })
  | some x ↦ (err (wrapped message x), record w { calls = w.calls + 1 })
]

-- LIMIT 1 into one record: pgx.ErrNoRows if there is none.
abbrev pub one_row : {A : Type 0} → Option A → Result A
one_row none = err (wrapped "pgx error" (named no_rows))
one_row (some a) = ok a

module _ {A B : Type 0} where
  abbrev pub continue : Result A → (A → M B) → M B
  continue (ok a) f e w = f a e w
  continue (err x) f e w = (err x, w)

  infixl 5 ◌>>=◌ ◌>>◌
  unfoldable pub ◌>>=◌ : M A → (A → M B) → M B
  unfolding pure fail lift read gets call attempt modify annotate check ignore query statement exec
  ◌>>=◌ m f e w = let (r, w') = m e w in continue r f e w'

  abbrev pub ◌>>◌ : M A → M B → M B
  m >> k = m >>= λ _. k
