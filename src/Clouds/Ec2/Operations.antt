-- ===== src/Clouds/Ec2/Operations.antt =====
-- Operations of the client of EC2, one after the other, and for whom they ask (internal/clients/http/ec2/ec2_client.go).
use Prim.Native.String
use provisioning_backend.Common.{
  ℕ, ◌≡◌, refl, String, Bool, true, false, Option, none, some, List, [], ◌∷◌, ◌++◌, All-append, not,
  if_elim,
}
use provisioning_backend.Errors.{Error, named, service_account_unsupported_operation}
use provisioning_backend.Models.{aws, Authentication, must_be, Pubkey}
use provisioning_backend.Backends.Outcome.{Outcome, ok, err, deref}
use provisioning_backend.Clouds.Actions.{Action, pure, lift, attempt, ◌>>=◌, ◌>>◌}
use provisioning_backend.Clouds.Actions.Keeps.{
  Keeps, pure-Keeps, lift-Keeps, annotate-Keeps, attempt-Keeps, >>=-Keeps,
}
use provisioning_backend.Clouds.Ec2.Types.{deref_all}
use provisioning_backend.Clouds.Ec2.{
  session, Client, Call, import_key_pair, describe_key_pairs, delete_key_pair, run_instances,
  describe_regions, describe_availability_zones, describe_instances, next_instance_types,
  next_launch_templates, get_caller_identity, Request, Params, Sdk, Config, call, unauthorized_or,
  unless_service, new_ec2_client_with_region, new_assumed_ec2_client_with_region, import_pubkey,
  get_pubkey_name, delete_ssh_key, list_all_regions, list_all_zones, collect, list_instance_types,
  list_launch_templates, describe_instance_details, run_instances_of, get_account_id,
}

-- The calls that the program keeps from a client of the service: they import, look up or delete a key of an
-- account, or start machines. The description of machines is not among them.
abbrev pub needs_role : Call → Bool
needs_role (import_key_pair name body tag) = true
needs_role (describe_key_pairs fingerprint) = true
needs_role (delete_key_pair id) = true
needs_role (run_instances input) = true
needs_role _ = false

-- What the program may ask of a client.
pub data Operation : Type 0 where
  imports : Pubkey → String → Operation
  names deletes : String → Operation
  runs : Params → ℕ → Option String → ℕ → Operation
  lists_regions lists_types lists_templates reads_account : Operation
  lists_zones : String → Operation
  describes : List String → Operation

not-false : (b : Bool) → not b ≡ false → b ≡ true
not-false true e = refl
not-false false e = absurd (cc)

module _ (sdk : Sdk) (config : Config) where
  abbrev done : {A : Type 0} → Action Request A → Action Request (Unit {0})
  done m = m >> pure tt

  abbrev pub run_operation : Client → Operation → Action Request (Unit {0})
  run_operation c (imports key tag) = done (import_pubkey sdk config c key tag)
  run_operation c (names fingerprint) = done (get_pubkey_name sdk config c fingerprint)
  run_operation c (deletes handle) = delete_ssh_key sdk config c handle
  run_operation c (runs params amount name id) =
      done (run_instances_of sdk config c params amount name id)
  run_operation c lists_regions = done (list_all_regions sdk config c)
  run_operation c lists_types = done (list_instance_types sdk config c)
  run_operation c lists_templates = done (list_launch_templates sdk config c)
  run_operation c reads_account = done (get_account_id sdk config c)
  run_operation c (lists_zones region) = done (list_all_zones sdk config c region)
  run_operation c (describes ids) = done (describe_instance_details sdk config c ids)

  -- Some operations one after the other, whether they fail or not.
  abbrev pub run_operations : Client → List Operation → Action Request (Unit {0})
  run_operations c [] = pure tt
  run_operations c (op ∷ ops) = attempt (run_operation c op) >> run_operations c ops

  -- GetEC2Client with an authentication, or GetServiceEC2Client.
  abbrev pub open_client : Option Authentication → String → Action Request Client
  open_client none region = new_ec2_client_with_region sdk config region
  open_client (some auth) region = new_assumed_ec2_client_with_region sdk config auth region

  -- A client that works with the keys that AWS gave for the role of the authentication.
  abbrev pub IsOfRole : Option Authentication → Client → Type 0
  IsOfRole from c =
      (auth : Authentication) × (from ≡ some auth)
      × (must_be auth aws ≡ none)
      × (log : List Request) × (key : String) × (secret : String) × (token : String)
      × (sdk.assumed_credentials log auth.payload ≡ ok (some key, (some secret, some token)))
      × (c.credentials ≡ session key secret token)

  -- A request that needs the role is by a client of the role.
  abbrev pub IsAllowed : Option Authentication → Request → Type 0
  IsAllowed from r = needs_role r.call ≡ true → IsOfRole from r.client

  module _ (from : Option Authentication) (c : Client) where
    pub call-Keeps :
        {A : Type 0} (message : String) (of_error : Error → Error)
        (answer : List Request → Outcome A) (r : Call)
        → (needs_role r ≡ true → IsOfRole from c)
        → Keeps (IsAllowed from) (call sdk config c message of_error answer r)
    unfolding call
    call-Keeps message of_error answer r allowed log h =
        All-append (IsAllowed from) log (record { client = c; call = r } ∷ []) h (allowed, tt)

    read-Keeps :
        {A B : Type 0} (message : String) (of_error : Error → Error)
        (answer : List Request → Outcome A) (r : Call) (f : A → Outcome B)
        → (needs_role r ≡ true → IsOfRole from c)
        → Keeps (IsAllowed from) (call sdk config c message of_error answer r >>= λ a. lift (f a))
    read-Keeps message of_error answer r f allowed =
        >>=-Keeps (IsAllowed from) (call sdk config c message of_error answer r) (λ a. lift (f a))
          (call-Keeps message of_error answer r allowed)
          (λ a _ _ _. lift-Keeps (IsAllowed from) (f a))

    done-Keeps :
        {A : Type 0} (m : Action Request A)
        → Keeps (IsAllowed from) m
        → Keeps (IsAllowed from) (done m)
    done-Keeps m k =
        >>=-Keeps (IsAllowed from) m (λ _. pure tt) k (λ _ _ _ _. pure-Keeps (IsAllowed from) tt)

    collect-Keeps :
        {A : Type 0} (message : String) (next : Call) (pages : List (Outcome (List A)))
        (res : List A)
        → (needs_role next ≡ true → IsOfRole from c)
        → Keeps (IsAllowed from) (collect sdk config c message next pages res)
    unfolding collect
    collect-Keeps message next [] res allowed = pure-Keeps (IsAllowed from) res
    collect-Keeps message next (page ∷ pages) res allowed =
        >>=-Keeps (IsAllowed from)
          (call sdk config c message (unauthorized_or sdk config) (λ log. page) next)
          (λ l. collect sdk config c message next pages (res ++ l))
          (call-Keeps message (unauthorized_or sdk config) (λ log. page) next allowed)
          (λ l _ _ _. collect-Keeps message next pages (res ++ l) allowed)

    module _ (opened : c.assumed ≡ true → IsOfRole from c) where
      unless_service-Keeps :
          {A : Type 0} (m : Action Request A)
          → (IsOfRole from c → Keeps (IsAllowed from) m)
          → Keeps (IsAllowed from) (unless_service sdk config c m)
      unfolding unless_service
      unless_service-Keeps m k =
          if_elim (Keeps (IsAllowed from)) (not c.assumed)
            (lift (err (named service_account_unsupported_operation))) m
            (λ _. lift-Keeps (IsAllowed from) (err (named service_account_unsupported_operation)))
            (λ f. k (opened (not-false c.assumed f)))

      run_operation-Keeps : (op : Operation) → Keeps (IsAllowed from) (run_operation c op)
      unfolding import_pubkey get_pubkey_name delete_ssh_key run_instances_of list_all_regions
          list_all_zones list_instance_types list_launch_templates describe_instance_details
          get_account_id
      run_operation-Keeps (imports key tag) = done-Keeps _ (
          unless_service-Keeps _ (λ role.
            read-Keeps _ _ sdk.key_pair_id (import_key_pair key.name key.body tag) deref
              (λ _. role)))
      run_operation-Keeps (names fingerprint) = done-Keeps _ (
          unless_service-Keeps _
            (λ role. read-Keeps _ _ sdk.key_pairs (describe_key_pairs fingerprint) _ (λ _. role)))
      run_operation-Keeps (deletes handle) = unless_service-Keeps _ (λ role.
          call-Keeps (String.◌++◌ "cannot delete SSH key " (sdk.pointer_text handle))
            (unauthorized_or sdk config) sdk.deleted (delete_key_pair handle) (λ _. role))
      run_operation-Keeps (runs params amount name id) = done-Keeps _ (
          unless_service-Keeps _ (λ role.
            call-Keeps "cannot run instances" (unauthorized_or sdk config) sdk.ran (run_instances _)
              (λ _. role)))
      run_operation-Keeps lists_regions =
          done-Keeps _ (read-Keeps _ _ sdk.regions describe_regions deref_all (λ e. absurd (cc)))
      run_operation-Keeps lists_types = done-Keeps _ (
          >>=-Keeps (IsAllowed from) _ _
            (collect-Keeps _ next_instance_types sdk.type_pages [] (λ e. absurd (cc)))
            (λ res _ _ _. annotate-Keeps (IsAllowed from) _ _ (lift-Keeps (IsAllowed from) _)))
      run_operation-Keeps lists_templates = done-Keeps _ (
          >>=-Keeps (IsAllowed from) _ _
            (collect-Keeps _ next_launch_templates sdk.template_pages [] (λ e. absurd (cc)))
            (λ res _ _ _. pure-Keeps (IsAllowed from) _))
      run_operation-Keeps reads_account =
          done-Keeps _ (read-Keeps _ _ sdk.account get_caller_identity deref (λ e. absurd (cc)))
      run_operation-Keeps (lists_zones region) = done-Keeps _ (
          read-Keeps _ _ sdk.zones (describe_availability_zones region) deref_all
            (λ e. absurd (cc)))
      run_operation-Keeps (describes ids) = done-Keeps _ (
          >>=-Keeps (IsAllowed from) _ _
            (call-Keeps "cannot fetch instances description" (unauthorized_or sdk config)
              sdk.reservations (describe_instances ids) (λ e. absurd (cc)))
            (λ res _ _ _. annotate-Keeps (IsAllowed from) _ _ (lift-Keeps (IsAllowed from) _)))

      pub run_operations-Keeps :
          (ops : List Operation) → Keeps (IsAllowed from) (run_operations c ops)
      run_operations-Keeps [] = pure-Keeps (IsAllowed from) tt
      run_operations-Keeps (op ∷ ops) =
          >>=-Keeps (IsAllowed from) _ _ (attempt-Keeps (IsAllowed from) _ (run_operation-Keeps op))
            (λ _ _ _ _. run_operations-Keeps ops)
