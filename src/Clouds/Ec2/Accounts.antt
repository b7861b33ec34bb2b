-- ===== src/Clouds/Ec2/Accounts.antt =====
-- In whose account the client of EC2 works (internal/clients/http/ec2/ec2_client.go).
use provisioning_backend.Common.{
  ◌≡◌, refl, sym, ap, ◌∙◌, String, true, Option, none, some, List, [], All,
}
use provisioning_backend.Errors.{Error}
use provisioning_backend.Models.{aws, Authentication, must_be}
use provisioning_backend.Backends.Outcome.{Outcome, ok, err, panic, deref, deref-ok}
use provisioning_backend.Clouds.Actions.{
  Action, Run, pure-Run, lift-Run, annotate-Run, >>=-Run, lift, annotate, ◌>>=◌,
}
use provisioning_backend.Clouds.Actions.Keeps.{
  Keeps, pure-Keeps, lift-Keeps, annotate-Keeps, >>=-Keeps,
}
use provisioning_backend.Clouds.Ec2.{
  of_nil, get_sts_assumed_credentials, Client, Call, assume_role, mapped, Request, Sdk, Config,
  call, new_ec2_client_with_region, new_assumed_ec2_client_with_region,
}
use provisioning_backend.Clouds.Ec2.Operations.{
  Operation, run_operations, open_client, IsOfRole, IsAllowed, call-Keeps, run_operations-Keeps,
}

module _ (sdk : Sdk) (config : Config) where
  of_nil-ok : (o : Option Error) {u : Unit {0}} → of_nil o ≡ ok u → o ≡ none
  of_nil-ok none e = refl
  of_nil-ok (some x) e = absurd (cc)

  call-Run :
      {A : Type 0} (c : Client) (message : String) (of_error : Error → Error)
      (answer : List Request → Outcome A) (r : Call) (a : A) (log log' : List Request)
      → Run (call sdk config c message of_error answer r) log a log'
      → answer log ≡ ok a
  unfolding call
  call-Run {A} c message of_error answer r a log log' h = of_answer (answer log) (ap (λ p. p.0) h)
    where
      of_answer : (o : Outcome A) → mapped sdk config message of_error o ≡ ok a → o ≡ ok a
      of_answer (ok b) e = e
      of_answer (err x) e = absurd (cc)
      of_answer panic e = absurd (cc)

  given_by :
      (o : Option String) (s : String) (log log' : List Request)
      → Run (lift {R = Request} (deref o)) log s log'
      → o ≡ some s
  given_by o s log log' h = deref-ok o s (lift-Run (deref o) s log log' h).0

  same_triple :
      {keys : Option String × (Option String × Option String)} {k s t : Option String}
      → keys.0 ≡ k
      → keys.1.0 ≡ s
      → keys.1.1 ≡ t
      → keys ≡ (k, (s, t))
  same_triple {keys = (k', (s', t'))} e f g = cc

  lifted :
      {A : Type 0} (from : Option Authentication) (first second : String) (m : Action Request A)
      → Keeps (IsAllowed sdk config from) m
      → Keeps (IsAllowed sdk config from) (annotate first (annotate second m))
  lifted from first second m k =
      annotate-Keeps (IsAllowed sdk config from) first (annotate second m)
        (annotate-Keeps (IsAllowed sdk config from) second m k)

  open_client-opened :
      (from : Option Authentication) (region : String) (c : Client) (log log' : List Request)
      → Run (open_client sdk config from region) log c log'
      → c.assumed ≡ true
      → IsOfRole sdk config from c
  unfolding new_ec2_client_with_region new_assumed_ec2_client_with_region
      get_sts_assumed_credentials
  open_client-opened none region c log log' h assumed =
      let (_, l1, _, rest) = >>=-Run _ _ c log log' h in
      let (same, _) = pure-Run _ c l1 log' rest in absurd (cc)
  open_client-opened (some auth) region c log log' h assumed =
      let (_, l1, typed, rest) = >>=-Run _ _ c log log' h in
      let (of_aws, _) =
        lift-Run (of_nil (must_be auth aws)) _ log l1 (annotate-Run _ (lift _) _ log l1 typed) in
      let (keys, l2, given, rest2) = >>=-Run _ _ c l1 log' rest in
      let (_, l3, _, asked) = >>=-Run _ _ keys l1 l2 given in
      let (key, l4, k, rest3) = >>=-Run _ _ c l2 log' rest2 in
      let (secret, l5, s, rest4) = >>=-Run _ _ c l4 log' rest3 in
      let (token, l6, t, rest5) = >>=-Run _ _ c l5 log' rest4 in
      let (_, l7, _, made) = >>=-Run _ _ c l6 log' rest5 in
      let (same, _) = pure-Run _ c l7 log' made in
      let same_keys : keys ≡ (some key, (some secret, some token)) =
        same_triple (given_by keys.0 key l2 l4 k) (given_by keys.1.0 secret l4 l5 s)
          (given_by keys.1.1 token l5 l6 t) in
      (
        auth,
        refl,
        of_nil-ok (must_be auth aws) of_aws,
        l3,
        key,
        secret,
        token,
        call-Run _ _ _ (λ log. sdk.assumed_credentials log auth.payload) _ keys l3 l2 asked
            ∙ ap ok same_keys,
        ap (λ c. c.credentials) (sym same),
      )

  open_client-Keeps :
      (from : Option Authentication) (region : String)
      → Keeps (IsAllowed sdk config from) (open_client sdk config from region)
  unfolding new_ec2_client_with_region new_assumed_ec2_client_with_region
      get_sts_assumed_credentials
  open_client-Keeps none region =
      >>=-Keeps (IsAllowed sdk config none) _ _
        (lifted none _ _ _ (lift-Keeps (IsAllowed sdk config none) _))
        (λ _ _ _ _. pure-Keeps (IsAllowed sdk config none) _)
  open_client-Keeps (some auth) region =
      let P = IsAllowed sdk config (some auth) in
      >>=-Keeps P _ _ (annotate-Keeps P _ _ (lift-Keeps P _)) (λ _ _ _ _.
        >>=-Keeps P _ _
          (>>=-Keeps P _ _ (lifted (some auth) _ _ _ (lift-Keeps P _)) (λ _ _ _ _.
            call-Keeps sdk config (some auth) _ "cannot assume role" (λ x. x)
              (λ log. sdk.assumed_credentials log auth.payload) (assume_role auth.payload "name")
              (λ e. absurd (cc))))
          (λ keys _ _ _. >>=-Keeps P _ _ (lift-Keeps P _) (λ key _ _ _.
            >>=-Keeps P _ _ (lift-Keeps P _) (λ secret _ _ _.
              >>=-Keeps P _ _ (lift-Keeps P _) (λ token _ _ _.
                >>=-Keeps P _ _ (lifted (some auth) _ _ _ (lift-Keeps P _))
                  (λ _ _ _ _. pure-Keeps P _))))))

  -- Whatever AWS answers: when the program opens a client of EC2, for an authentication or for the service, and asks
  -- some operations of it, of which any may fail, then every request that imports, looks up or deletes a key or starts
  -- machines is made with keys that AWS gave for the role of that authentication, which is one of AWS.
  pub run_operations-IsAllowed :
      (from : Option Authentication) (region : String) (ops : List Operation)
      → All
          (IsAllowed sdk config from)
          (((open_client sdk config from region) >>= λ c. run_operations sdk config c ops) []).1
  run_operations-IsAllowed from region ops =
      >>=-Keeps (IsAllowed sdk config from) (open_client sdk config from region)
        (λ c. run_operations sdk config c ops) (open_client-Keeps from region)
        (λ c log log' made.
          run_operations-Keeps sdk config from c (open_client-opened from region c log log' made)
            ops)
        [] tt
