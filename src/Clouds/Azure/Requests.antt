-- ===== src/Clouds/Azure/Requests.antt =====
-- What the client of Azure asks when it creates one resource (create_vm.go).
use mathlib.Core.List.{append_assoc}
use provisioning_backend.Common.{String, ◌≡◌, ap, ◌∙◌, List, [], ◌∷◌, ◌++◌}
use provisioning_backend.Backends.Outcome.{ok}
use provisioning_backend.Clouds.Actions.{
  Action, Run, lift, ◌>>◌, lift-Run, send-Run, annotate-Run, >>=-Run,
}
use provisioning_backend.Clouds.Azure.{
  Request, Resource, Reply, Sdk, start, poll, of_nil, ask, new_client, create,
}

-- A creation: what it starts and polls.
abbrev pub creation : String → String → Resource → List Request
creation group name r = start group name r ∷ poll group name r ∷ []

module _ (sdk : Sdk) where
  pub client-Run :
      {A : Type 0} (kind : String) (m : Action Request A) (a : A) (log log' : List Request)
      → Run (new_client sdk kind >> m) log a log'
      → Run m log a log'
  client-Run kind m a log log' h =
      let (u, mid, made, rest) = >>=-Run (new_client sdk kind) (λ _. m) a log log' h in
      let (_, same) =
        lift-Run (of_nil (sdk.new_client kind)) u log mid
          (annotate-Run _ (lift _) u log mid made) in
      rw same rest

  -- What the end of a creation answered.
  abbrev pub IsPolled : String → String → Resource → Reply → Type 0
  IsPolled group name r a = (log : List Request) × (sdk.answer log (poll group name r) ≡ ok a)

  pub create-Run :
      (kind group name : String) (r : Resource) (a : Reply) (log log' : List Request)
      → Run (create sdk kind group name r) log a log'
      → (log' ≡ log ++ creation group name r) × IsPolled group name r a
  create-Run kind group name r a log log' h =
      let (b, mid, started, polled) = >>=-Run _ _ a log log' h in
      let (_, e) =
        send-Run sdk.answer (start group name r) b log mid
          (annotate-Run _ (ask sdk _) b log mid started) in
      let (answered, f) =
        send-Run sdk.answer (poll group name r) a mid log'
          (annotate-Run _ (ask sdk _) a mid log' polled) in
      (
        f
            ∙ ap (λ l. l ++ poll group name r ∷ []) e
            ∙ append_assoc log (start group name r ∷ []) (poll group name r ∷ []),
        (mid, answered),
      )
