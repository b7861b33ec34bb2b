-- ===== src/Clouds/Azure/Networking.antt =====
-- The network that the machines of a request share (ensureSharedNetworking of create_vm.go).
use mathlib.Core.List.{append_assoc, append-nil}
use provisioning_backend.Common.{
  String, ◌≡◌, ◌⊎◌, inl, inr, refl, sym, ap, ◌∙◌, List, [], ◌∷◌, ◌++◌, if_elim, true,
}
use provisioning_backend.Errors.{Error, wrapped}
use provisioning_backend.Backends.Outcome.{Outcome, ok, err, panic}
use provisioning_backend.Clouds.Actions.{
  Action, Run, lift, attempt, send, pure-Run, lift-Run, >>=-Run,
}
use provisioning_backend.Clouds.Azure.{
  Request, Reply, Sdk, Params, get_virtual_network, virtual_network, subnetwork, security_group,
  security_rules, vnet_name, subnet_name, nsg_name, vpn_ip_address, create, found_or,
  create_virtual_network, create_subnets, create_network_security_group, ensure_shared_networking,
}
use provisioning_backend.Clouds.Azure.Requests.{creation, IsPolled, client-Run, create-Run}

-- The subnet and security group that the machines share: the virtual network is created where it is not found.
abbrev pub shared_requests : Params → List Request → List Request
shared_requests params vnet_requests =
    let group = params.resource_group_name in
    get_virtual_network group vnet_name ∷ vnet_requests
    ++ (creation group subnet_name (subnetwork vnet_name vpn_ip_address)
        ++ creation group nsg_name (security_group params.location security_rules))

chain :
    {l1 l2 l3 log' : List Request} (log : List Request) (r : Request) (a b c : List Request)
    → l1 ≡ (log ++ r ∷ []) ++ a
    → l2 ≡ l1 ++ b
    → l3 ≡ l2 ++ c
    → l3 ≡ log'
    → log' ≡ log ++ (r ∷ a ++ (b ++ c))
chain {l1} {l2} {l3} {log'} log r a b c e1 e2 e3 e4 =
    let assoc : (((log ++ r ∷ []) ++ a) ++ b) ++ c ≡ log ++ (r ∷ a ++ (b ++ c)) =
      append_assoc ((log ++ r ∷ []) ++ a) b c
      ∙ append_assoc (log ++ r ∷ []) a (b ++ c)
      ∙ append_assoc log (r ∷ []) (a ++ (b ++ c)) in
    cc

module _ (sdk : Sdk) where
  found_or-Run :
      (got : Outcome Reply) (message : String) (otherwise : Action Request Reply) (r : Reply)
      (log log' : List Request)
      → Run (found_or sdk got message otherwise) log r log'
      → ((got ≡ ok r) × (log' ≡ log))
        ⊎ ((x : Error) × (got ≡ err x) × (sdk.is_not_found x ≡ true) × Run otherwise log r log')
  found_or-Run (ok a) message otherwise r log log' h =
      let (same, end) = pure-Run a r log log' h in inl (ap ok same, sym end)
  found_or-Run (err x) message otherwise r log log' h =
      if_elim
        (λ m.
          Run m log r log'
          → ((◌≡◌ {A = Outcome Reply} (err x) (ok r)) × (log' ≡ log))
            ⊎ ((y : Error) × (◌≡◌ {A = Outcome Reply} (err x) (err y))
                × (sdk.is_not_found y ≡ true)
                × Run otherwise log r log'))
        (sdk.is_not_found x) otherwise (lift (err (wrapped message x))) (λ t m. inr (x, refl, t, m))
        (λ _ m. let (failed, _) = lift-Run (err (wrapped message x)) r log log' m in absurd (cc)) h
  found_or-Run panic message otherwise r log log' h =
      let (failed, _) = lift-Run panic r log log' h in absurd (cc)

  -- Whether the virtual network is created: it is when the answer is that it is not found, not when it is there.
  abbrev pub IsCreatedIfMissing : Params → List Request → List Request → Type 0
  IsCreatedIfMissing params log created =
      let group = params.resource_group_name in
      let got = sdk.answer log (get_virtual_network group vnet_name) in
      ((r : Reply) × (got ≡ ok r) × (created ≡ []))
      ⊎ ((x : Error) × (got ≡ err x)
          × (sdk.is_not_found x ≡ true)
          × (created ≡ creation group vnet_name (virtual_network params.location vpn_ip_address)))

  create_virtual_network-Run :
      (params : Params) (r : Reply) (log log' : List Request)
      → Run
          (create_virtual_network sdk params.location params.resource_group_name vnet_name)
          log
          r
          log'
      → (created : List Request) × IsCreatedIfMissing params log created
        × (log' ≡ (log ++ get_virtual_network params.resource_group_name vnet_name ∷ []) ++ created)
  unfolding create_virtual_network attempt send
  create_virtual_network-Run params r log log' h =
      let group = params.resource_group_name in
      let asked_log = log ++ get_virtual_network group vnet_name ∷ [] in
      let (got, l1, asked, rest) =
        >>=-Run _ _ r log log' (client-Run sdk "Virtual networks" _ r log log' h) in
      let e1 : asked_log ≡ l1 = ap (λ p. p.1) asked in
      let answered : sdk.answer log (get_virtual_network group vnet_name) ≡ got = cc in
      elim (found_or-Run got _
        (create sdk "virtual network" group vnet_name
          (virtual_network params.location vpn_ip_address))
        r l1 log' rest) [
          | inl (found, same) ↦
              ([], inl (r, answered ∙ found, refl), same ∙ sym e1 ∙ sym (append-nil asked_log))
          | inr (x, failed, missing, made) ↦ (
            creation group vnet_name (virtual_network params.location vpn_ip_address),
            inr (x, answered ∙ failed, missing, refl),
            (create-Run sdk "virtual network" group vnet_name _ r l1 log' made).0
                ∙ ap
                    (λ l.
                      l
                      ++ creation group vnet_name (virtual_network params.location vpn_ip_address))
                    (sym e1),
          )
        ]

  -- The subnet and the security group are those that were created.
  abbrev pub IsShared : Params → Reply → Reply → Type 0
  IsShared params subnet nsg =
      IsPolled sdk params.resource_group_name subnet_name (subnetwork vnet_name vpn_ip_address)
        subnet
      × IsPolled sdk params.resource_group_name nsg_name
          (security_group params.location security_rules) nsg

  pub ensure_shared_networking-Run :
      (params : Params) (subnet nsg : Reply) (log log' : List Request)
      → Run
          (ensure_shared_networking sdk params.location params.resource_group_name)
          log
          (subnet, nsg)
          log'
      → (created : List Request) × IsCreatedIfMissing params log created
        × IsShared params subnet nsg
        × (log' ≡ log ++ shared_requests params created)
  unfolding ensure_shared_networking create_subnets create_network_security_group
  ensure_shared_networking-Run params subnet nsg log log' h =
      let group = params.resource_group_name in
      let (vnet, l1, first, rest) = >>=-Run _ _ (subnet, nsg) log log' h in
      let (created, missing, e1) = create_virtual_network-Run params vnet log l1 first in
      let (s, l2, second, rest2) = >>=-Run _ _ (subnet, nsg) l1 log' rest in
      let (e2, (l, subnet_answer)) =
        create-Run sdk "subnet" group subnet_name _ s l1 l2 (client-Run sdk _ _ s l1 l2 second) in
      let (n, l3, third, done) = >>=-Run _ _ (subnet, nsg) l2 log' rest2 in
      let (e3, (l', nsg_answer)) =
        create-Run sdk "network security group" group nsg_name _ n l2 l3
          (client-Run sdk _ _ n l2 l3 third) in
      let (same, end) = pure-Run (s, n) (subnet, nsg) l3 log' done in
      (
        created,
        missing,
        ((l, subnet_answer ∙ ap (λ p. ok p.0) same), (l', nsg_answer ∙ ap (λ p. ok p.1) same)),
        chain log _ created _ _ e1 e2 e3 end,
      )
