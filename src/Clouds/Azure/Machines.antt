-- ===== src/Clouds/Azure/Machines.antt =====
-- What the two loops of CreateVMs ask of Azure when they succeed (create_vms.go).
use Prim.Native.String
use mathlib.Core.Path.{subst}
use mathlib.Core.List.{append_assoc, append-nil}
use provisioning_backend.Common.{
  ℕ, zero, suc, String, ◌≡◌, refl, sym, ap, ◌∙◌, Option, none, some, List, [], ◌∷◌, All, ◌++◌, map,
  length, concat,
}
use provisioning_backend.Models.{InstanceDescription}
use provisioning_backend.Backends.Outcome.{ok, deref}
use provisioning_backend.Clouds.Actions.{
  Run, pure, lift, pure-Run, lift-Run, send-Run, annotate-Run, >>=-Run,
}
use provisioning_backend.Clouds.Azure.{
  Request, Reply, Sdk, Params, Started, start, resume, poll_token, public_ip, network_interface,
  virtual_machine, ask, prepare_vm_networking, prepare_virtual_machine_parameters, begin_create_vm,
  wait_for_vm, start_vm, start_vms, wait_for_vms,
}
use provisioning_backend.Clouds.Azure.Requests.{creation, IsPolled, client-Run, create-Run}

-- One by one, in the same order.
abbrev pub InOrder : {A B : Type 0} → (A → B → Type 0) → List A → List B → Type 0
InOrder P [] [] = Unit {0}
InOrder P (a ∷ l) (b ∷ m) = P a b × InOrder P l m
InOrder P _ _ = ⊥

-- A machine that was started: its name, address, interface and token.
pub record Vm : Type 0 where
  pub name : String
  pub ip : Reply
  pub address : String
  pub nic : Reply
  pub token : String

-- The requests that wait for a machine.
abbrev pub wait_requests : Vm → List Request
wait_requests vm = resume vm.token ∷ poll_token vm.token ∷ []

chain :
    {log l1 l2 l3 l4 log' : List Request} (a b c : List Request)
    → log ≡ l1
    → l2 ≡ (l1 ++ a) ++ b
    → l2 ≡ l3
    → l4 ≡ l3 ++ c
    → l4 ≡ log'
    → log' ≡ log ++ (a ++ (b ++ c))
chain {log} {l1} {l2} {l3} {l4} {log'} a b c e1 e2 e3 e4 e5 =
    let assoc : ((log ++ a) ++ b) ++ c ≡ log ++ (a ++ (b ++ c)) =
      append_assoc (log ++ a) b c ∙ append_assoc log a (b ++ c) in
    cc

module _ (sdk : Sdk) where
  -- The requests that start a machine: its own address, its own interface to the shared subnet and security
  -- group and to that address, and the machine with that interface.
  abbrev pub start_requests : Params → Reply → Reply → Vm → List Request
  start_requests params subnet nsg vm =
      let group = params.resource_group_name in
      creation group (String.◌++◌ vm.name "_ip") (public_ip params.location "Static")
      ++ (creation group (String.◌++◌ vm.name "_nic")
            (network_interface params.location subnet.id vm.ip.id nsg.id)
          ++ start group vm.name
              (virtual_machine (prepare_virtual_machine_parameters sdk vm.nic params vm.name))
            ∷ [])

  prepare_vm_networking-Run :
      (subnet nsg : Reply) (params : Params) (name : String) (nic ip : Reply)
      (log log' : List Request)
      → Run (prepare_vm_networking sdk subnet nsg params name) log (nic, ip) log'
      → let group = params.resource_group_name in
        (log'
          ≡ (log ++ creation group (String.◌++◌ name "_ip") (public_ip params.location "Static"))
            ++ creation group
                (String.◌++◌ name "_nic")
                (network_interface params.location subnet.id ip.id nsg.id))
        × IsPolled sdk group (String.◌++◌ name "_ip") (public_ip params.location "Static") ip
        × IsPolled sdk group
            (String.◌++◌ name "_nic")
            (network_interface params.location subnet.id ip.id nsg.id)
            nic
  unfolding prepare_vm_networking
  prepare_vm_networking-Run subnet nsg params name nic ip log log' h =
      let group = params.resource_group_name in
      let (ip', mid, first, rest) = >>=-Run _ (λ ip. _) (nic, ip) log log' h in
      let (nic', last, second, done) = >>=-Run _ (λ nic. pure (nic, ip')) (nic, ip) mid log' rest in
      let (same, end) = pure-Run (nic', ip') (nic, ip) last log' done in
      let same_ip : ip' ≡ ip = ap (λ p. p.1) same in
      let same_nic : nic' ≡ nic = ap (λ p. p.0) same in
      let (e, (l1, ip_answer)) =
        create-Run sdk "public IP address" group _ _ ip' log mid
          (client-Run sdk _ _ ip' log mid first) in
      let (f, (l2, nic_answer)) =
        create-Run sdk "network interface" group _ _ nic' mid last
          (client-Run sdk _ _ nic' mid last second) in
      (
        cc,
        (l1, ip_answer ∙ ap ok same_ip),
        subst
            (λ (a : Reply).
              IsPolled sdk group (String.◌++◌ name "_nic")
                (network_interface params.location subnet.id a.id nsg.id) nic)
            same_ip (l2, nic_answer ∙ ap ok same_nic),
      )

  -- BeginCreateOrUpdate of the machine, and the resume token of what it answers.
  abbrev pub IsBegun : Params → Vm → Type 0
  IsBegun params vm =
      (log : List Request) × (poller : Reply) × (sdk.answer log (
          start params.resource_group_name vm.name
            (virtual_machine (prepare_virtual_machine_parameters sdk vm.nic params vm.name)))
        ≡ ok poller)
      × (sdk.resume_token poller ≡ ok vm.token)

  begin_create_vm-Run :
      (nic : Reply) (params : Params) (name token : String) (log log' : List Request)
      → Run (begin_create_vm sdk nic params name) log token log'
      → let r =
          start params.resource_group_name name
            (virtual_machine (prepare_virtual_machine_parameters sdk nic params name)) in
        (log' ≡ log ++ r ∷ [])
        × (poller : Reply) × (sdk.answer log r ≡ ok poller)
        × (sdk.resume_token poller ≡ ok token)
  unfolding begin_create_vm
  begin_create_vm-Run nic params name token log log' h =
      let (poller, mid, started, rest) =
        >>=-Run _ _ token log log' (client-Run sdk "VM" _ token log log' h) in
      let (answered, e) =
        send-Run sdk.answer _ poller log mid (annotate-Run _ (ask sdk _) poller log mid started) in
      let (given, f) =
        lift-Run (sdk.resume_token poller) token mid log'
          (annotate-Run _ (lift _) token mid log' rest) in
      (rw (← f) e, poller, answered, given)

  -- Each machine has the name of the prefix and of the identifier that the library of UUIDs gives when its start
  -- begins: after the requests of the machines before it.
  abbrev pub NamedInTurn : Params → Reply → Reply → String → List Request → List Vm → Type 0
  NamedInTurn params subnet nsg prefix log [] = Unit {0}
  NamedInTurn params subnet nsg prefix log (vm ∷ vms) =
      ((uuid : String) × (sdk.new_uuid log ≡ ok uuid)
        × (vm.name ≡ String.◌++◌ prefix (String.◌++◌ "-" uuid)))
      × NamedInTurn params subnet nsg prefix (log ++ start_requests params subnet nsg vm) vms

  -- What makes a machine of CreateVMs, beside its name: the address that was created for
  -- it, the interface that was created for it on the subnet, the security group and that address, and that it has this
  -- interface and the token.
  pub record IsStarted (params : Params) (subnet nsg : Reply) (vm : Vm) : Type 0 where
    pub addressed : vm.ip.ip_address ≡ some vm.address
    pub own_ip :
        IsPolled sdk params.resource_group_name
          (String.◌++◌ vm.name "_ip")
          (public_ip params.location "Static")
          vm.ip
    pub own_nic :
        IsPolled sdk params.resource_group_name
          (String.◌++◌ vm.name "_nic")
          (network_interface params.location subnet.id vm.ip.id nsg.id)
          vm.nic
    pub attached :
        (prepare_virtual_machine_parameters sdk vm.nic params vm.name).network_interface_id
        ≡ vm.nic.id
    pub begun : IsBegun params vm

  abbrev pub started : Vm → Started
  started vm = record { public_ipv4 = vm.address; resume_token = vm.token }

  deref-ok : (o : Option String) (s : String) → deref o ≡ ok s → o ≡ some s
  deref-ok (some a) s h = cc
  deref-ok none s h = absurd (cc)

  start_vm-Run :
      (subnet nsg : Reply) (params : Params) (prefix : String) (s : Started)
      (log log' : List Request)
      → Run (start_vm sdk subnet nsg params prefix) log s log'
      → (vm : Vm) × IsStarted params subnet nsg vm
        × ((uuid : String) × (sdk.new_uuid log ≡ ok uuid)
            × (vm.name ≡ String.◌++◌ prefix (String.◌++◌ "-" uuid)))
        × (s ≡ started vm)
        × (log' ≡ log ++ start_requests params subnet nsg vm)
  unfolding start_vm prepare_virtual_machine_parameters
  start_vm-Run subnet nsg params prefix s log log' h =
      let (uuid, l1, fresh, rest) = >>=-Run _ _ s log log' h in
      let answer = annotate-Run _ (λ log. (sdk.new_uuid log, log)) uuid log l1 fresh in
      let e1 : log ≡ l1 = ap (λ p. p.1) answer in
      let name = String.◌++◌ prefix (String.◌++◌ "-" uuid) in
      let ((nic, ip), l2, wired, rest2) = >>=-Run _ _ s l1 log' rest in
      let (e2, own_ip, own_nic) =
        prepare_vm_networking-Run subnet nsg params name nic ip l1 l2 wired in
      let (address, l3, known, rest3) = >>=-Run _ _ s l2 log' rest2 in
      let (given, e3) = lift-Run (deref ip.ip_address) address l2 l3 known in
      let (token, l4, began, done) = >>=-Run _ _ s l3 log' rest3 in
      let (e4, poller, answered, taken) =
        begin_create_vm-Run nic params name token l3 l4
          (annotate-Run _ (begin_create_vm sdk nic params name) token l3 l4 began) in
      let (same, e5) = pure-Run _ s l4 log' done in
      let vm : Vm = record { name = name; ip = ip; address = address; nic = nic; token = token } in
      (
        vm,
        record {
          addressed = deref-ok ip.ip_address address given;
          own_ip = own_ip;
          own_nic = own_nic;
          attached = refl;
          begun = (l3, poller, answered, taken);
        },
        (uuid, ap (λ p. p.0) answer, refl),
        sym same,
        chain _ _ _ e1 e2 e3 e4 e5,
      )

  pub start_vms-Run :
      (subnet nsg : Reply) (params : Params) (prefix : String) (amount : ℕ) (ss : List Started)
      (log log' : List Request)
      → Run (start_vms sdk subnet nsg params prefix amount) log ss log'
      → (vms : List Vm) × All (IsStarted params subnet nsg) vms
        × NamedInTurn params subnet nsg prefix log vms
        × (length vms ≡ amount)
        × (ss ≡ map started vms)
        × (log' ≡ log ++ concat (map (start_requests params subnet nsg) vms))
  unfolding start_vms
  start_vms-Run subnet nsg params prefix zero ss log log' h =
      let (none_started, same) = pure-Run [] ss log log' h in
      ([], tt, tt, refl, sym none_started, sym same ∙ sym (append-nil log))
  start_vms-Run subnet nsg params prefix (suc amount) ss log log' h =
      let (s, l1, one, more) = >>=-Run _ _ ss log log' h in
      let (rest, l2, others, done) = >>=-Run _ _ ss l1 log' more in
      let (same, end) = pure-Run (s ∷ rest) ss l2 log' done in
      let (vm, ok_vm, named, is_vm, e1) = start_vm-Run subnet nsg params prefix s log l1 one in
      let (vms, ok_vms, in_turn, count, are_vms, e2) =
        start_vms-Run subnet nsg params prefix amount rest l1 l2 others in
      (
        vm ∷ vms,
        (ok_vm, ok_vms),
        (named, rw (← e1) in_turn),
        ap suc count,
        sym same ∙ cc,
        sym end
            ∙ e2
            ∙ ap (λ l. l ++ concat (map (start_requests params subnet nsg) vms)) e1
            ∙ append_assoc log _ _,
      )

  -- A description is of a machine: its address, and the id that the wait for its creation answers.
  abbrev pub Describes : InstanceDescription → Vm → Type 0
  Describes d vm =
      (log : List Request) × (r : Reply) × (sdk.answer log (poll_token vm.token) ≡ ok r)
      × (d ≡ record { id = r.id; public_dns = ""; public_ipv4 = vm.address })

  wait_for_vm-Run :
      (token id : String) (log log' : List Request)
      → Run (wait_for_vm sdk token) log id log'
      → (log' ≡ log ++ resume token ∷ poll_token token ∷ [])
        × (l : List Request) × (r : Reply) × (sdk.answer l (poll_token token) ≡ ok r)
        × (id ≡ r.id)
  unfolding wait_for_vm
  wait_for_vm-Run token id log log' h =
      let (b, l1, resumed, rest) = >>=-Run _ _ id log log' (client-Run sdk "VM" _ id log log' h) in
      let (_, e1) =
        send-Run sdk.answer (resume token) b log l1 (annotate-Run _ (ask sdk _) b log l1 resumed) in
      let (r, l2, polled, done) = >>=-Run _ _ id l1 log' rest in
      let (answered, e2) =
        send-Run sdk.answer (poll_token token) r l1 l2
          (annotate-Run _ (ask sdk _) r l1 l2 polled) in
      let (same, end) = pure-Run r.id id l2 log' done in
      (
        sym end ∙ e2 ∙ ap (λ l. l ++ poll_token token ∷ []) e1 ∙ append_assoc log _ _,
        l1,
        r,
        answered,
        sym same,
      )

  pub wait_for_vms-Run :
      (vms : List Vm) (ds : List InstanceDescription) (log log' : List Request)
      → Run (wait_for_vms sdk (map started vms)) log ds log'
      → InOrder Describes ds vms × (log' ≡ log ++ concat (map wait_requests vms))
  unfolding wait_for_vms
  wait_for_vms-Run [] ds log log' h =
      let (none_described, same) = pure-Run [] ds log log' h in
      (rw (← none_described) tt, sym same ∙ sym (append-nil log))
  wait_for_vms-Run (vm ∷ vms) ds log log' h =
      let (id, l1, one, more) = >>=-Run _ _ ds log log' h in
      let (rest, l2, others, done) = >>=-Run _ _ ds l1 log' more in
      let (same, end) = pure-Run _ ds l2 log' done in
      let (e1, l, r, answered, named) =
        wait_for_vm-Run vm.token id log l1 (annotate-Run _ (wait_for_vm sdk _) id log l1 one) in
      let (described, e2) = wait_for_vms-Run vms rest l1 l2 others in
      (
        subst (λ ds. InOrder Describes ds (vm ∷ vms)) same
            (
              (
                l,
                r,
                answered,
                ap (λ id. record { id = id; public_dns = ""; public_ipv4 = vm.address }) named,
              ),
              described,
            ),
        sym end ∙ e2 ∙ ap (λ l. l ++ concat (map wait_requests vms)) e1 ∙ append_assoc log _ _,
      )
