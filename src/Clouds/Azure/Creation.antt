-- ===== src/Clouds/Azure/Creation.antt =====
-- A creation of machines in Azure as a whole (CreateVMs of create_vms.go).
use mathlib.Core.Path.{subst}
use mathlib.Core.List.{append_assoc}
use provisioning_backend.Common.{ℕ, String, ◌≡◌, ◌∙◌, List, All, ◌++◌, map, length, concat}
use provisioning_backend.Models.{InstanceDescription}
use provisioning_backend.Clouds.Actions.{Run, >>=-Run}
use provisioning_backend.Clouds.Azure.{Request, Reply, Sdk, Params, wait_for_vms, create_vms}
use provisioning_backend.Clouds.Azure.Networking.{
  IsShared, IsCreatedIfMissing, shared_requests, ensure_shared_networking-Run,
}
use provisioning_backend.Clouds.Azure.Machines.{
  Vm, IsStarted, NamedInTurn, Describes, InOrder, start_requests, wait_requests, start_vms-Run,
  wait_for_vms-Run,
}

module _ (sdk : Sdk) where
  -- A creation of some machines that succeeds asks for these, in this order: the virtual network, which is created
  -- only when it is missing, the subnet and the security group, once; then for each machine the creation of its
  -- address, of its interface on that subnet, security group and address, and the start of the machine with that
  -- interface; and only then the wait for each of them. There are as many machines as asked for. The name of each,
  -- which the names of its address and interface begin with, is the prefix and the UUID that the library gives when
  -- the start of this machine begins, after the requests of those before it. The descriptions are theirs in
  -- that order, each with the address of its machine and the id that the wait for it answers.
  pub create_vms-IsStarted :
      (params : Params) (amount : ℕ) (prefix : String) (ds : List InstanceDescription)
      (log log' : List Request)
      → Run (create_vms sdk params amount prefix) log ds log'
      → (created : List Request) × (subnet : Reply) × (nsg : Reply) × (vms : List Vm)
        × IsCreatedIfMissing sdk params log created
        × IsShared sdk params subnet nsg
        × (length vms ≡ amount)
        × All (IsStarted sdk params subnet nsg) vms
        × NamedInTurn sdk params subnet nsg prefix (log ++ shared_requests params created) vms
        × InOrder (Describes sdk) ds vms
        × (log'
            ≡ log
              ++ (shared_requests params created
                  ++ (concat (map (start_requests sdk params subnet nsg) vms)
                      ++ concat (map wait_requests vms))))
  unfolding create_vms
  create_vms-IsStarted params amount prefix ds log log' h =
      let ((subnet, nsg), l1, shared, rest) = >>=-Run _ _ ds log log' h in
      let (created, missing, is_shared, e1) =
        ensure_shared_networking-Run sdk params subnet nsg log l1 shared in
      let (ss, l2, begun, waited) = >>=-Run _ _ ds l1 log' rest in
      let (vms, ok_vms, in_turn, count, are_vms, e2) =
        start_vms-Run sdk subnet nsg params prefix amount ss l1 l2 begun in
      let waits = subst (λ ss. Run (wait_for_vms sdk ss) l2 ds log') are_vms waited in
      let (described, e3) = wait_for_vms-Run sdk vms ds l2 log' waits in
      let starts = concat (map (start_requests sdk params subnet nsg) vms) in
      let waits = concat (map wait_requests vms) in
      let assoc : ((log ++ shared_requests params created) ++ starts) ++ waits
          ≡ log ++ (shared_requests params created ++ (starts ++ waits)) =
        append_assoc (log ++ shared_requests params created) starts waits
        ∙ append_assoc log (shared_requests params created) (starts ++ waits) in
      (
        created,
        subnet,
        nsg,
        vms,
        missing,
        is_shared,
        count,
        ok_vms,
        rw (← e1) in_turn,
        described,
        cc,
      )
