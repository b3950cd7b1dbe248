-- ===== src/Vm/Nics/Locking.antt =====
-- Completing a machine's interfaces and its UUID does not touch the scheduler's mutex.
use cluster_controller.Prelude.{ℕ, String, refl, ◌+◌, Option, none, some, List, [], ◌∷◌, is_some}
use cluster_controller.Errors.{ok, Error, expect}
use cluster_controller.Crd.{VirtualMachine, VirtualMachineStatus, NetworkAttachment}
use cluster_controller.World.{Event, of_vm}
use cluster_controller.World.Monad.Locking.{
  Quiet, lift-Quiet, read-Quiet, ask-Quiet, observe-Quiet, bind-Quiet, then-Quiet, if-Quiet,
}
use cluster_controller.Kube.{
  commit, vm_resource, namespace_unchecked, name_prefixed_with_namespace, try_status, set_vm_status,
}
use cluster_controller.Vm.Nics.{
  target, generate_mac_address, find_matching_network, initial_nic, fill_mac, fill_ovn_id, vlan_of,
  is_evpn, of_name, fill_network, fill_nic, fill_loop, retain_matching, attachments_eq, save_nics,
  fill_nics, fill_uuid,
}

pub commit-Quiet : (vm : VirtualMachine) (manager : String) → Quiet (commit vm manager)
unfolding commit
commit-Quiet vm manager = bind-Quiet (lift-Quiet (expect vm.metadata.name)) λ name.
    ask-Quiet (Event.replace (of_vm vm) manager) Error.kube (λ env h. env.kube.write h)
      (λ log. (refl, refl))

pub set_vm_status-Quiet :
    (vm : VirtualMachine) (status : VirtualMachineStatus) → Quiet (set_vm_status vm status)
unfolding set_vm_status
set_vm_status-Quiet vm status = bind-Quiet (lift-Quiet (expect vm.metadata.namespace)) λ namespace.
    bind-Quiet (lift-Quiet (expect vm.metadata.name)) λ name.
      ask-Quiet (Event.replace_status (of_vm (record vm { status = some status }))) Error.kube
        (λ env h. env.kube.write h) (λ log. (refl, refl))

fill_mac-Quiet :
    (vm_name : String) (index : ℕ) (nic_spec nic_status : NetworkAttachment)
    → Quiet (fill_mac vm_name index nic_spec nic_status)
unfolding fill_mac generate_mac_address
fill_mac-Quiet vm_name index nic_spec nic_status =
    if-Quiet (is_some nic_spec.mac_address) (lift-Quiet (ok _)) (
      if-Quiet (is_some nic_status.mac_address) (lift-Quiet (ok _)) (
        bind-Quiet (bind-Quiet (lift-Quiet (expect (target nic_spec))) λ name. read-Quiet _)
          λ mac. lift-Quiet (ok _)))

fill_ovn_id-Quiet :
    (nic_spec nic_status : NetworkAttachment) → Quiet (fill_ovn_id nic_spec nic_status)
unfolding fill_ovn_id
fill_ovn_id-Quiet nic_spec nic_status = if-Quiet (is_some nic_spec.ovn_id) (lift-Quiet (ok _)) (
    if-Quiet (is_some nic_status.ovn_id) (lift-Quiet (ok _)) (
      bind-Quiet (observe-Quiet Event.new_uuid (λ env h. env.uuid h) (λ log. (refl, refl)))
        λ uuid. lift-Quiet (ok (record nic_status { ovn_id = some uuid }))))

of_name-Quiet :
    (namespace : String) (nic_spec nic_status : NetworkAttachment) (name : Option String)
    → Quiet (of_name namespace nic_spec nic_status name)
of_name-Quiet namespace nic_spec nic_status none = lift-Quiet (ok nic_status)
of_name-Quiet namespace nic_spec nic_status (some name) =
    bind-Quiet
      (ask-Quiet (Event.get_network namespace name) Error.kube
        (λ env h. env.kube.network h namespace name) (λ log. (refl, refl)))
      λ network.
        if-Quiet (is_evpn network.spec)
          (lift-Quiet (
            ok (record nic_status {
              bridge = network.spec.bridge;
              untagged_vlan = vlan_of network.spec;
            })))
          (fill_ovn_id-Quiet nic_spec nic_status)

fill_nic-Quiet :
    (namespace vm_name : String) (status_networks : List NetworkAttachment) (index : ℕ)
    (nic_spec : NetworkAttachment)
    → Quiet (fill_nic namespace vm_name status_networks index nic_spec)
unfolding fill_nic fill_network
fill_nic-Quiet namespace vm_name status_networks index nic_spec =
    bind-Quiet (lift-Quiet (find_matching_network status_networks nic_spec)) λ found.
      bind-Quiet
        (fill_mac-Quiet vm_name index nic_spec
          (record (initial_nic nic_spec found) { queues = nic_spec.queues }))
        λ filled. of_name-Quiet namespace nic_spec filled nic_spec.name

fill_loop-Quiet :
    (namespace vm_name : String) (status_networks : List NetworkAttachment)
    (nics : List NetworkAttachment) (index : ℕ)
    → Quiet (fill_loop namespace vm_name status_networks index nics)
unfolding fill_loop
fill_loop-Quiet namespace vm_name status_networks [] index = lift-Quiet (ok [])
fill_loop-Quiet namespace vm_name status_networks (nic ∷ nics) index =
    bind-Quiet (fill_nic-Quiet namespace vm_name status_networks index nic) λ filled.
      bind-Quiet (fill_loop-Quiet namespace vm_name status_networks nics (index + 1))
        λ others. lift-Quiet (ok _)

pub fill_nics-Quiet : (vm : VirtualMachine) → Quiet (fill_nics vm)
unfolding fill_nics save_nics
fill_nics-Quiet vm = bind-Quiet (lift-Quiet (namespace_unchecked vm)) λ namespace.
    bind-Quiet (lift-Quiet (name_prefixed_with_namespace vm)) λ vm_name.
      bind-Quiet (lift-Quiet (try_status vm)) λ status.
        bind-Quiet (fill_loop-Quiet namespace vm_name status.networks vm.spec.networks 0) λ filled.
          bind-Quiet (lift-Quiet (retain_matching vm.spec.networks filled)) λ networks.
            then-Quiet
              (if-Quiet (attachments_eq status.networks networks) (lift-Quiet (ok tt))
                (set_vm_status-Quiet vm (record status { networks = networks })))
              (commit-Quiet vm "cluster-manager.libvirt")

pub fill_uuid-Quiet : (vm : VirtualMachine) → Quiet (fill_uuid vm)
unfolding fill_uuid
fill_uuid-Quiet vm = if-Quiet (is_some vm.spec.uuid) (lift-Quiet (ok vm)) (
    bind-Quiet (observe-Quiet Event.new_uuid (λ env h. env.uuid h) (λ log. (refl, refl))) λ uuid.
      let filled = record vm { spec = record vm.spec { uuid = some uuid } } in
      then-Quiet (commit-Quiet filled "cluster-manager.libvirt") (lift-Quiet (ok filled)))
