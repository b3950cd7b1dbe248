-- ===== src/Host/Handlers.antt =====
-- src/host/libvirt/handlers.rs: what a host does with a machine.
pub mod Deletion
use cluster_controller.Prelude.{String, Bool, true, false, [], ◌∷◌, if◌then◌else◌, format}
use cluster_controller.Errors.{Outcome, ok, panic, Error, expect, is_ok}
use cluster_controller.Crd.{
  VirtualMachine, VirtualMachineStatus, PowerAction, power_on, shutdown, power_off, manual,
  get_power_action,
}
use cluster_controller.World.{Event, M, ◌>>=◌, ◌>>◌, lift, ask, pure, try}
use cluster_controller.Kube.{
  vm_resource, network_resource, router_resource, ensure_finalizer, remove_finalizer, set_vm_status,
  try_status,
}
use cluster_controller.Controller.{Action, requeue, await_change, field_manager}
use cluster_controller.Host.Machines.{expect_domain_name, get_cluster}
use cluster_controller.Host.Evpn.{ensure_vni_mapping}
use cluster_controller.Host.Domains.{create_domain, has_domain}

abbrev pub finalizer : String
finalizer = "libvirt-host"

-- `Domain::lookup_by_name`: handed to the caller's `match`.
abbrev pub lookup_domain : String → M (Outcome (Unit {0}))
lookup_domain name =
    try (ask (Event.lookup_domain name) Error.libvirt (λ env h. env.hypervisor.domain_call h))

abbrev pub destroy_found : String → Outcome (Unit {0}) → M (Unit {0})
destroy_found name found =
    if is_ok found
    then ask (Event.destroy_domain name) Error.libvirt (λ env h. env.hypervisor.domain_call h)
    else pure tt

unfoldable pub handle_delete : VirtualMachine → M Action
handle_delete vm = lift (expect_domain_name vm) >>= λ vm_name.
    lookup_domain vm_name
    >>= destroy_found vm_name
    >> remove_finalizer vm finalizer (field_manager "libvirt-host")
    >> pure await_change

abbrev pub is_power_on : PowerAction → Bool
is_power_on power_on = true
is_power_on shutdown = false
is_power_on power_off = false
is_power_on manual = false

abbrev pub running_status : VirtualMachineStatus → VirtualMachineStatus
running_status status = record status { running = true }

unfoldable pub handle_add : VirtualMachine → M Action
handle_add vm = ensure_vni_mapping vm >> lift (expect_domain_name vm) >>= λ vm_name.
    ensure_finalizer vm finalizer (field_manager "libvirt-host") >>= λ kept.
    if is_power_on (get_power_action kept.spec)
    then get_cluster >>= (λ cluster.
      create_domain kept cluster >> lift (expect kept.status) >>= λ status.
      set_vm_status kept (running_status status) >> pure (requeue 600))
    else pure (requeue 600)

abbrev pub expect_found : Outcome (Unit {0}) → Outcome (Unit {0})
expect_found found = if is_ok found then ok tt else panic

unfoldable pub handle_outbound_migration : VirtualMachine → M Action
handle_outbound_migration vm = lift (expect_domain_name vm) >>= λ vm_name.
    lookup_domain vm_name >>= λ domain.
    lift (expect_found domain) >> lift (try_status vm) >>= λ status.
    lift (expect status.node) >>= λ destination_node.
    ask (Event.migrate_domain vm_name (format ("qemu+ssh://" ∷ destination_node ∷ "/system" ∷ [])))
      Error.libvirt (λ env h. env.hypervisor.domain_call h)
    >> pure (requeue 10)

abbrev pub arrived_status : VirtualMachineStatus → VirtualMachineStatus
arrived_status status = record status { migration_pending = false }

-- The domain is here: wait until it runs, then the migration is over.
unfoldable pub finish_migration : VirtualMachine → String → M Action
finish_migration vm name = lookup_domain name >>= λ domain.
    lift (expect_found domain)
    >> ask (Event.domain_is_active name) Error.libvirt (λ env h. env.hypervisor.is_active h)
    >>= λ is_active.
        if is_active
        then lift (try_status vm)
          >>= (λ status. set_vm_status vm (arrived_status status) >> pure (requeue 600))
        else pure (requeue 5)

unfoldable pub handle_inbound_migration : VirtualMachine → M Action
handle_inbound_migration vm =
    ensure_vni_mapping vm >> lift (expect_domain_name vm) >>= λ libvirt_domain_name.
    has_domain libvirt_domain_name >>= λ vm_runs_on_us.
    if vm_runs_on_us then finish_migration vm libvirt_domain_name else pure (requeue 5)
