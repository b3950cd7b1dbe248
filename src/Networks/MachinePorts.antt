-- ===== src/Networks/MachinePorts.antt =====
-- src/cluster/controllers/virtualmachine/ovn.rs: the interfaces of a machine are switch ports.
use cluster_controller.Prelude.{
  String, Option, none, some, List, [], ◌∷◌, ◌++◌, if◌then◌else◌, is_some, retain, format, join,
}
use cluster_controller.Errors.{
  Outcome, ok, err, panic, Error, ok_or, or_default, expect, assert, is_ok, collect, ovn_not_found,
  ovn_conflict, ovn_deserialization_failed,
}
use cluster_controller.Errors
use cluster_controller.Crd.{VirtualMachine, VirtualMachineStatus, NetworkAttachment, DhcpSpec}
use cluster_controller.World.{Ovn, Event, M, ◌>>=◌, ◌>>◌, lift, ask, pure, try, for_each}
use cluster_controller.Kube.{
  vm_resource, network_resource, router_resource, ensure_finalizer, remove_finalizer,
  name_prefixed_with_namespace, namespace_unchecked, set_vm_status,
}
use cluster_controller.Controller.{Action, requeue, await_change, field_manager}
use cluster_controller.Ovn.Lowlevel.{try_from_annotations}
use cluster_controller.Ovn.Common.{get_by_name}
use cluster_controller.Ovn.Types.{
  LogicalSwitch, LogicalSwitchPort, static_route_common, logical_router_named,
  logical_router_port_named, logical_switch_named, logical_switch_port_named, dhcp_options_common,
}
use cluster_controller.Ovn.Ports.{
  create_lsp_if_missing, set_address, dynamic, unconfigured, get_cidr, del_lsp, dynamic_ip,
}
use cluster_controller.Ovn.Dhcp.{set_dhcp_options}

abbrev pub dhcp_for : LogicalSwitchPort → Option DhcpSpec → M (Unit {0})
dhcp_for lsp none = pure tt
dhcp_for lsp (some dhcp) = set_dhcp_options lsp dhcp.cidr

abbrev pub switch_name : VirtualMachine → NetworkAttachment → Outcome String
switch_name vm nic = Errors.◌>>=◌ (namespace_unchecked vm) λ namespace.
    Errors.◌>>=◌ (expect nic.name) λ network_name. ok (format (namespace ∷ "-" ∷ network_name ∷ []))

unfoldable pub connect_vm_nic : VirtualMachine → NetworkAttachment → Ovn → M (Unit {0})
connect_vm_nic vm nic o = lift (namespace_unchecked vm) >>= λ namespace.
    lift (expect nic.name) >>= λ network_name. lift (expect nic.mac_address) >>= λ mac_address.
    lift (switch_name vm nic) >>= λ ls_name. get_by_name {A = LogicalSwitch} o ls_name >>= λ ls.
    lift (expect nic.ovn_id) >>= λ lsp_id. create_lsp_if_missing ls lsp_id none >>= λ lsp.
    set_address lsp mac_address (if is_some (get_cidr ls) then dynamic else unconfigured)
    >> ask (Event.get_network namespace network_name) Error.kube
        (λ env h. env.kube.network h namespace network_name)
    >>= λ network. dhcp_for lsp network.spec.dhcp

unfoldable pub disconnect_vm_nic : VirtualMachine → Ovn → NetworkAttachment → M (Unit {0})
disconnect_vm_nic vm o nic = lift (switch_name vm nic) >>= λ ls_name.
    lift (expect nic.ovn_id) >>= λ lsp_id.
    try (get_by_name {A = LogicalSwitchPort} o lsp_id) >>= λ found.
    if is_ok found
    then get_by_name {A = LogicalSwitch} o ls_name >>= (λ ls. del_lsp ls lsp_id)
    else pure tt

abbrev pub ovn_nics_of : Option VirtualMachineStatus → List NetworkAttachment
ovn_nics_of (some status) = retain (λ (net : NetworkAttachment). is_some net.ovn_id) status.networks
ovn_nics_of none = []

unfoldable pub get_vm_ovn_nics : VirtualMachine → List NetworkAttachment
get_vm_ovn_nics vm = ovn_nics_of vm.status

abbrev pub push_ip : List String → Option String → List String
push_ip ip_addresses none = ip_addresses
push_ip ip_addresses (some ip) = ip_addresses ++ ip ∷ []

-- The address that the database gives the port of an interface, after the others.
abbrev pub collect_ip : Ovn → List String → Option String → M (List String)
collect_ip o ip_addresses none = pure ip_addresses
collect_ip o ip_addresses (some ovn_id) = get_by_name {A = LogicalSwitchPort} o ovn_id >>= λ lsp.
    pure (push_ip ip_addresses (dynamic_ip lsp))

-- The loop of `update_vm`, with the addresses collected before.
unfoldable pub connect_nics :
    VirtualMachine → Ovn → List String → List NetworkAttachment → M (List String)
connect_nics vm o ip_addresses [] = pure ip_addresses
connect_nics vm o ip_addresses (nic ∷ rest) =
    connect_vm_nic vm nic o >> collect_ip o ip_addresses nic.ovn_id >>= λ collected.
    connect_nics vm o collected rest

abbrev pub with_ips : VirtualMachineStatus → List String → VirtualMachineStatus
with_ips status addresses = record status {
  ip_addresses = some addresses;
  ip_addresses_string = some (join "," addresses);
}

abbrev pub write_ips : VirtualMachine → List String → Option VirtualMachineStatus → M (Unit {0})
write_ips vm addresses none = pure tt
write_ips vm addresses (some status) = set_vm_status vm (with_ips status addresses)

unfoldable pub update_vm : VirtualMachine → M Action
unfolding connect_nics
update_vm vm = lift (name_prefixed_with_namespace vm) >>= λ name. try_from_annotations >>= λ o.
    ensure_finalizer vm "ovn" (field_manager "vm.ovn") >>= λ kept.
    connect_nics kept o [] (get_vm_ovn_nics kept) >>= λ addresses.
    write_ips kept addresses kept.status >> pure (requeue 600)

unfoldable pub remove_vm : VirtualMachine → M Action
remove_vm vm = lift (name_prefixed_with_namespace vm) >>= λ name. try_from_annotations >>= λ o.
    for_each (disconnect_vm_nic vm o) (get_vm_ovn_nics vm)
    >> remove_finalizer vm "ovn" (field_manager "vm.ovn")
    >> pure await_change
