-- ===== src/Networks/Growth.antt =====
-- Connecting the interfaces of a machine only adds to the history.
use cluster_controller.Prelude.{String, Option, none, some, List, [], ◌∷◌, has_substring}
use cluster_controller.Errors.{Outcome, ok, err, panic, Error, expect, ovn_not_found, ovn_conflict}
use cluster_controller.Crd.{VirtualMachine, NetworkAttachment, DhcpSpec}
use cluster_controller.World.{Ovn, Event, M, ask}
use cluster_controller.World.Monad.Growth.{
  Grows, lift-Grows, ask-Grows, bind-Grows, then-Grows, try-Grows, if-Grows,
}
use cluster_controller.Kube.{vm_resource, namespace_unchecked}
use cluster_controller.Ovn.Common.{or_create}
use cluster_controller.Ovn.Growth.{list-Grows, transact-Grows, get_by_name-Grows}
use cluster_controller.Ovn.Types.{
  LogicalSwitch, LogicalSwitchPort, logical_switch_named, logical_switch_port_named,
  dhcp_options_common,
}
use cluster_controller.Ovn.Ports.{
  create_lsp, create_lsp_if_missing, find_lsp_owner, get_by_mac, IpConfiguration, write_address,
  set_address,
}
use cluster_controller.Ovn.Dhcp.{get_by_cidr, set_dhcp_options}
use cluster_controller.Networks.MachinePorts.{
  switch_name, dhcp_for, connect_vm_nic, collect_ip, connect_nics,
}

or_create-Grows :
    {A : Type 0} (make : M A) → Grows make → (r : Outcome A) → Grows (or_create make r)
or_create-Grows make h (ok a) = lift-Grows (ok a)
or_create-Grows make h (err (ovn_not_found kind name)) = h
or_create-Grows make h (err e) = lift-Grows (err e)
or_create-Grows make h panic = lift-Grows panic

pub create_lsp_if_missing-Grows :
    (ls : LogicalSwitch) (lsp_id : String) → Grows (create_lsp_if_missing ls lsp_id none)
unfolding create_lsp_if_missing create_lsp
create_lsp_if_missing-Grows ls lsp_id =
    bind-Grows (try-Grows (get_by_name-Grows logical_switch_port_named ls.ovn lsp_id)) (
      or_create-Grows _ (
        then-Grows (transact-Grows ls.ovn _)
          (get_by_name-Grows logical_switch_port_named ls.ovn lsp_id)))

write_address-Grows :
    (lsp : LogicalSwitchPort) (mac : String) (ip : IpConfiguration) (r : Outcome LogicalSwitchPort)
    → Grows (write_address lsp mac ip r)
write_address-Grows lsp mac ip (ok other) = lift-Grows (err (ovn_conflict mac))
write_address-Grows lsp mac ip (err e) = then-Grows (transact-Grows lsp.ovn _) (lift-Grows (ok tt))
write_address-Grows lsp mac ip panic = lift-Grows panic

pub find_lsp_owner-Grows : (lsp : LogicalSwitchPort) → Grows (find_lsp_owner lsp.ovn lsp)
unfolding find_lsp_owner
find_lsp_owner-Grows lsp =
    bind-Grows (list-Grows logical_switch_named.common lsp.ovn) λ switches. lift-Grows _

pub get_by_mac-Grows : (ls : LogicalSwitch) (mac : String) → Grows (get_by_mac ls mac)
unfolding get_by_mac
get_by_mac-Grows ls mac =
    bind-Grows (list-Grows logical_switch_port_named.common ls.ovn) λ all. lift-Grows _

pub set_address-Grows :
    (lsp : LogicalSwitchPort) (mac : String) (ip : IpConfiguration) → Grows (set_address lsp mac ip)
unfolding set_address
set_address-Grows lsp mac ip = if-Grows (has_substring lsp.addresses mac) _ _ (lift-Grows (ok tt)) (
    bind-Grows (find_lsp_owner-Grows lsp)
      λ ls. bind-Grows (try-Grows (get_by_mac-Grows ls mac)) (write_address-Grows lsp mac ip))

pub dhcp_for-Grows : (lsp : LogicalSwitchPort) (dhcp : Option DhcpSpec) → Grows (dhcp_for lsp dhcp)
unfolding set_dhcp_options get_by_cidr
dhcp_for-Grows lsp none = lift-Grows (ok tt)
dhcp_for-Grows lsp (some dhcp) =
    bind-Grows (bind-Grows (list-Grows dhcp_options_common lsp.ovn) λ all. lift-Grows _)
      λ options. then-Grows (transact-Grows lsp.ovn _) (lift-Grows (ok tt))

pub network-Grows :
    (namespace name : String)
    → Grows (
        ask
          (Event.get_network namespace name)
          Error.kube
          (λ env h. env.kube.network h namespace name))
network-Grows namespace name =
    ask-Grows (Event.get_network namespace name) Error.kube
      (λ env h. env.kube.network h namespace name)

pub connect_vm_nic-Grows :
    (vm : VirtualMachine) (nic : NetworkAttachment) (o : Ovn) → Grows (connect_vm_nic vm nic o)
unfolding connect_vm_nic
connect_vm_nic-Grows vm nic o = bind-Grows (lift-Grows (namespace_unchecked vm)) λ namespace.
    bind-Grows (lift-Grows (expect nic.name)) λ network_name.
      bind-Grows (lift-Grows (expect nic.mac_address)) λ mac.
        bind-Grows (lift-Grows (switch_name vm nic)) λ ls_name.
          bind-Grows (get_by_name-Grows logical_switch_named o ls_name) λ ls.
            bind-Grows (lift-Grows (expect nic.ovn_id)) λ lsp_id.
              bind-Grows (create_lsp_if_missing-Grows ls lsp_id) λ lsp.
                bind-Grows
                  (then-Grows (set_address-Grows lsp mac _) (network-Grows namespace network_name))
                  λ network. dhcp_for-Grows lsp network.spec.dhcp

pub collect_ip-Grows :
    (o : Ovn) (addresses : List String) (ovn_id : Option String)
    → Grows (collect_ip o addresses ovn_id)
collect_ip-Grows o addresses none = lift-Grows (ok addresses)
collect_ip-Grows o addresses (some ovn_id) =
    bind-Grows (get_by_name-Grows logical_switch_port_named o ovn_id) λ lsp. lift-Grows _

pub connect_nics-Grows :
    (vm : VirtualMachine) (o : Ovn) (nics : List NetworkAttachment) (addresses : List String)
    → Grows (connect_nics vm o addresses nics)
unfolding connect_nics
connect_nics-Grows vm o [] addresses = lift-Grows (ok addresses)
connect_nics-Grows vm o (nic ∷ nics) addresses =
    bind-Grows
      (then-Grows (connect_vm_nic-Grows vm nic o) (collect_ip-Grows o addresses nic.ovn_id))
      λ collected. connect_nics-Grows vm o nics collected
