-- ===== src/Networks/Switches.antt =====
-- src/cluster/controllers/network.rs: a network is a logical switch.
use cluster_controller.Prelude.{
  String, Bool, true, false, Option, none, some, List, [], ◌∷◌, if◌then◌else◌, get_or, format,
  split,
}
use cluster_controller.Errors.{
  Outcome, ok, err, panic, Error, ok_or, or_default, expect, assert, is_ok, collect, ovn_not_found,
  ovn_conflict, ovn_deserialization_failed,
}
use cluster_controller.Errors
use cluster_controller.Crd.{Network, NetworkType, NetworkStatus, DhcpSpec, RouterAttachment}
use cluster_controller.Crd
use cluster_controller.World.{Ovn, M, ◌>>=◌, ◌>>◌, lift, pure, fail, try, for_each}
use cluster_controller.Kube.{
  vm_resource, network_resource, router_resource, ensure_finalizer, remove_finalizer,
  name_prefixed_with_namespace, namespace_unchecked, set_network_status,
}
use cluster_controller.Controller.{Action, requeue, await_change, field_manager}
use cluster_controller.Ovn.Lowlevel.{try_from_annotations}
use cluster_controller.Ovn.Common.{or_create, get_by_name, create_if_missing, delete}
use cluster_controller.Ovn.Types.{
  LogicalRouter, LogicalSwitch, static_route_common, logical_router_named,
  logical_router_port_named, logical_switch_named, logical_switch_port_named, dhcp_options_common,
}
use cluster_controller.Ovn.Ports.{set_cidr}
use cluster_controller.Ovn.Dhcp.{get_by_cidr, create_dhcp_options, set_options}
use cluster_controller.Ovn.Connect.{connect_router_to_ls}

unfoldable pub ensure_dhcp : String → DhcpSpec → Ovn → M (Unit {0})
ensure_dhcp name dhcp o =
    try (get_by_cidr o dhcp.cidr) >>= or_create (create_dhcp_options o dhcp.cidr) >>= λ dhcp_opts.
    set_options dhcp_opts dhcp >> get_by_name {A = LogicalSwitch} o name >>= λ ls.
    set_cidr ls dhcp.cidr

-- The namespace and the name of a router, by the parts of its name between slashes.
abbrev pub router_parts : String → List String → Outcome (String × String)
router_parts network_ns (name ∷ []) = ok (network_ns, name)
router_parts network_ns (namespace ∷ name ∷ []) = ok (namespace, name)
router_parts network_ns _ = panic

unfoldable pub router_name : String → String → Outcome String
router_name network_ns text =
    Errors.◌>>=◌ (router_parts network_ns (split b'/' text))
      λ (namespace, name). ok (format (namespace ∷ "-" ∷ name ∷ []))

unfoldable pub ensure_router_attachment : Network → Ovn → RouterAttachment → M (Unit {0})
ensure_router_attachment network o router_attachment =
    lift (namespace_unchecked network) >>= λ network_ns.
    lift (router_name network_ns router_attachment.name) >>= λ lr_name.
    get_by_name {A = LogicalRouter} o lr_name >>= λ lr.
    lift (name_prefixed_with_namespace network) >>= λ ls_name.
    get_by_name {A = LogicalSwitch} o ls_name >>= λ ls.
    connect_router_to_ls lr ls router_attachment.address

abbrev pub is_ovn : NetworkType → Bool
is_ovn Crd.ovn = true
is_ovn Crd.evpn = false

-- `network.spec.network_type.clone().unwrap_or_default() == NetworkType::Ovn`
abbrev pub is_ovn_network : Network → Bool
is_ovn_network network = is_ovn (get_or network.spec.network_type Crd.ovn)

abbrev pub dhcp_step : String → Ovn → Option DhcpSpec → M (Unit {0})
dhcp_step name o none = pure tt
dhcp_step name o (some dhcp_options) = ensure_dhcp name dhcp_options o

unfoldable pub update_network : Network → M Action
update_network network =
    if is_ovn_network network
    then lift (name_prefixed_with_namespace network) >>= (λ name. try_from_annotations >>= λ o.
        ensure_finalizer network "ovn" (field_manager "ovn") >>= λ kept.
        create_if_missing {A = LogicalSwitch} o name
        >> dhcp_step name o kept.spec.dhcp
        >> for_each (ensure_router_attachment kept o) (get_or kept.spec.routers [])
        >> set_network_status kept (record { is_created = true })
        >> pure (requeue 600))
    else pure await_change

-- A switch that is not there need not be deleted.
abbrev pub delete_found : Outcome LogicalSwitch → M (Unit {0})
delete_found (ok ls) = delete ls
delete_found (err (ovn_not_found kind name)) = pure tt
delete_found (err e) = fail e
delete_found panic = lift panic

unfoldable pub remove_network : Network → M Action
remove_network network =
    if is_ovn_network network
    then try_from_annotations >>= (λ o. lift (name_prefixed_with_namespace network) >>= λ name.
        try (get_by_name {A = LogicalSwitch} o name)
        >>= delete_found
        >> remove_finalizer network "ovn" (field_manager "ovn")
        >> pure (requeue 600))
    else pure await_change
