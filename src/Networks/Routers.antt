-- ===== src/Networks/Routers.antt =====
-- src/cluster/controllers/router.rs: a router is a logical router with its static routes.
use cluster_controller.Prelude.{String, true, false, none, [], ◌∷◌, if◌then◌else◌, get_or, format}
use cluster_controller.Errors.{expect}
use cluster_controller.Crd.{Router}
use cluster_controller.World.{Ovn, M, ◌>>=◌, ◌>>◌, lift, pure}
use cluster_controller.Kube.{
  vm_resource, network_resource, router_resource, ensure_finalizer, remove_finalizer,
  name_prefixed_with_namespace, namespace_unchecked, set_router_status,
}
use cluster_controller.Controller.{Action, requeue, await_change, field_manager}
use cluster_controller.Metadata.Deployment.{deploy}
use cluster_controller.Ovn.Lowlevel.{try_from_annotations}
use cluster_controller.Ovn.Common.{get_by_name, create_if_missing, delete}
use cluster_controller.Ovn.Types.{
  LogicalRouter, LogicalSwitch, static_route_common, logical_router_named,
  logical_router_port_named, logical_switch_named, logical_switch_port_named, dhcp_options_common,
}
use cluster_controller.Ovn.Ports.{create_lsp_if_missing, set_address, address}
use cluster_controller.Ovn.Routes.{set_routes}
use cluster_controller.Ovn.Connect.{connect_router_to_ls}

unfoldable pub connect_metadataservice : LogicalRouter → Ovn → M (Unit {0})
connect_metadataservice lr o =
    let mds_name = format ("mds-" ∷ lr.name ∷ []) in
    create_if_missing {A = LogicalSwitch} o mds_name >>= λ ls.
    connect_router_to_ls lr ls "169.254.169.253/30"
    >> create_lsp_if_missing ls mds_name none
    >>= λ lsp. set_address lsp "02:00:00:00:00:02" (address "169.254.169.254")

-- With `metadata_service: true` the service is deployed and connected.
abbrev pub metadata_step : Router → LogicalRouter → String → Ovn → M (Unit {0})
metadata_step router lr namespace o =
    if get_or router.spec.metadata_service false
    then lift (expect router.metadata.name) >>= (λ router_name.
      deploy "ovn-cluster-controller" namespace router_name >> connect_metadataservice lr o)
    else pure tt

unfoldable pub update_router : Router → M Action
update_router router = try_from_annotations >>= λ o.
    lift (namespace_unchecked router) >>= λ namespace.
    lift (name_prefixed_with_namespace router) >>= λ name.
    ensure_finalizer router "ovn" (field_manager "ovn") >>= λ kept.
    create_if_missing {A = LogicalRouter} o name >>= λ lr.
    get_by_name {A = LogicalRouter} o name >>= λ found.
    set_routes found (get_or kept.spec.routes [])
    >> metadata_step kept lr namespace o
    >> set_router_status kept (record { is_created = true })
    >> pure (requeue 600)

unfoldable pub remove_router : Router → M Action
remove_router router = try_from_annotations >>= λ o.
    lift (name_prefixed_with_namespace router) >>= λ name.
    get_by_name {A = LogicalRouter} o name >>= λ lr.
    delete lr >> remove_finalizer router "ovn" (field_manager "ovn") >> pure await_change
