-- ===== src/Ovn/Connect.antt =====
-- src/interfaces/ovn/utils.rs: a router is connected to a switch by a pair of ports.
use cluster_controller.Prelude.{String, some, List, [], ◌∷◌, format}
use cluster_controller.Json.{Value, str, array}
use cluster_controller.World.{M, ◌>>=◌, ◌>>◌, pure}
use cluster_controller.Ovn.Types.{
  LogicalRouter, LogicalSwitch, static_route_common, logical_router_named,
  logical_router_port_named, logical_switch_named, logical_switch_port_named, dhcp_options_common,
}
use cluster_controller.Ovn.Ports.{create_lsp_if_missing}
use cluster_controller.Ovn.RouterPorts.{create_lrp_if_missing, update_lrp}

abbrev pub router_port_params : String → List (String × Value)
router_port_params lrp_name =
    ("type", str "router")
    ∷ ("addresses", str "router")
    ∷ (
      "options",
      array (str "map" ∷ array (array (str "router-port" ∷ str lrp_name ∷ []) ∷ []) ∷ []),
    )
    ∷ []

unfoldable pub connect_router_to_ls : LogicalRouter → LogicalSwitch → String → M (Unit {0})
connect_router_to_ls lr ls address =
    let lrp_name = format ("lr_" ∷ lr.name ∷ "_ls_" ∷ ls.name ∷ []) in
    let lsp_name = format ("ls_" ∷ ls.name ∷ "_lr_" ∷ lr.name ∷ []) in
    create_lrp_if_missing lr lrp_name address >>= λ lrp.
    update_lrp lrp address
    >> create_lsp_if_missing ls lsp_name (some (router_port_params lrp_name))
    >> pure tt
