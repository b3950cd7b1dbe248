-- ===== src/Ovn/RouterPorts.antt =====
-- src/interfaces/ovn/types/logicalrouterport.rs.
use cluster_controller.Prelude.{String, List, [], ◌∷◌}
use cluster_controller.Json.{Value, str, array, object}
use cluster_controller.World.{M, ◌>>=◌, ◌>>◌, pure, try}
use cluster_controller.Ovn.Lowlevel.{
  transact, where_uuid, type_logical_router, type_logical_router_port,
}
use cluster_controller.Ovn.Common.{or_create, get_by_name}
use cluster_controller.Ovn.Types.{
  LogicalRouter, LogicalRouterPort, static_route_common, logical_router_named,
  logical_router_port_named, logical_switch_named, logical_switch_port_named, dhcp_options_common,
}

abbrev pub insert_router_port_operations : LogicalRouter → String → String → List Value
insert_router_port_operations lr lrp_name networks =
    object (
      ("op", str "insert")
      ∷ ("table", str type_logical_router_port)
      ∷ (
        "row",
        object (
            ("name", str lrp_name)
            ∷ ("mac", str "02:00:00:00:00:01")
            ∷ ("networks", str networks)
            ∷ []),
      )
      ∷ ("uuid-name", str "new_lrp")
      ∷ [])
    ∷ object (
        ("op", str "mutate")
        ∷ ("table", str type_logical_router)
        ∷ ("where", where_uuid lr.uuid)
        ∷ (
          "mutations",
          array (
              array (
                str "ports"
                ∷ str "insert"
                ∷ array
                    (str "set" ∷ array (array (str "named-uuid" ∷ str "new_lrp" ∷ []) ∷ []) ∷ [])
                ∷ [])
              ∷ []),
        )
        ∷ [])
    ∷ []

-- `LogicalRouterPortBuilder::create`, for the builder that `LogicalRouter::lrp` makes
unfoldable pub create_lrp : LogicalRouter → String → String → M LogicalRouterPort
create_lrp lr lrp_name networks =
    transact lr.ovn (insert_router_port_operations lr lrp_name networks)
    >> get_by_name lr.ovn lrp_name

-- `LogicalRouterPortBuilder::create_if_missing`
unfoldable pub create_lrp_if_missing : LogicalRouter → String → String → M LogicalRouterPort
create_lrp_if_missing lr lrp_name networks =
    try (get_by_name lr.ovn lrp_name) >>= or_create (create_lrp lr lrp_name networks)

-- `LogicalRouterPort::update`
unfoldable pub update_lrp : LogicalRouterPort → String → M (Unit {0})
update_lrp lrp networks =
    transact lrp.ovn (
      object (
        ("op", str "update")
        ∷ ("table", str type_logical_router_port)
        ∷ ("where", where_uuid lrp.uuid)
        ∷ (
          "row",
          object (
              ("name", str lrp.name)
              ∷ ("mac", str "02:00:00:00:00:01")
              ∷ ("networks", str networks)
              ∷ []),
        )
        ∷ [])
      ∷ [])
    >> pure tt
