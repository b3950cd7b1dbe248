-- ===== src/Ovn/Routes.antt =====
-- src/interfaces/ovn/types/logicalrouter.rs: the static routes of a router.
pub mod Sync
pub mod Names
pub mod Writes
use cluster_controller.Prelude.{
  ℕ, zero, suc, ◌+◌, ◌-◌, ◌*◌, ◌%◌, ◌^◌, ◌≤◌, ◌<◌, String, ◌≡◌, ◌≢◌, ◌⊎◌, inl, inr, refl, sym, ap,
  Bool, true, false, ◌&&◌, ◌||◌, not, Option, none, some, List, [], ◌∷◌, ◌++◌, map, arith, ltb, leb,
  nat_eq, ◌==◌, option_eq, if◌then◌else◌, is_some, get_or, and_then, map_option, length, get_elem?,
  head?, retain, find, any, filter_map, contains, lookup, insert, remove, format, join, split,
  has_substring, ends_with, to_decimal, Bool-cases, Option-cases, eq_iff, All, In,
}
use cluster_controller.Errors.{
  Outcome, ok, err, panic, Error, ok_or, or_default, expect, assert, is_ok, collect, ovn_not_found,
  ovn_conflict, ovn_deserialization_failed,
}
use cluster_controller.Errors
use cluster_controller.Json.{
  Value, null, bool, num, real, str, arr, obj, array, object, as_array, as_object, as_str, is_null,
  is_text, is_number, to_list, to_map, of_list, of_map, to_list-of_list, to_map-of_map,
}
use cluster_controller.World.{
  Ovn, Params, by_position, by_name, Message, request, response, Event, Env, World, M, ◌>>=◌, ◌>>◌,
  lift, observe, ask, pure, fail, try, read, happen, for_each,
}
use cluster_controller.Ovn.Lowlevel.{
  transact, list_objects, insert_object, delete_by_uuid, where_uuid, type_logical_switch,
  type_logical_switch_port, type_logical_router, type_logical_router_port,
  type_logical_router_static_route, type_dhcp_options,
}
use cluster_controller.Ovn.Common.{
  OvnCommon, OvnNamed, or_create, list, get_by_name, create, create_if_missing, delete,
}
use cluster_controller.Ovn.Types.{
  StaticRoute, LogicalRouter, LogicalRouterPort, LogicalSwitch, LogicalSwitchPort, DhcpOptions,
  static_route_common, logical_router_named, logical_router_port_named, logical_switch_named,
  logical_switch_port_named, dhcp_options_common,
}
use cluster_controller.Crd.{Route}

-- The closure of the two loops: an existing route is the wanted one.
abbrev pub same_route : StaticRoute → Route → Bool
same_route old_route new_route =
    old_route.ip_prefix == new_route.cidr && old_route.nexthop == new_route.nexthop

-- The first loop: the routes to insert, each with the name of its row in the transaction. The
-- counter is a u8.
unfoldable pub routes_to_add : List StaticRoute → ℕ → List Route → List (String × Route)
routes_to_add old_routes i [] = []
routes_to_add old_routes i (new_route ∷ rest) =
    let known = any (λ old_route. same_route old_route new_route) old_routes in
    let later = routes_to_add old_routes (if known then i else (i + 1) % 256) rest in
    if known then later else (format ("new_route_" ∷ to_decimal i ∷ []), new_route) ∷ later

-- The second loop: the UUIDs of the routes to delete.
unfoldable pub routes_to_remove : List StaticRoute → List Route → List String
routes_to_remove [] new_routes = []
routes_to_remove (old_route ∷ rest) new_routes =
    let later = routes_to_remove rest new_routes in
    if any (λ new_route. same_route old_route new_route) new_routes
    then later
    else old_route.uuid ∷ later

abbrev pub insert_route_operation : String × Route → Value
insert_route_operation (id, new_route) = object (
    ("op", str "insert")
    ∷ ("table", str type_logical_router_static_route)
    ∷ ("row", object (("ip_prefix", str new_route.cidr) ∷ ("nexthop", str new_route.nexthop) ∷ []))
    ∷ ("uuid-name", str id)
    ∷ [])

abbrev pub named_uuid : String × Route → Value
named_uuid (id, new_route) = array (str "named-uuid" ∷ str id ∷ [])

abbrev pub plain_uuid : String → Value
plain_uuid uuid = array (str "uuid" ∷ str uuid ∷ [])

abbrev pub mutate_routes_operation : LogicalRouter → List (String × Route) → List String → Value
mutate_routes_operation lr to_add to_remove = object (
    (
      "mutations",
      array (
          array (
            str "static_routes"
            ∷ str "insert"
            ∷ array (str "set" ∷ array (map named_uuid to_add) ∷ [])
            ∷ [])
          ∷ array (
              str "static_routes"
              ∷ str "delete"
              ∷ array (str "set" ∷ array (map plain_uuid to_remove) ∷ [])
              ∷ [])
          ∷ []),
    )
    ∷ ("where", where_uuid lr.uuid)
    ∷ ("op", str "mutate")
    ∷ ("table", str "Logical_Router")
    ∷ [])

-- `LogicalRouter::get_routes`: a UUID without a row is a panic.
unfoldable pub select_routes : List StaticRoute → List String → Outcome (List StaticRoute)
select_routes all_routes uuids =
    collect (λ uuid. expect (find (λ (item : StaticRoute). item.uuid == uuid) all_routes)) uuids

unfoldable pub get_routes : LogicalRouter → M (List StaticRoute)
get_routes lr = list {A = StaticRoute} lr.ovn >>= λ all_routes.
    lift (select_routes all_routes lr.static_route_uuids)

-- The operations of `LogicalRouter::set_routes`, in one transaction.
unfoldable pub route_operations : LogicalRouter → List StaticRoute → List Route → List Value
route_operations lr old_routes new_routes =
    let to_add = routes_to_add old_routes 0 new_routes in
    map insert_route_operation to_add
    ++ (mutate_routes_operation lr to_add (routes_to_remove old_routes new_routes) ∷ [])

-- `LogicalRouter::set_routes`
unfoldable pub set_routes : LogicalRouter → List Route → M (Unit {0})
set_routes lr new_routes = get_routes lr >>= λ old_routes.
    transact lr.ovn (route_operations lr old_routes new_routes) >> pure tt
