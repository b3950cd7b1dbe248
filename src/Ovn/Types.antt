-- ===== src/Ovn/Types.antt =====
-- The objects of src/interfaces/ovn/types, with the way they are read from rows.
use cluster_controller.Prelude.{String, List, [], ◌∷◌, and_then, lookup, get_elem?}
use cluster_controller.Errors.{
  Outcome, ok, panic, ◌>>=◌, ok_or, or_default, expect, collect, ovn_deserialization_failed,
}
use cluster_controller.Json.{Value, str, arr, to_list, as_array, as_str}
use cluster_controller.World.{Ovn}
use cluster_controller.Ovn.Deserialization.{
  deserialize_object, deserialize_uuid, deserialize_string, deserialize_map, deserialize_uuid_set,
}
use cluster_controller.Ovn.Lowlevel.{
  type_logical_switch, type_logical_switch_port, type_logical_router, type_logical_router_port,
  type_logical_router_static_route, type_dhcp_options,
}
use cluster_controller.Ovn.Common.{OvnCommon, OvnNamed}

pub record StaticRoute : Type 0 where
  pub ovn : Ovn
  pub uuid : String
  pub ip_prefix : String
  pub nexthop : String

pub record LogicalRouter : Type 0 where
  pub ovn : Ovn
  pub uuid : String
  pub name : String
  pub static_route_uuids : List String

pub record LogicalRouterPort : Type 0 where
  pub ovn : Ovn
  pub uuid : String
  pub name : String

pub record LogicalSwitch : Type 0 where
  pub ovn : Ovn
  pub uuid : String
  pub name : String
  pub port_ids : List String
  pub other_config : List (String × String)

pub record LogicalSwitchPort : Type 0 where
  pub ovn : Ovn
  pub uuid : String
  pub name : String
  pub addresses : String
  pub dynamic_addresses : String

pub record DhcpOptions : Type 0 where
  pub ovn : Ovn
  pub uuid : String
  pub cidr : String

unfoldable pub deserialize_static_route : Ovn → Value → Outcome StaticRoute
deserialize_static_route o value = do
  object ← deserialize_object value
  uuid ← deserialize_uuid object
  ip_prefix ← deserialize_string object "ip_prefix"
  nexthop ← deserialize_string object "nexthop"
  ok (record { ovn = o; uuid = uuid; ip_prefix = ip_prefix; nexthop = nexthop })

-- ["uuid", id], taken apart by index
abbrev pub route_uuid : Value → Outcome String
route_uuid item =
    expect (as_array item) >>= λ pair. expect (get_elem? pair 1) >>= λ id. expect (as_str id)

abbrev pub route_uuids : Value → Outcome (List String)
route_uuids (str uuid) = ok (uuid ∷ [])
route_uuids (arr uuids_arrays) = collect route_uuid (to_list uuids_arrays)
route_uuids _ = panic

unfoldable pub deserialize_logical_router : Ovn → Value → Outcome LogicalRouter
deserialize_logical_router o value = do
  object ← deserialize_object value
  route_set ←
      ok_or (and_then (and_then (lookup "static_routes" object) as_array) (λ a. get_elem? a 1))
        ovn_deserialization_failed
  uuids ← route_uuids route_set
  uuid ← deserialize_uuid object
  name ← deserialize_string object "name"
  ok (record { ovn = o; uuid = uuid; name = name; static_route_uuids = uuids })

unfoldable pub deserialize_logical_router_port : Ovn → Value → Outcome LogicalRouterPort
deserialize_logical_router_port o value = do
  object ← deserialize_object value
  uuid ← deserialize_uuid object
  name ← deserialize_string object "name"
  ok (record { ovn = o; uuid = uuid; name = name })

unfoldable pub deserialize_logical_switch : Ovn → Value → Outcome LogicalSwitch
deserialize_logical_switch o value = do
  object ← deserialize_object value
  uuid ← deserialize_uuid object
  name ← deserialize_string object "name"
  port_ids ← deserialize_uuid_set object "ports"
  other_config ← deserialize_map object "other_config"
  ok (record {
    ovn = o;
    uuid = uuid;
    name = name;
    port_ids = port_ids;
    other_config = other_config;
  })

-- A port without addresses has none: the set that OVN sends then is no text.
unfoldable pub deserialize_logical_switch_port : Ovn → Value → Outcome LogicalSwitchPort
deserialize_logical_switch_port o value = do
  object ← deserialize_object value
  uuid ← deserialize_uuid object
  name ← deserialize_string object "name"
  addresses ← or_default (deserialize_string object "addresses") ""
  dynamic_addresses ← or_default (deserialize_string object "dynamic_addresses") ""
  ok (record {
    ovn = o;
    uuid = uuid;
    name = name;
    addresses = addresses;
    dynamic_addresses = dynamic_addresses;
  })

unfoldable pub deserialize_dhcp_options : Ovn → Value → Outcome DhcpOptions
deserialize_dhcp_options o value = do
  object ← deserialize_object value
  uuid ← deserialize_uuid object
  cidr ← deserialize_string object "cidr"
  ok (record { ovn = o; uuid = uuid; cidr = cidr })

instance abbrev pub static_route_common : OvnCommon StaticRoute
static_route_common = record {
  uuid = λ x. x.uuid;
  ovn = λ x. x.ovn;
  ovn_type = type_logical_router_static_route;
  deserialize = deserialize_static_route;
}

instance abbrev pub logical_router_named : OvnNamed LogicalRouter
logical_router_named = record {
  common = record {
    uuid = λ x. x.uuid;
    ovn = λ x. x.ovn;
    ovn_type = type_logical_router;
    deserialize = deserialize_logical_router;
  };
  name = λ x. x.name;
}

instance abbrev pub logical_router_port_named : OvnNamed LogicalRouterPort
logical_router_port_named = record {
  common = record {
    uuid = λ x. x.uuid;
    ovn = λ x. x.ovn;
    ovn_type = type_logical_router_port;
    deserialize = deserialize_logical_router_port;
  };
  name = λ x. x.name;
}

instance abbrev pub logical_switch_named : OvnNamed LogicalSwitch
logical_switch_named = record {
  common = record {
    uuid = λ x. x.uuid;
    ovn = λ x. x.ovn;
    ovn_type = type_logical_switch;
    deserialize = deserialize_logical_switch;
  };
  name = λ x. x.name;
}

instance abbrev pub logical_switch_port_named : OvnNamed LogicalSwitchPort
logical_switch_port_named = record {
  common = record {
    uuid = λ x. x.uuid;
    ovn = λ x. x.ovn;
    ovn_type = type_logical_switch_port;
    deserialize = deserialize_logical_switch_port;
  };
  name = λ x. x.name;
}

instance abbrev pub dhcp_options_common : OvnCommon DhcpOptions
dhcp_options_common = record {
  uuid = λ x. x.uuid;
  ovn = λ x. x.ovn;
  ovn_type = type_dhcp_options;
  deserialize = deserialize_dhcp_options;
}
