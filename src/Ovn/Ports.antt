-- ===== src/Ovn/Ports.antt =====
-- src/interfaces/ovn/types/logicalswitch.rs and logicalswitchport.rs: switches and their ports.
pub mod Address
use cluster_controller.Prelude.{
  ℕ, zero, suc, ◌+◌, ◌-◌, ◌*◌, ◌%◌, ◌^◌, ◌≤◌, ◌<◌, String, ◌≡◌, ◌≢◌, ◌⊎◌, inl, inr, refl, sym, ap,
  Bool, true, false, ◌&&◌, ◌||◌, not, Option, none, some, List, [], ◌∷◌, ◌++◌, map, arith, ltb, leb,
  nat_eq, ◌==◌, option_eq, if◌then◌else◌, is_some, get_or, and_then, map_option, length, get_elem?,
  head?, retain, find, any, filter_map, contains, lookup, insert, remove, format, join, split,
  has_substring, ends_with, to_decimal, Bool-cases, Option-cases, eq_iff, All, In,
}
use cluster_controller.Errors.{
  Outcome, ok, err, panic, Error, ok_or, or_default, expect, assert, is_ok, collect, ovn_not_found,
  ovn_conflict, ovn_deserialization_failed,
}
use cluster_controller.Errors
use cluster_controller.Json.{
  Value, null, bool, num, real, str, arr, obj, array, object, as_array, as_object, as_str, is_null,
  is_text, is_number, to_list, to_map, of_list, of_map, to_list-of_list, to_map-of_map,
}
use cluster_controller.World.{
  Ovn, Params, by_position, by_name, Message, request, response, Event, Env, World, M, ◌>>=◌, ◌>>◌,
  lift, observe, ask, pure, fail, try, read, happen, for_each,
}
use cluster_controller.Ovn.Lowlevel.{
  transact, list_objects, insert_object, delete_by_uuid, where_uuid, type_logical_switch,
  type_logical_switch_port, type_logical_router, type_logical_router_port,
  type_logical_router_static_route, type_dhcp_options,
}
use cluster_controller.Ovn.Common.{
  named_common, OvnCommon, OvnNamed, or_create, list, get_by_name, create, create_if_missing,
  delete,
}
use cluster_controller.Ovn.Types.{
  StaticRoute, LogicalRouter, LogicalRouterPort, LogicalSwitch, LogicalSwitchPort, DhcpOptions,
  static_route_common, logical_router_named, logical_router_port_named, logical_switch_named,
  logical_switch_port_named, dhcp_options_common,
}

-- `LogicalSwitch::set_cidr`
unfoldable pub set_cidr : LogicalSwitch → String → M (Unit {0})
set_cidr ls cidr =
    transact ls.ovn (
      object (
        ("op", str "update")
        ∷ ("table", str "Logical_Switch")
        ∷ ("where", where_uuid ls.uuid)
        ∷ (
          "row",
          object (
              (
                "other_config",
                array (str "map" ∷ array (array (str "subnet" ∷ str cidr ∷ []) ∷ []) ∷ []),
              )
              ∷ []),
        )
        ∷ [])
      ∷ [])
    >> pure tt

-- `LogicalSwitch::get_cidr`
unfoldable pub get_cidr : LogicalSwitch → Option String
get_cidr ls = lookup "subnet" ls.other_config

abbrev pub delete_port_operation : LogicalSwitch → LogicalSwitchPort → Value
delete_port_operation ls lsp = object (
    ("op", str "mutate")
    ∷ ("table", str type_logical_switch)
    ∷ (
      "mutations",
      array (
          array (
            str "ports"
            ∷ str "delete"
            ∷ array (str "set" ∷ array (array (str "uuid" ∷ str lsp.uuid ∷ []) ∷ []) ∷ [])
            ∷ [])
          ∷ []),
    )
    ∷ ("where", where_uuid ls.uuid)
    ∷ [])

-- `LogicalSwitch::del_lsp`
unfoldable pub del_lsp : LogicalSwitch → String → M (Unit {0})
del_lsp ls lsp_id = get_by_name {A = LogicalSwitchPort} ls.ovn lsp_id >>= λ lsp.
    transact ls.ovn (delete_port_operation ls lsp ∷ []) >> pure tt

-- `LogicalSwitch::find_lsp_owner`
unfoldable pub find_lsp_owner : Ovn → LogicalSwitchPort → M LogicalSwitch
find_lsp_owner o lsp = list {A = LogicalSwitch} o >>= λ switches. lift (
    ok_or (find (λ (s : LogicalSwitch). contains s.port_ids lsp.uuid) switches)
      (ovn_not_found type_logical_switch (format ("owner of " ∷ lsp.uuid ∷ []))))

abbrev pub insert_port_operations : LogicalSwitch → List (String × Value) → List Value
insert_port_operations ls params =
    object (
      ("op", str "insert")
      ∷ ("table", str type_logical_switch_port)
      ∷ ("row", object params)
      ∷ ("uuid-name", str "new_lsp")
      ∷ [])
    ∷ object (
        ("op", str "mutate")
        ∷ ("table", str type_logical_switch)
        ∷ ("where", where_uuid ls.uuid)
        ∷ (
          "mutations",
          array (
              array (
                str "ports"
                ∷ str "insert"
                ∷ array
                    (str "set" ∷ array (array (str "named-uuid" ∷ str "new_lsp" ∷ []) ∷ []) ∷ [])
                ∷ [])
              ∷ []),
        )
        ∷ [])
    ∷ []

-- `LogicalSwitchPortBuilder::create`, for the builder that `LogicalSwitch::lsp` makes
unfoldable pub create_lsp :
    LogicalSwitch → String → Option (List (String × Value)) → M LogicalSwitchPort
create_lsp ls lsp_name extra_params =
    transact ls.ovn
      (insert_port_operations ls (insert "name" (str lsp_name) (get_or extra_params [])))
    >> get_by_name ls.ovn lsp_name

-- `LogicalSwitchPortBuilder::create_if_missing`
unfoldable pub create_lsp_if_missing :
    LogicalSwitch → String → Option (List (String × Value)) → M LogicalSwitchPort
create_lsp_if_missing ls lsp_name extra_params =
    try (get_by_name ls.ovn lsp_name) >>= or_create (create_lsp ls lsp_name extra_params)

-- `LogicalSwitchPortBuilder::get_by_mac`: among the ports of the switch.
unfoldable pub get_by_mac : LogicalSwitch → String → M LogicalSwitchPort
get_by_mac ls mac_address = list {A = LogicalSwitchPort} ls.ovn >>= λ all_lsps.
    let own = retain (λ (lsp : LogicalSwitchPort). contains ls.port_ids lsp.uuid) all_lsps in
    lift (
      ok_or (find (λ (lsp : LogicalSwitchPort). has_substring lsp.addresses mac_address) own)
        (ovn_not_found type_logical_switch_port mac_address))

pub data IpConfiguration : Type 0 where
  address : String → IpConfiguration
  dynamic : IpConfiguration
  unconfigured : IpConfiguration

abbrev pub port_address : String → IpConfiguration → String
port_address mac_address (address ip) = format (mac_address ∷ " " ∷ ip ∷ [])
port_address mac_address dynamic = format (mac_address ∷ " dynamic" ∷ [])
port_address mac_address unconfigured = mac_address

abbrev pub set_address_operation : LogicalSwitchPort → String → Value
set_address_operation lsp text = object (
    ("op", str "update")
    ∷ ("table", str type_logical_switch_port)
    ∷ ("where", where_uuid lsp.uuid)
    ∷ ("row", object (("addresses", str text) ∷ []))
    ∷ [])

-- After the search for another port with the MAC address.
abbrev pub write_address :
    LogicalSwitchPort → String → IpConfiguration → Outcome LogicalSwitchPort → M (Unit {0})
write_address lsp mac_address ip_address (ok other) = fail (ovn_conflict mac_address)
write_address lsp mac_address ip_address (err e) =
    transact lsp.ovn (set_address_operation lsp (port_address mac_address ip_address) ∷ [])
    >> pure tt
write_address lsp mac_address ip_address panic = lift panic

-- `LogicalSwitchPort::set_address`
unfoldable pub set_address : LogicalSwitchPort → String → IpConfiguration → M (Unit {0})
set_address lsp mac_address ip_address =
    if has_substring lsp.addresses mac_address
    then pure tt
    else find_lsp_owner lsp.ovn lsp >>= λ ls.
        try (get_by_mac ls mac_address) >>= write_address lsp mac_address ip_address

-- `LogicalSwitchPort::dynamic_ip`: the second word of "mac ip".
unfoldable pub dynamic_ip : LogicalSwitchPort → Option String
dynamic_ip lsp = get_elem? (split b' ' lsp.dynamic_addresses) 1

-- `LogicalSwitchPort::get_by_ip`
unfoldable pub get_by_ip : Ovn → String → M (List LogicalSwitchPort)
get_by_ip o ip = list {A = LogicalSwitchPort} o >>= λ ports.
    pure (retain (λ (port : LogicalSwitchPort). get_or (dynamic_ip port) "" == ip) ports)
