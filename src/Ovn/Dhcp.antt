-- ===== src/Ovn/Dhcp.antt =====
-- src/interfaces/ovn/types/dhcpoptions.rs, and the port side of it in logicalswitchport.rs.
use cluster_controller.Prelude.{
  String, Option, none, some, List, [], ◌∷◌, ◌++◌, map, ◌==◌, map_option, get_elem?, find, format,
  to_decimal,
}
use cluster_controller.Errors.{Outcome, ok, err, Error, ok_or, expect, ovn_not_found}
use cluster_controller.Json.{Value, str, array, object}
use cluster_controller.World.{Ovn, M, ◌>>=◌, ◌>>◌, lift, pure, read}
use cluster_controller.Ovn.Lowlevel.{transact, where_uuid, type_dhcp_options}
use cluster_controller.Ovn.Common.{list}
use cluster_controller.Ovn.Types.{
  LogicalSwitchPort, DhcpOptions, static_route_common, logical_router_named,
  logical_router_port_named, logical_switch_named, logical_switch_port_named, dhcp_options_common,
}
use cluster_controller.Crd.{DhcpSpec}
use cluster_controller.World.{Reply, done, failed}

-- `DhcpOptions::get_by_cidr`
unfoldable pub get_by_cidr : Ovn → String → M DhcpOptions
get_by_cidr o cidr = list {A = DhcpOptions} o >>= λ all.
    lift (
      ok_or (find (λ (x : DhcpOptions). x.cidr == cidr) all) (ovn_not_found type_dhcp_options cidr))

-- `DhcpOptions::create`
unfoldable pub create_dhcp_options : Ovn → String → M DhcpOptions
create_dhcp_options o cidr =
    transact o (
      object (
        ("op", str "insert")
        ∷ ("table", str type_dhcp_options)
        ∷ ("row", object (("cidr", str cidr) ∷ []))
        ∷ ("uuid-name", str "new_dhcp_options")
        ∷ [])
      ∷ [])
    >> get_by_cidr o cidr

-- One name of `push_dhcp_opts!`: a value that is set becomes a pair.
abbrev pub push : String → Option String → List (String × String) → List (String × String)
push name none options = options
push name (some value) options = options ++ (name, value) ∷ []

abbrev pub quoted : String → String
quoted value = format ("\"" ∷ value ∷ "\"" ∷ [])

-- The options of a network, the server's address first.
unfoldable pub dhcp_pairs : String → DhcpSpec → List (String × String)
dhcp_pairs server dhcp = push "router" dhcp.router (
    push "domain_name" (map_option quoted dhcp.domain_name) (
      push "dns_server" dhcp.dns_server (
        push "lease_time" (map_option to_decimal dhcp.lease_time)
          (("server_id", server) ∷ ("server_mac", "c0:ff:ee:00:00:01") ∷ []))))

abbrev pub pair_value : String × String → Value
pair_value (k, v) = array (str k ∷ str v ∷ [])

abbrev pub set_options_operation : DhcpOptions → List (String × String) → Value
set_options_operation opts pairs = object (
    ("op", str "update")
    ∷ ("table", str type_dhcp_options)
    ∷ ("where", where_uuid opts.uuid)
    ∷ ("row", object (("options", array (str "map" ∷ array (map pair_value pairs) ∷ [])) ∷ []))
    ∷ [])

abbrev pub parsed_hosts : Reply String (List String) → Outcome (List String)
parsed_hosts (done hosts) = ok hosts
parsed_hosts (failed e) = err (Error.parse_network e)

-- `DhcpOptions::set_options`: the CIDR is parsed, and its first host is the server.
unfoldable pub set_options : DhcpOptions → DhcpSpec → M (Unit {0})
set_options opts dhcp = read (λ env. parsed_hosts (env.libraries.hosts opts.cidr)) >>= λ net.
    lift net >>= λ hosts. lift (expect (get_elem? hosts 0)) >>= λ server.
    transact opts.ovn (set_options_operation opts (dhcp_pairs server dhcp) ∷ []) >> pure tt

-- `LogicalSwitchPort::set_dhcp_options`
unfoldable pub set_dhcp_options : LogicalSwitchPort → String → M (Unit {0})
set_dhcp_options lsp cidr = get_by_cidr lsp.ovn cidr >>= λ dhcp_options.
    transact lsp.ovn (
      object (
        ("op", str "update")
        ∷ ("table", str "Logical_Switch_Port")
        ∷ ("where", where_uuid lsp.uuid)
        ∷ ("row", object (("dhcpv4_options", array (str "uuid" ∷ str dhcp_options.uuid ∷ [])) ∷ []))
        ∷ [])
      ∷ [])
    >> pure tt
