-- ===== src/Tests/Database.antt =====
-- Examples of the theorems about the OVN northbound database and its controllers.
use cluster_controller.Prelude.{
  String, ◌≡◌, inl, inr, refl, true, none, some, List, [], ◌∷◌, find, lookup, lowercase, All,
}
use cluster_controller.Errors.{ok, expect}
use cluster_controller.Json.{num, str, array, object}
use cluster_controller.World.{by_position, request, Event, Env, World, done, for_each}
use cluster_controller.Kube.{
  commit, full_finalizer, remove_finalizer, has_finalizer, vm_resource,
  name_prefixed_with_namespace, network_resource, router_resource,
}
use cluster_controller.Controller.{requeue, await_change}
use cluster_controller.Node.{ovn_central_status, ovn_central_annotated_ip}
use cluster_controller.Ovn.Jsonrpc.{try_new_connection, next_id, find_response, send_request}
use cluster_controller.Ovn.Jsonrpc.Matching.{answers, after_request, send_request_lem}
use cluster_controller.Ovn.Deserialization.{
  deserialize_object, deserialize_uuid, deserialize_string, deserialize_map, deserialize_uuid_set,
}
use cluster_controller.Ovn.Deserialization.RoundTrip.{
  encode_map, last_value, deserialize_map-encode,
}
use cluster_controller.Ovn.Lowlevel.{
  transact, list_objects, type_logical_switch, type_logical_router_static_route, check_results,
  try_nodes, try_from_annotations, central_address,
}
use cluster_controller.Ovn.Lowlevel.Transactions.{IsClean, after_transact, transact-IsClean}
use cluster_controller.Ovn.Lowlevel.Servers.{Ending, try_nodes-Ending}
use cluster_controller.Ovn.Common.{list, get_by_name}
use cluster_controller.Ovn.Types.{
  StaticRoute, static_route_common, logical_router_named, logical_router_port_named,
  logical_switch_named, logical_switch_port_named, dhcp_options_common, deserialize_logical_router,
  deserialize_logical_switch, deserialize_logical_switch_port,
}
use cluster_controller.Ovn.Ports.{del_lsp}
use cluster_controller.Ovn.Routes.{routes_to_add, select_routes, get_routes, set_routes}
use cluster_controller.Ovn.Routes.Sync.{DistinctUuids}
use cluster_controller.Ovn.Types.{LogicalRouter, deserialize_static_route}
use cluster_controller.Prelude.{map, arith}
use cluster_controller.Ovn.Routes.Names.{Distinct, route_names-Distinct}
use cluster_controller.Ovn.Routes.Writes.{Synchronized, set_routes-writes}
use cluster_controller.Networks.MachinePorts.{remove_vm, get_vm_ovn_nics, disconnect_vm_nic}
use cluster_controller.Networks.Connection.{Attached, update_vm-Attached}
use cluster_controller.Networks.MachinePorts.{update_vm, connect_nics, connect_vm_nic}
use cluster_controller.Ovn.Ports.{
  create_lsp_if_missing, set_address, find_lsp_owner, get_by_mac, get_cidr, dynamic_ip,
}
use cluster_controller.Kube.{ensure_finalizer, set_vm_status}
use cluster_controller.Prelude.{split, has_substring}
use cluster_controller.Tests.Fixtures.{network}
use cluster_controller.Networks.Disconnection.{Released, remove_vm-Disconnected}
use cluster_controller.World.Monad.Inversion.{world_of}
use cluster_controller.Crd.{VirtualMachine, Route}
use cluster_controller.Tests.Fixtures.{
  quiet, start, on_a, nic, status_on, o, central, row, answer, listed, reached,
}

abbrev route_row : StaticRoute
route_row = record { ovn = o; uuid = "u1"; ip_prefix = "10.0.0.0/8"; nexthop = "10.0.0.1" }

one_row_distinct : DistinctUuids (route_row ∷ [])
one_row_distinct a b (inl p) (inl q) e = cc
one_row_distinct a b (inl p) (inr q) e = absurd q.1
one_row_distinct a b (inr p) q e = absurd p.1

abbrev with_routes : LogicalRouter
with_routes = record { ovn = o; uuid = "u1"; name = "ns-net"; static_route_uuids = "u1" ∷ [] }

abbrev wanted : List Route
wanted = (record { cidr = "10.1.0.0/16"; nexthop = "10.0.0.2" }) ∷ []

abbrev routes_listed : World
routes_listed = listed type_logical_router_static_route start

set_routes-writes_example :
    Synchronized with_routes
      (route_row ∷ [])
      wanted
      routes_listed
      (world_of (set_routes with_routes wanted quiet start))
unfolding set_routes get_routes select_routes list list_objects transact send_request next_id
    find_response check_results deserialize_static_route deserialize_object deserialize_uuid
    deserialize_string
set_routes-writes_example =
    set_routes-writes with_routes wanted quiet start routes_listed _ (route_row ∷ []) refl refl
      one_row_distinct

route_names-Distinct_example :
    Distinct (map (λ (e : String × Route). e.0) (routes_to_add (route_row ∷ []) 0 wanted))
unfolding routes_to_add
route_names-Distinct_example = route_names-Distinct (route_row ∷ []) wanted (omega arith)

send_request_lem_example : send_request o "echo" (by_position []) quiet start ≡ (
  expect (find (answers 0) (answer (Event.send o (request (num 0) "echo" (by_position [])) ∷ []))),
  after_request o "echo" (by_position []) start,
)
send_request_lem_example = send_request_lem o "echo" (by_position []) quiet start

transact-IsClean_example :
    ((after_transact o [] start).log
      ≡ Event.send o (request (num 0) "transact" (by_position (str "OVN_Northbound" ∷ []))) ∷ [])
    × All IsClean (object (("rows", array (row ∷ [])) ∷ []) ∷ [])
unfolding transact send_request next_id find_response check_results
transact-IsClean_example = transact-IsClean o [] quiet start refl

deserialize_map-encode_example :
    (m : List (String × String)) × (deserialize_map (("f", encode_map (("k", "v") ∷ [])) ∷ []) "f"
      ≡ ok m)
    × ((k : String) → lookup k m ≡ last_value k (("k", "v") ∷ []) none)
deserialize_map-encode_example =
    deserialize_map-encode (("f", encode_map (("k", "v") ∷ [])) ∷ []) "f" (("k", "v") ∷ []) refl

try_nodes-Ending_example :
    Ending
      (λ host. done tt)
      quiet
      (λ h host. refl)
      true
      none
      (try_nodes none (central ∷ []) quiet start).0
unfolding central_address ovn_central_annotated_ip
try_nodes-Ending_example =
    try_nodes-Ending (λ host. done tt) quiet (λ h host. refl) (central ∷ []) none start

abbrev central_env : Env
central_env = record quiet { kube = record quiet.kube { nodes = λ h. done (central ∷ []) } }

abbrev connected : World
connected = listed type_logical_switch reached

abbrev attached : VirtualMachine
attached = record on_a {
  metadata = record on_a.metadata { finalizers = some (full_finalizer "ovn" ∷ "other" ∷ []) };
  status = some (record (status_on (some "a") true) {
    networks = (record nic { name = some "net"; ovn_id = some "ns-net" }) ∷ nic ∷ [];
  });
}

remove_vm-Disconnected_example :
    Released attached central_env start (world_of (remove_vm attached central_env start))
unfolding lowercase try_from_annotations try_nodes central_address ovn_central_status
    ovn_central_annotated_ip try_new_connection name_prefixed_with_namespace get_by_name list
    list_objects transact send_request next_id find_response check_results
    deserialize_logical_switch deserialize_logical_switch_port deserialize_logical_router
    deserialize_object deserialize_uuid deserialize_string deserialize_map deserialize_uuid_set
    remove_vm get_vm_ovn_nics disconnect_vm_nic del_lsp for_each remove_finalizer has_finalizer
    commit
remove_vm-Disconnected_example =
    remove_vm-Disconnected attached central_env start _ await_change refl

abbrev network_env : Env
network_env = record central_env {
  kube = record central_env.kube { network = λ h namespace name. done network };
}

update_vm-Attached_example :
    Attached attached network_env start (world_of (update_vm attached network_env start))
unfolding lowercase split has_substring try_from_annotations try_nodes central_address
    ovn_central_status ovn_central_annotated_ip try_new_connection name_prefixed_with_namespace
    get_by_name list list_objects transact send_request next_id find_response check_results
    deserialize_logical_switch deserialize_logical_switch_port deserialize_logical_router
    deserialize_object deserialize_uuid deserialize_string deserialize_map deserialize_uuid_set
    update_vm connect_nics get_vm_ovn_nics connect_vm_nic create_lsp_if_missing set_address
    find_lsp_owner get_by_mac get_cidr dynamic_ip ensure_finalizer has_finalizer commit
    set_vm_status
update_vm-Attached_example = update_vm-Attached attached network_env start _ (requeue 600) refl
