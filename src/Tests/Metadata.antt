-- ===== src/Tests/Metadata.antt =====
-- Examples of the theorems about the metadata service.
use cluster_controller.Prelude.{
  ◌≡◌, refl, true, lowercase, none, some, List, [], ◌∷◌, ◌++◌, ◌≤◌, length, codes, split, All,
  map_option,
}
use cluster_controller.Errors.{ok}
use cluster_controller.Json.{Value, str, array, object, null}
use cluster_controller.Crd.{VirtualMachine}
use cluster_controller.World.{
  Event, Env, World, History, Message, request, response, done, happen, for_each, MetadataPayload,
}
use cluster_controller.World.Monad.Trace.{extend}
use cluster_controller.Node.{ovn_central_status, ovn_central_annotated_ip}
use cluster_controller.Kube.{name_prefixed_with_namespace, router_resource}
use cluster_controller.Cluster.{get_running_image, first_image}
use cluster_controller.Ovn.Jsonrpc.{try_new_connection, next_id, find_response, send_request}
use cluster_controller.Ovn.Lowlevel.{
  type_logical_switch_port, transact, list_objects, check_results, try_nodes, try_from_annotations,
  central_address,
}
use cluster_controller.Ovn.Common.{list}
use cluster_controller.Ovn.Types.{logical_switch_port_named, deserialize_logical_switch_port}
use cluster_controller.Ovn.Deserialization.{
  deserialize_object, deserialize_uuid, deserialize_string,
}
use cluster_controller.Ovn.Ports.{get_by_ip, dynamic_ip}
use cluster_controller.Metadata.Backend.{
  owns_port, userdata_of, answer_for, matching_vm, answer, handle_request, main,
}
use cluster_controller.Metadata.Backend.Grants.{Granted, answer-Granted}
use cluster_controller.Metadata.Backend.Answers.{Answered, main-Answered}
use cluster_controller.Metadata.Deployment.{
  deploy, create_rbac, create_deployment, make_deployment, make_service_account, make_cluster_role,
  make_cluster_role_binding, deployment_json,
}
use cluster_controller.World.Monad.Performance.{AllWentWell}
use cluster_controller.Metadata.Deployment.Writes.{Deployed, deploy-log}
use cluster_controller.Metadata.Networking.{
  command, create_ns, create_interface, take_text, generate_interface_prefix, host_interface,
  ns_interface,
}
use cluster_controller.Metadata.Networking.Names.{interface_names_bounded}
use cluster_controller.Metadata.Networking.Configured.{
  port_is_there, interface_events, namespace_events, enter_namespace-log,
}
use cluster_controller.Metadata.Proxy.{
  v4, text, app, openstack_api, extract_ipv4_address, fetch_metadata, addr_to_metadata, serve,
  enter_namespace,
}
use cluster_controller.Metadata.Proxy.Paths.{Explained, serve-Explained}
use cluster_controller.Metadata.Service.{router_name_of}
use cluster_controller.Metadata.Service.Target.{started_command, served_router}
use cluster_controller.Tests.Fixtures.{
  named, nic, spec, status_on, quiet, start, central, router, listed, reached,
}
use cluster_controller.Tests.Fixtures

-- A machine with an interface on the port `p1` and with userdata.
abbrev client : VirtualMachine
client = record {
  metadata = named "vm";
  spec = record spec { userdata = some "cfg" };
  status =
      some (record (status_on (some "a") true) {
        networks = (record nic { ovn_id = some "p1" }) ∷ [];
      });
}

abbrev port_row : Value
port_row = object (
    ("_uuid", array (str "uuid" ∷ str "u1" ∷ []))
    ∷ ("name", str "p1")
    ∷ ("dynamic_addresses", str "02:aa 10.0.0.5")
    ∷ [])

abbrev ports : History → List Message
ports (Event.send o (request id method params) ∷ log) =
    response id (array (object (("rows", array (port_row ∷ [])) ∷ []) ∷ [])) null ∷ []
ports _ = []

abbrev serving : Env
serving = record quiet {
  kube = record quiet.kube {
    nodes = λ h. done (central ∷ []);
    vms = λ h selector. done (client ∷ Fixtures.fresh ∷ []);
    config_map = λ h namespace name. done (some (("userdata", "#cloud-config") ∷ []));
  };
  net = record quiet.net { messages = ports };
}

abbrev granted : MetadataPayload
granted = record {
  ip = "10.0.0.5";
  instance_id = "id";
  hostname = "vm";
  user_data = "#cloud-config";
}

answer-Granted_example : Granted serving "10.0.0.5" granted
unfolding lowercase answer try_from_annotations try_nodes central_address ovn_central_status
    ovn_central_annotated_ip try_new_connection get_by_ip dynamic_ip split list list_objects
    transact send_request next_id find_response check_results deserialize_logical_switch_port
    deserialize_object deserialize_uuid deserialize_string matching_vm owns_port answer_for
    userdata_of
answer-Granted_example = answer-Granted "10.0.0.5" serving start refl

serve-Explained_example :
    Explained serving
      (some (v4 "10.0.0.5"))
      (app "1" ("openstack" ∷ "latest" ∷ "user_data" ∷ []))
      (text "#cloud-config")
unfolding lowercase answer try_from_annotations try_nodes central_address ovn_central_status
    ovn_central_annotated_ip try_new_connection get_by_ip dynamic_ip split list list_objects
    transact send_request next_id find_response check_results deserialize_logical_switch_port
    deserialize_object deserialize_uuid deserialize_string matching_vm owns_port answer_for
    userdata_of serve app openstack_api addr_to_metadata extract_ipv4_address fetch_metadata
serve-Explained_example =
    serve-Explained "1" ("openstack" ∷ "latest" ∷ "user_data" ∷ []) (some (v4 "10.0.0.5")) serving
      start refl

abbrev asked : World
asked = record (listed type_logical_switch_port reached) {
  log =
      Event.get_config_map "ns" "cfg"
      ∷ Event.list_vms none
      ∷ (listed type_logical_switch_port reached).log;
}

main-Answered_example :
    All (Answered serving (happen (Event.respond "10.0.0.5" (ok granted)) asked)) ("10.0.0.5" ∷ [])
unfolding lowercase main handle_request for_each answer try_from_annotations try_nodes
    central_address ovn_central_status ovn_central_annotated_ip try_new_connection get_by_ip
    dynamic_ip split list list_objects transact send_request next_id find_response check_results
    deserialize_logical_switch_port deserialize_object deserialize_uuid deserialize_string
    matching_vm owns_port answer_for userdata_of
main-Answered_example =
    main-Answered ("10.0.0.5" ∷ []) serving start
      (happen (Event.respond "10.0.0.5" (ok granted)) asked) refl

-- The port belongs to no machine.
abbrev orphaned : Env
orphaned = record serving {
  kube = record serving.kube { vms = λ h selector. done (Fixtures.fresh ∷ []) };
}

deploy-log_example : Deployed "ovn" "ns" "r" quiet start (deploy "ovn" "ns" "r" quiet start).1
unfolding deploy create_rbac create_deployment make_deployment make_service_account
    make_cluster_role make_cluster_role_binding deployment_json get_running_image first_image
deploy-log_example =
    deploy-log "ovn" "ns" "r" quiet start (deploy "ovn" "ns" "r" quiet start).1 refl

enter_namespace-log_example :
    let events =
      Event.set_namespace "ns-r-metadatasvc"
        ∷ interface_events "ns-r-metadatasvc" "ns-r" "012345678-host" "012345678-ns"
      ++ namespace_events "ns-r-metadatasvc" in
    ((enter_namespace "ns-r" quiet start).1 ≡ extend events start)
    × AllWentWell (port_is_there "012345678-host") quiet [] events
unfolding enter_namespace create_ns create_interface command take_text generate_interface_prefix
enter_namespace-log_example =
    enter_namespace-log "ns-r" quiet start (enter_namespace "ns-r" quiet start).1 refl

interface_names_bounded_example :
    (length (codes (host_interface (generate_interface_prefix quiet.libraries.sha256_hex "a" "b")))
      ≤ 14)
    × (length (codes (ns_interface (generate_interface_prefix quiet.libraries.sha256_hex "a" "b")))
        ≤ 14)
interface_names_bounded_example = interface_names_bounded quiet.libraries.sha256_hex "a" "b"

served_router_example :
    map_option router_name_of (started_command (deployment_json "image" "ns" "gone"))
    ≡ some (name_prefixed_with_namespace router)
served_router_example =
    served_router "image" "ns" "gone" router refl refl (refl, (refl, tt))
      (refl, (refl, (refl, (refl, tt))))
