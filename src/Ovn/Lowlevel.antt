-- ===== src/Ovn/Lowlevel.antt =====
-- src/interfaces/ovn/lowlevel.rs: transactions, and the choice of a database server.
pub mod Transactions
pub mod Servers
use cluster_controller.Prelude.{
  ℕ, zero, suc, ◌+◌, String, Bool, true, false, ◌||◌, Option, none, some, List, [], ◌∷◌, map, ◌==◌,
  if◌then◌else◌, get_elem?, retain, lookup, head?, and_then, map_option,
}
use cluster_controller.Errors.{
  Outcome, ok, err, panic, Error, expect, assert, ovn_connection, ovn_central_nodes_not_found,
}
use cluster_controller.Errors
use cluster_controller.Json.{Value, null, str, array, object, as_array, as_object, is_null}
use cluster_controller.Crd.{Node}
use cluster_controller.World.{
  Ovn, Params, Message, request, response, Event, Env, World, M, ◌>>=◌, ◌>>◌, lift, observe, ask,
  pure, fail, try,
}
use cluster_controller.Ovn.Jsonrpc.{send_request, from_json, try_new_connection}
use cluster_controller.Node.{
  OvnCentralManagement, managed, unmanaged, not_present, ovn_central_status,
  ovn_central_annotated_ip, internal_ip,
}

abbrev pub type_logical_switch : String
type_logical_switch = "Logical_Switch"

abbrev pub type_logical_switch_port : String
type_logical_switch_port = "Logical_Switch_Port"

abbrev pub type_logical_router : String
type_logical_router = "Logical_Router"

abbrev pub type_logical_router_port : String
type_logical_router_port = "Logical_Router_Port"

abbrev pub type_logical_router_static_route : String
type_logical_router_static_route = "Logical_Router_Static_Route"

abbrev pub type_dhcp_options : String
type_dhcp_options = "DHCP_Options"

-- the filter of `try_from_annotations`
abbrev pub is_central : Node → Bool
is_central node = elim (ovn_central_status node) [ not_present ↦ false | _ ↦ true ]

unfoldable pub central_address : Node → Option String
central_address node = elim (ovn_central_annotated_ip node) [
  | some ip ↦ some ip
  | none ↦ internal_ip node
]

-- No node is left: the last error, or none.
abbrev pub out_of_nodes : Option Error → Error
out_of_nodes (some error) = ovn_connection error
out_of_nodes none = ovn_central_nodes_not_found

-- `next` is the rest of the loop, from the last error.
abbrev pub after_attempt : (Option Error → M Ovn) → Outcome Ovn → M Ovn
after_attempt next (ok ovn) = pure ovn
after_attempt next (err e) = next (some e)
after_attempt next panic = lift panic

abbrev pub try_node : (Option Error → M Ovn) → Option Error → Option String → M Ovn
try_node next error none = next error
try_node next error (some address) = try (try_new_connection address 6641) >>= after_attempt next

-- The loop over the central nodes, with the last error.
unfoldable pub try_nodes : Option Error → List Node → M Ovn
try_nodes error [] = fail (out_of_nodes error)
try_nodes error (node ∷ rest) =
    try_node (λ error'. try_nodes error' rest) error (central_address node)

unfoldable pub try_from_annotations : M Ovn
unfolding try_nodes
try_from_annotations = ask Event.list_nodes Error.kube (λ env h. env.kube.nodes h) >>= λ nodes.
    try_nodes none (retain is_central nodes)

-- Each result of a transaction is an object without an error.
unfoldable pub check_results : List Value → Outcome (Unit {0})
check_results [] = ok tt
check_results (result ∷ rest) = Errors.◌>>=◌ (expect (as_object result)) λ fields.
    Errors.◌>>=◌ (assert (elim (lookup "error" fields) [ none ↦ true | some e ↦ is_null e ]))
      λ _. check_results rest

abbrev pub check_response : Message → Outcome (List Value)
check_response (response id result error) = Errors.◌>>=◌ (assert (is_null error)) λ _.
    Errors.◌>>=◌ (expect (as_array result))
      λ results. Errors.◌>>=◌ (check_results results) λ _. ok results
check_response _ = panic

unfoldable pub transact : Ovn → List Value → M (List Value)
transact o operations = lift (from_json (array (str "OVN_Northbound" ∷ operations))) >>= λ params.
    send_request o "transact" params >>= λ message. lift (check_response message)

-- the columns that are read from each table
abbrev pub columns : String → List String
columns object_type =
    if object_type == type_dhcp_options
    then "_uuid" ∷ "cidr" ∷ []
    else if object_type == type_logical_router
    then "_uuid" ∷ "name" ∷ "static_routes" ∷ []
    else if object_type == type_logical_router_static_route
    then "_uuid" ∷ "ip_prefix" ∷ "nexthop" ∷ []
    else if object_type == type_logical_switch
    then "_uuid" ∷ "name" ∷ "ports" ∷ "other_config" ∷ []
    else if object_type == type_logical_switch_port
    then "_uuid" ∷ "name" ∷ "addresses" ∷ "dynamic_addresses" ∷ []
    else "_uuid" ∷ "name" ∷ []

abbrev pub select_operation : String → Value
select_operation object_type = object (
    ("op", str "select")
    ∷ ("table", str object_type)
    ∷ ("where", array [])
    ∷ ("columns", array (map str (columns object_type)))
    ∷ [])

abbrev pub rows_of : List Value → Outcome (List Value)
rows_of results = Errors.◌>>=◌ (expect (get_elem? results 0)) λ first.
    Errors.◌>>=◌ (expect (as_object first))
      λ fields. Errors.◌>>=◌ (expect (lookup "rows" fields)) λ rows. expect (as_array rows)

unfoldable pub list_objects : Ovn → String → M (List Value)
list_objects o object_type =
    transact o (select_operation object_type ∷ []) >>= λ results. lift (rows_of results)

abbrev pub insert_operation : String → List (String × Value) → Value
insert_operation object_type params =
    object (("op", str "insert") ∷ ("table", str object_type) ∷ ("row", object params) ∷ [])

unfoldable pub insert_object : Ovn → String → List (String × Value) → M (Unit {0})
insert_object o object_type params =
    transact o (insert_operation object_type params ∷ []) >> pure tt

-- ["_uuid", "==", ["uuid", id]]
abbrev pub where_uuid : String → Value
where_uuid uuid =
    array (array (str "_uuid" ∷ str "==" ∷ array (str "uuid" ∷ str uuid ∷ []) ∷ []) ∷ [])

abbrev pub delete_operation : String → String → Value
delete_operation object_type uuid =
    object (("op", str "delete") ∷ ("table", str object_type) ∷ ("where", where_uuid uuid) ∷ [])

unfoldable pub delete_by_uuid : Ovn → String → String → M (Unit {0})
delete_by_uuid o object_type uuid = transact o (delete_operation object_type uuid ∷ []) >> pure tt
