-- ===== src/Ovn/Growth.antt =====
-- Connecting to the database and reading its tables only adds to the history.
use cluster_controller.Prelude.{ℕ, String, refl, Option, none, some, List, [], ◌∷◌, retain}
use cluster_controller.Errors.{Outcome, ok, err, panic, Error, collect}
use cluster_controller.Crd.{Node}
use cluster_controller.World.{Ovn, Params, request, Event, M}
use cluster_controller.World.Monad.Growth.{
  Grows, lift-Grows, ask-Grows, observe-Grows, bind-Grows, then-Grows, try-Grows,
}
use cluster_controller.Json.{Value, num, str, array}
use cluster_controller.Ovn.Jsonrpc.{
  open_connection, try_new_connection, next_id, find_response, send_request, from_json,
}
use cluster_controller.Ovn.Lowlevel.{
  is_central, central_address, out_of_nodes, after_attempt, try_node, try_nodes,
  try_from_annotations, check_response, transact, select_operation, rows_of, list_objects,
}
use cluster_controller.Ovn.Common.{OvnCommon, OvnNamed, list, get_by_name}
use cluster_controller.Ovn.Types.{logical_switch_port_named}
use cluster_controller.Ovn.Ports.{get_by_ip}

open_connection-Grows : Grows open_connection
unfolding open_connection
open_connection-Grows = record { grown = λ env w. ([], refl) }

next_id-Grows : (o : Ovn) → Grows (next_id o)
unfolding next_id
next_id-Grows o = record { grown = λ env w. ([], refl) }

try_new_connection-Grows : (host : String) (port : ℕ) → Grows (try_new_connection host port)
unfolding try_new_connection
try_new_connection-Grows host port =
    then-Grows
      (ask-Grows (Event.tcp_connect host port) Error.io (λ env h. env.net.tcp_connect h host port))
      open_connection-Grows

after_attempt-Grows :
    (next : Option Error → M Ovn)
    → ((error : Option Error) → Grows (next error))
    → (attempt : Outcome Ovn) → Grows (after_attempt next attempt)
after_attempt-Grows next later (ok o) = lift-Grows (ok o)
after_attempt-Grows next later (err e) = later (some e)
after_attempt-Grows next later panic = lift-Grows panic

try_node-Grows :
    (next : Option Error → M Ovn)
    → ((error : Option Error) → Grows (next error))
    → (error : Option Error) (address : Option String) → Grows (try_node next error address)
try_node-Grows next later error none = later error
try_node-Grows next later error (some address) =
    bind-Grows (try-Grows (try_new_connection-Grows address 6641)) (after_attempt-Grows next later)

try_nodes-Grows : (nodes : List Node) (error : Option Error) → Grows (try_nodes error nodes)
unfolding try_nodes
try_nodes-Grows [] error = lift-Grows (err (out_of_nodes error))
try_nodes-Grows (node ∷ rest) error =
    try_node-Grows (λ e. try_nodes e rest) (λ e. try_nodes-Grows rest e) error
      (central_address node)

pub try_from_annotations-Grows : Grows try_from_annotations
unfolding try_from_annotations
try_from_annotations-Grows =
    bind-Grows (ask-Grows Event.list_nodes Error.kube (λ env h. env.kube.nodes h))
      λ nodes. try_nodes-Grows (retain is_central nodes) none

send_request-Grows :
    (o : Ovn) (method : String) (params : Params) → Grows (send_request o method params)
unfolding send_request
send_request-Grows o method params = bind-Grows (next_id-Grows o) λ id.
    bind-Grows
      (observe-Grows (Event.send o (request (num id) method params)) (λ env h. env.net.messages h))
      λ messages. lift-Grows (find_response id messages)

pub transact-Grows : (o : Ovn) (operations : List Value) → Grows (transact o operations)
unfolding transact
transact-Grows o operations =
    bind-Grows (lift-Grows (from_json (array (str "OVN_Northbound" ∷ operations)))) λ params.
      bind-Grows (send_request-Grows o "transact" params)
        λ message. lift-Grows (check_response message)

pub list-Grows : {A : Type 0} (c : OvnCommon A) (o : Ovn) → Grows (list ⦃c = c⦄ o)
unfolding list list_objects
list-Grows c o =
    bind-Grows
      (bind-Grows (transact-Grows o (select_operation c.ovn_type ∷ []))
        λ results. lift-Grows (rows_of results))
      λ rows. lift-Grows (collect (c.deserialize o) rows)

pub get_by_ip-Grows : (o : Ovn) (ip : String) → Grows (get_by_ip o ip)
unfolding get_by_ip
get_by_ip-Grows o ip =
    bind-Grows (list-Grows logical_switch_port_named.common o) λ ports. lift-Grows (ok _)

pub get_by_name-Grows :
    {A : Type 0} (n : OvnNamed A) (o : Ovn) (wanted : String) → Grows (get_by_name ⦃n = n⦄ o wanted)
unfolding get_by_name
get_by_name-Grows n o wanted = bind-Grows (list-Grows n.common o) λ all. lift-Grows _
