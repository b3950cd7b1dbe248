-- ===== src/Ovn/Jsonrpc.antt =====
-- src/interfaces/ovn/jsonrpc.rs: requests with increasing ids, and the wait for the response.
pub mod Matching
use cluster_controller.Prelude.{
  ℕ, zero, suc, ◌+◌, ◌%◌, ◌^◌, String, Bool, true, false, List, [], ◌∷◌, nat_eq, if◌then◌else◌,
}
use cluster_controller.Errors.{Outcome, ok, err, panic, Error}
use cluster_controller.Errors
use cluster_controller.Json.{
  Value, null, bool, num, real, str, arr, obj, is_number, to_list, to_map,
}
use cluster_controller.World.{
  Ovn, Params, by_position, by_name, Message, request, response, Event, Env, World, M, ◌>>=◌, ◌>>◌,
  lift, observe, ask, pure,
}

-- `JsonRpcConnection::try_new`: the counter of a new connection is at 0.
unfoldable pub open_connection : M Ovn
open_connection env w = (
  ok (record { connection = w.connections }),
  record w {
    ids = λ c. if nat_eq c w.connections then 0 else w.ids c;
    connections = w.connections + 1;
  },
)

unfoldable pub try_new_connection : String → ℕ → M Ovn
unfolding open_connection
try_new_connection host port =
    ask (Event.tcp_connect host port) Error.io (λ env h. env.net.tcp_connect h host port)
    >> open_connection

-- The counter is a u64.
unfoldable pub next_id : Ovn → M ℕ
next_id o env w =
    let current_id = w.ids o.connection in
    (
      ok current_id,
      record w { ids = λ c. if nat_eq c o.connection then (current_id + 1) % 2 ^ 64 else w.ids c },
    )

-- The loop over what arrives: requests and responses to other ids are passed over. The end of the
-- stream, or an item that is no message, is a panic.
unfoldable pub find_response : ℕ → List Message → Outcome Message
find_response request_id [] = panic
find_response request_id (request id method params ∷ rest) = find_response request_id rest
find_response request_id (response id result error ∷ rest) =
    let later = find_response request_id rest in
    if is_number request_id id then ok (response id result error) else later

unfoldable pub send_request : Ovn → String → Params → M Message
unfolding next_id find_response
send_request o method params = next_id o >>= λ id.
    observe (Event.send o (request (num id) method params)) (λ env h. env.net.messages h)
    >>= λ messages. lift (find_response id messages)

-- `Params::from_json`
abbrev pub from_json : Value → Outcome Params
from_json (arr params) = ok (by_position (to_list params))
from_json (obj params) = ok (by_name (to_map params))
from_json _ = panic
