-- ===== src/Ovn/Jsonrpc/Matching.antt =====
-- A request is answered by the first response that carries its id, and by nothing else.
use cluster_controller.Prelude.{
  ℕ, ◌+◌, ◌%◌, ◌^◌, ◌<◌, String, ◌≡◌, ◌≢◌, inl, inr, refl, Bool, false, List, [], ◌∷◌, arith,
  nat_eq, if◌then◌else◌, find, Bool-cases,
}
use cluster_controller.Errors.{expect}
use cluster_controller.Json.{num, is_number}
use cluster_controller.World.{Ovn, Params, Message, request, response, Event, Env, World}
use cluster_controller.Ovn.Jsonrpc.{find_response, send_request}

-- A message that answers the request with this id.
abbrev pub answers : ℕ → Message → Bool
answers id (request rid method params) = false
answers id (response rid result error) = is_number id rid

-- The search finds the first message that answers the request, and panics exactly when none does.
pub find_response-eq-find :
    (id : ℕ) (messages : List Message)
    → find_response id messages ≡ expect (find (answers id) messages)
unfolding find_response
find_response-eq-find id [] = refl
find_response-eq-find id (request rid method params ∷ rest) = find_response-eq-find id rest
find_response-eq-find id (response rid result error ∷ rest) = elim (Bool-cases (is_number id rid)) [
  | inl yes_ ↦ rw yes_ refl
  | inr no_ ↦ rw no_ (find_response-eq-find id rest)
]

-- The world after a request: one event, and the connection's counter moved on.
abbrev pub after_request : Ovn → String → Params → World → World
after_request o method params w = record w {
  log = Event.send o (request (num (w.ids o.connection)) method params) ∷ w.log;
  ids = λ c. if nat_eq c o.connection then (w.ids o.connection + 1) % 2 ^ 64 else w.ids c;
}

-- However it ends, a request sends one message with the connection's current id, moves that
-- counter on by one (mod 2^64) and leaves the others; its result is the first of the messages
-- that then arrive which answers that id, and a panic where none does.
pub send_request_lem :
    (o : Ovn) (method : String) (params : Params) (env : Env) (w : World)
    → let w' = after_request o method params w in
      send_request o method params env w
      ≡ (expect (find (answers (w.ids o.connection)) (env.net.messages w'.log)), w')
unfolding send_request
send_request_lem o method params env w =
    rw
      (find_response-eq-find (w.ids o.connection)
        (env.net.messages (after_request o method params w).log))
      refl

-- A request leaves its connection with another id for the next request than the one that it has
-- carried, also where the 64-bit counter wraps round.
pub send_request_fresh :
    (o : Ovn) (method : String) (params : Params) (env : Env) (w : World)
    → w.ids o.connection < 2 ^ 64
    → (send_request o method params env w).1.ids o.connection ≢ w.ids o.connection
unfolding send_request
send_request_fresh o method params env w h = ground arith
