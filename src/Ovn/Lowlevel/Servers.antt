-- ===== src/Ovn/Lowlevel/Servers.antt =====
-- The choice of a database server: the first central node that can be reached.
use cluster_controller.Prelude.{
  String, ◌≡◌, inl, inr, refl, Bool, true, false, Option, none, some, List, [], ◌∷◌, map, arith,
  any, Bool-cases, ◌∙◌,
}
use cluster_controller.Errors.{Outcome, ok, err, Error}
use cluster_controller.Crd.{Node}
use cluster_controller.World.{Ovn, Event, Env, World, M, happen, Reply, done, failed, History}
use cluster_controller.Ovn.Jsonrpc.{try_new_connection}
use cluster_controller.Ovn.Lowlevel.{try_nodes, try_node, out_of_nodes, central_address}

-- Which hosts accept a connection, where that does not change.
abbrev pub Reach : Type 0
Reach = String → Reply String (Unit {0})

abbrev reply_ok : Reply String (Unit {0}) → Bool
reply_ok (done u) = true
reply_ok (failed e) = false

-- The node has an address, and the host there accepts.
abbrev pub is_reached : Reach → Option String → Bool
is_reached reach none = false
is_reached reach (some address) = reply_ok (reach address)

abbrev note_error : Option Error → Reply String (Unit {0}) → Option Error
note_error before (done u) = before
note_error before (failed e) = some (Error.io e)

-- The error of the last attempt that failed.
abbrev pub last_error : Reach → Option Error → List (Option String) → Option Error
last_error reach before [] = before
last_error reach before (none ∷ rest) = last_error reach before rest
last_error reach before (some address ∷ rest) =
    last_error reach (note_error before (reach address)) rest

abbrev pub Connects : Outcome Ovn → Type 0
Connects result = (o : Ovn) × (result ≡ ok o)

module _ (reach : Reach) (env : Env)
    (stable : (h : History) (host : String) → env.net.tcp_connect h host 6641 ≡ reach host) where
  connect_done :
      (address : String) (next : Option Error → M Ovn) (before : Option Error) (w : World)
      → reach address ≡ done tt
      → Connects (try_node next before (some address) env w).0
  unfolding try_new_connection
  connect_done address next before w e =
      rw (stable (Event.tcp_connect address 6641 ∷ w.log) address ∙ e) (_, refl)

  connect_failed :
      (address : String) (next : Option Error → M Ovn) (before : Option Error) (w : World)
      {e : String}
      → reach address ≡ failed e
      → try_node next before (some address) env w
        ≡ next (some (Error.io e)) env (happen (Event.tcp_connect address 6641) w)
  unfolding try_new_connection
  connect_failed address next before w e =
      rw (stable (Event.tcp_connect address 6641 ∷ w.log) address ∙ e) refl

  -- The claim about one list of addresses, for a loop that goes over it.
  abbrev Search : List (Option String) → Option Error → (Option Error → M Ovn) → World → Type 0
  Search addresses before run w =
      (any (is_reached reach) addresses ≡ true → Connects (run before env w).0)
      × (any (is_reached reach) addresses ≡ false
          → (run before env w).0 ≡ err (out_of_nodes (last_error reach before addresses)))

  Search-step :
      (a : Option String) (rest : List (Option String)) (before : Option Error)
      (next : Option Error → M Ovn)
      → ((error : Option Error) (w : World) → Search rest error next w)
      → (w : World) → Search (a ∷ rest) before (λ error. try_node next error a) w
  Search-step none rest before next ih w = ih before w
  Search-step (some address) rest before next ih w = reply_step (reach address) refl
    where
      reply_step :
          (r : Reply String (Unit {0}))
          → reach address ≡ r
          → Search (some address ∷ rest) before (λ error. try_node next error (some address)) w
      reply_step (done u) e = (
        λ h. connect_done address next before w e,
        λ h. absurd (let none_left : ⊥ = ground (arith, e, h) in none_left),
      )
      reply_step (failed text) e =
          let same = connect_failed address next before w e in
          rw (same, e) (ih (some (Error.io text)) (happen (Event.tcp_connect address 6641) w))

  try_nodes_cases :
      (nodes : List Node) (before : Option Error) (w : World)
      → (any (is_reached reach) (map central_address nodes) ≡ true
          → Connects (try_nodes before nodes env w).0)
        × (any (is_reached reach) (map central_address nodes) ≡ false
            → (try_nodes before nodes env w).0
              ≡ err (out_of_nodes (last_error reach before (map central_address nodes))))
  unfolding try_nodes
  try_nodes_cases [] before w = (λ h. absurd (cc h), λ h. refl)
  try_nodes_cases (node ∷ rest) before w =
      Search-step (central_address node) (map central_address rest) before
        (λ error. try_nodes error rest) (try_nodes_cases rest) w

  -- How the search ends, by whether some address accepts.
  abbrev pub Ending : Bool → Option Error → Outcome Ovn → Type 0
  Ending true error result = Connects result
  Ending false error result = result ≡ err (out_of_nodes error)

  -- Where the hosts that accept do not change meanwhile: if the address of some central node
  -- accepts, the search ends with a connection; otherwise it ends with the error of the last
  -- attempt, or says that there are no central nodes if no address was tried.
  pub try_nodes-Ending :
      (nodes : List Node) (before : Option Error) (w : World)
      → Ending
          (any (is_reached reach) (map central_address nodes))
          (last_error reach before (map central_address nodes))
          (try_nodes before nodes env w).0
  try_nodes-Ending nodes before w =
      elim (Bool-cases (any (is_reached reach) (map central_address nodes))) [
        | inl h ↦ rw h ((try_nodes_cases nodes before w).0 h)
        | inr h ↦ rw h ((try_nodes_cases nodes before w).1 h)
      ]
