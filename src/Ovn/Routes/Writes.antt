-- ===== src/Ovn/Routes/Writes.antt =====
-- What setting the routes of a router sends to the database.
use cluster_controller.Prelude.{ℕ, String, map, ◌++◌, ◌≡◌, sym, ap, ◌∙◌, List, [], ◌∷◌}
use cluster_controller.Errors.{ok}
use cluster_controller.Crd.{Route}
use cluster_controller.Json.{num, str, array, object}
use cluster_controller.World.{Message, by_position, request, Event, Env, World, pure}
use cluster_controller.World.Monad.Inversion.{continue-eq-ok, lift-eq-ok}
use cluster_controller.Ovn.Lowlevel.{transact}
use cluster_controller.Ovn.Lowlevel.Transactions.{transact-IsClean}
use cluster_controller.Ovn.Types.{StaticRoute, LogicalRouter}
use cluster_controller.Ovn.Routes.{
  routes_to_add, routes_to_remove, get_routes, route_operations, set_routes,
}
use cluster_controller.Ovn.Routes.Sync.{DistinctUuids, Reaches, set_routes-Reaches}

-- The message that inserts rows of routes, links them to a router and unlinks other rows from it.
abbrev pub routes_message : ℕ → String → List (String × Route) → List String → Message
routes_message id router inserted removed = request (num id) "transact" (
    by_position (
      str "OVN_Northbound"
        ∷ map
            (λ (e : String × Route). object (
              ("op", str "insert")
              ∷ ("table", str "Logical_Router_Static_Route")
              ∷ ("row", object (("ip_prefix", str e.1.cidr) ∷ ("nexthop", str e.1.nexthop) ∷ []))
              ∷ ("uuid-name", str e.0)
              ∷ []))
            inserted
      ++ (object (
            (
              "mutations",
              array (
                  array (
                    str "static_routes"
                    ∷ str "insert"
                    ∷ array (
                        str "set"
                        ∷ array (
                            map (λ (e : String × Route). array (str "named-uuid" ∷ str e.0 ∷ []))
                              inserted)
                        ∷ [])
                    ∷ [])
                  ∷ array (
                      str "static_routes"
                      ∷ str "delete"
                      ∷ array (
                          str "set"
                          ∷ array (map (λ uuid. array (str "uuid" ∷ str uuid ∷ [])) removed)
                          ∷ [])
                      ∷ [])
                  ∷ []),
            )
            ∷ (
              "where",
              array
                  (array (str "_uuid" ∷ str "==" ∷ array (str "uuid" ∷ str router ∷ []) ∷ []) ∷ []),
            )
            ∷ ("op", str "mutate")
            ∷ ("table", str "Logical_Router")
            ∷ [])
          ∷ [])))

-- One message was sent, and what it inserts and removes reaches the specification.
abbrev pub Synchronized : LogicalRouter → List StaticRoute → List Route → World → World → Type 0
Synchronized lr old_routes new_routes v w' =
    (inserted : List (String × Route)) × (removed : List String) × (id : ℕ) × (w'.log
      ≡ Event.send lr.ovn (routes_message id lr.uuid inserted removed) ∷ v.log)
    × Reaches old_routes new_routes inserted removed

-- When setting the routes of a router returns, where `old_routes` is what was read as its rows, with
-- distinct UUIDs, then nothing was sent after the reading but one transaction: it inserts rows with
-- the prefix and the next hop of some routes under names, links the rows of these names to the
-- router and unlinks some rows by their UUIDs. Every route of the specification is kept as a row or
-- inserted, what is inserted is a route of the specification that no row had, and a row is kept
-- exactly if it is wanted.
pub set_routes-writes :
    (lr : LogicalRouter) (new_routes : List Route) (env : Env) (w v w' : World)
    (old_routes : List StaticRoute)
    → get_routes lr env w ≡ (ok old_routes, v)
    → set_routes lr new_routes env w ≡ (ok tt, w')
    → DistinctUuids old_routes
    → Synchronized lr old_routes new_routes v w'
unfolding set_routes route_operations
set_routes-writes lr new_routes env w v w' old_routes reading h distinct =
    let operations = route_operations lr old_routes new_routes in
    let (results, u, p, q) =
      continue-eq-ok (transact lr.ovn operations env v) (λ x. pure tt) env (rw reading at h) in
    (
      routes_to_add old_routes 0 new_routes,
      routes_to_remove old_routes new_routes,
      v.ids lr.ovn.connection,
      ap (λ (x : World). x.log) (sym (lift-eq-ok q).1)
          ∙ (transact-IsClean lr.ovn operations env v p).0,
      set_routes-Reaches old_routes new_routes distinct,
    )
