-- ===== src/Install/Readiness/Waiting.antt =====
-- How the wait for a definition ends.
use cluster_controller.Prelude.{
  String, ◌≡◌, refl, Bool, true, Option, none, some, List, [], ◌∷◌, find, Bool-cases, inl, inr,
}
use cluster_controller.Errors.{Outcome, ok, err, Error, KubeError}
use cluster_controller.Workloads.{WatchEvent}
use cluster_controller.World.{Reply, done, failed}
use cluster_controller.Install.Readiness.{accepted, timed_out, wait_events}

-- An item that the wait ends with.
abbrev pub decides : Reply KubeError WatchEvent → Bool
decides (failed e) = true
decides (done status) = accepted status

abbrev pub verdict : String → Option (Reply KubeError WatchEvent) → Outcome (Unit {0})
verdict name none = err (timed_out name)
verdict name (some (failed e)) = err (Error.kube e)
verdict name (some (done status)) = ok tt

-- The loop over a watch is a search: its result is that of the first item which is an error or a
-- modification that says that the names are accepted, and a timeout where there is none.
pub wait_events-eq-verdict :
    (name : String) (events : List (Reply KubeError WatchEvent))
    → wait_events name events ≡ verdict name (find decides events)
unfolding wait_events
wait_events-eq-verdict name [] = refl
wait_events-eq-verdict name (failed e ∷ rest) = refl
wait_events-eq-verdict name (done status ∷ rest) = elim (Bool-cases (accepted status)) [
  | inl yes_ ↦ rw yes_ refl
  | inr no_ ↦ rw no_ (wait_events-eq-verdict name rest)
]
