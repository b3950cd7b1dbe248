-- ===== src/Install/Readiness.antt =====
-- src/utils/mod.rs: waiting for a definition, and the names of all namespaces.
pub mod Waiting
use cluster_controller.Prelude.{
  String, Bool, true, false, Option, none, some, List, [], ◌∷◌, ◌==◌, find, and_then, if◌then◌else◌,
  format,
}
use cluster_controller.Errors.{Outcome, ok, err, Error, KubeError, expect, collect, timeout}
use cluster_controller.Crd.{ObjectMeta}
use cluster_controller.Workloads.{Condition, Definition, DefinitionStatus, WatchEvent, modified}
use cluster_controller.World.{Event, M, ◌>>=◌, lift, ask, observe, pure, Reply, done, failed}

abbrev pub conditions_of : Definition → Option (List Condition)
conditions_of crd = and_then crd.status (λ (status : DefinitionStatus). status.conditions)

abbrev pub is_true : Option Condition → Bool
is_true none = false
is_true (some pcond) = pcond.status == "True"

abbrev pub names_accepted : Option (List Condition) → Bool
names_accepted none = false
names_accepted (some conditions) =
    is_true (find (λ (c : Condition). c.type_ == "NamesAccepted") conditions)

-- The definition of a `Modified` event is accepted.
unfoldable pub accepted : WatchEvent → Bool
accepted (modified crd) = names_accepted (conditions_of crd)
accepted _ = false

abbrev pub timed_out : String → Error
timed_out name = timeout (format ("Apply CRD " ∷ name ∷ []))

-- The loop over the stream of the watch.
unfoldable pub wait_events : String → List (Reply KubeError WatchEvent) → Outcome (Unit {0})
wait_events name [] = err (timed_out name)
wait_events name (failed e ∷ rest) = err (Error.kube e)
wait_events name (done status ∷ rest) =
    let later = wait_events name rest in if accepted status then ok tt else later

abbrev pub watch_unless : {A : Type 0} → String → Reply KubeError A → M (Unit {0})
watch_unless name (done crd) = pure tt
watch_unless name (failed e) =
    ask (Event.watch_definition name) Error.kube (λ env h. env.kube.watch h name) >>= λ stream.
    lift (wait_events name stream)

unfoldable pub wait_crd_ready : String → M (Unit {0})
wait_crd_ready name =
    observe (Event.get_definition name) (λ env h. env.kube.definition h name) >>= λ found.
    watch_unless name found

unfoldable pub get_namespace_names : M (List String)
get_namespace_names =
    ask Event.list_namespaces Error.kube (λ env h. env.kube.namespaces h) >>= λ namespaces.
    lift (collect (λ (ns : ObjectMeta). expect ns.name) namespaces)
