-- ===== src/Controller.antt =====
-- src/utils/resource_controller.rs and src/utils/strings.rs: the dispatch of an object to the
-- update or the remove function of its controller.
use cluster_controller.Prelude.{
  ℕ, String, Option, none, some, [], ◌∷◌, if◌then◌else◌, is_some, format,
}
use cluster_controller.Errors.{Outcome, ok, err, panic, Error}
use cluster_controller.World.{M}
use cluster_controller.Kube.{Resource}

-- `kube::runtime::controller::Action`: come back after some seconds, or at the next change.
pub data Action : Type 0 where
  requeue : ℕ → Action
  await_change : Action

abbrev pub field_manager : String → String
field_manager controller = format ("cluster-controller." ∷ controller ∷ [])

-- The error policy of every controller.
abbrev pub default_error_policy : Error → Action
default_error_policy error = requeue 15

-- What the runtime does next after a reconciliation; a panic ends the task.
abbrev pub next_action : Outcome Action → Option Action
next_action (ok action) = some action
next_action (err error) = some (default_error_policy error)
next_action panic = none

-- The reconciler that `ResourceController::run` hands to the runtime.
unfoldable pub reconcile_resource :
    {A : Type 0} ⦃r : Resource A⦄ → (A → M Action) → (A → M Action) → A → M Action
reconcile_resource ⦃r⦄ update_fn remove_fn object =
    if is_some (r.meta object).deletion_timestamp then remove_fn object else update_fn object
