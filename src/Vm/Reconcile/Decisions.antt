-- ===== src/Vm/Reconcile/Decisions.antt =====
-- When a machine is placed, and what a failure to place it leaves.
use cluster_controller.Prelude.{String, ◌≡◌, refl, Bool, true, false, ◌||◌, not, none, some, ◌∷◌}
use cluster_controller.Errors.{ok, err, Error}
use cluster_controller.Crd.{VirtualMachine, VirtualMachineStatus}
use cluster_controller.World.{Event, Env, World, happen, done, of_vm}
use cluster_controller.Kube.{try_status, name_prefixed_with_namespace, vm_resource, set_vm_status}
use cluster_controller.Controller.{field_manager}
use cluster_controller.Vm.Nics.{fill_nics}
use cluster_controller.Vm.Scheduling.{
  schedule, is_uncompliant, migration_requested, clear_successful_migration,
}
use cluster_controller.Vm.Reconcile.{
  new_status, initialize_status, place, scheduling_and_migrations, create_fn,
}

try_status_eq :
    (vm : VirtualMachine) (status : VirtualMachineStatus)
    → vm.status ≡ some status
    → try_status vm ≡ ok status
unfolding try_status
try_status_eq vm status e = rw e refl

-- A machine that is scheduled, complies with anti-affinity and has no open request to leave its
-- node is not placed again: after the check, only a request that has been met is cleared.
pub scheduling_and_migrations-idle :
    (vm : VirtualMachine) (status : VirtualMachineStatus) (env : Env) (w v : World)
    → try_status vm ≡ ok status
    → status.scheduled ≡ true
    → migration_requested vm ≡ false
    → is_uncompliant vm env w ≡ (ok false, v)
    → scheduling_and_migrations vm env w ≡ clear_successful_migration vm (field_manager "vm") env v
unfolding scheduling_and_migrations
scheduling_and_migrations-idle vm status env w v t s m c = rw (t, c, s, m) refl

-- Where the rules leave no node, anti-affinity is ignored only for a requested migration: without
-- one the placement fails with the scheduler's error and writes nothing more. With one, the
-- placement fails if the second attempt does, with its error.
pub place-fails :
    (vm : VirtualMachine) (status : VirtualMachineStatus) (env : Env) (w v u : World) (e e' : Error)
    → schedule vm false env w ≡ (err e, v)
    → schedule vm true env v ≡ (err e', u)
    → (place vm status false env w ≡ (err e, v)) × (place vm status true env w ≡ (err e', u))
unfolding place
place-fails vm status env w v u e e' p q = (rw p refl, rw (p, q) refl)

-- A placement that fails releases the scheduler's mutex, and the reconciliation of the machine
-- ends with the error.
pub scheduling_and_migrations-released :
    (vm : VirtualMachine) (status : VirtualMachineStatus) (env : Env) (w v u : World) (e : Error)
    (uncompliant : Bool)
    → try_status vm ≡ ok status
    → is_uncompliant vm env w ≡ (ok uncompliant, v)
    → (not status.scheduled || migration_requested vm || uncompliant) ≡ true
    → place vm status (migration_requested vm) env (happen Event.lock_scheduler v) ≡ (err e, u)
    → scheduling_and_migrations vm env w ≡ (err e, happen Event.unlock_scheduler u)
unfolding scheduling_and_migrations
scheduling_and_migrations-released vm status env w v u e uncompliant t c needed p =
    rw (t, c, needed, p) refl

-- The first reconciliation of a machine: it has no status yet, and one that says that it is not
-- scheduled is written. The reconciliation then fails, since the machine at hand has no status,
-- and nothing else is done.
pub create_fn-first :
    (vm : VirtualMachine) (name namespace full : String) (env : Env) (w : World) (e : Error)
    → vm.metadata.name ≡ some name
    → vm.metadata.namespace ≡ some namespace
    → name_prefixed_with_namespace vm ≡ ok full
    → vm.status ≡ none
    → try_status vm ≡ err e
    → env.kube.write
        (Event.replace_status (of_vm (record vm { status = some (new_status full) })) ∷ w.log)
      ≡ done tt
    → create_fn vm env w ≡ (
      err e,
      happen (Event.replace_status (of_vm (record vm { status = some (new_status full) }))) w,
    )
unfolding create_fn set_vm_status fill_nics
create_fn-first vm name namespace full env w e p q n s t accepted =
    simp (create_fn, n, initialize_status, s, set_vm_status, p, q, accepted, fill_nics, n, q, t)
