-- ===== src/Vm/Reconcile/Locking.antt =====
-- A reconciliation of a machine uses the scheduler's mutex in order and leaves it free.
use cluster_controller.Prelude.{
  String, refl, Bool, true, false, not, ◌||◌, Option, none, some, List, [], ◌∷◌, Option-cases, inl,
  inr, is_some, option_eq, length, get_elem?, find, ◌%◌,
}
use cluster_controller.Errors.{Outcome, ok, err, panic, Error, expect}
use cluster_controller.Crd.{VirtualMachine, VirtualMachineStatus, Node}
use cluster_controller.World.{Event, Env, World, M, happen}
use cluster_controller.World.Monad.Inversion.{world_of}
use cluster_controller.World.Monad.Locking.{
  Inside, Quiet-Inside, lift-Inside, ask-Inside, observe-Inside, bind-Inside, try-Inside, SameLock,
  Quiet, IsFree, Frees, lift-Quiet, ask-Quiet, bind-Quiet, then-Quiet, if-Quiet, Quiet-Frees,
  bind-Frees, then-Frees, if-Frees,
}
use cluster_controller.Kube.{name_prefixed_with_namespace, vm_resource, try_status}
use cluster_controller.Controller.{requeue, field_manager}
use cluster_controller.Node.{label}
use cluster_controller.Vm.Annotations.{
  migration_requested_from, clear_migration_request, without_migration_request,
}
use cluster_controller.Vm.Scheduling.{
  anti_affinity_label, get_vms_with_label, retain_others, get_others_in_affinity_group, get_vm_node,
  is_uncompliant, migration_requested, clear_successful_migration, get_nodes_with_label_scheduled,
  remove_candidate_nodes, remove_nodes_in_maintenance, remove_nodes_with_no_schedule, requested,
  is_requested, without_source, without_group, group_of, chosen, choose, schedule_among, schedule,
}
use cluster_controller.Vm.Reconcile.{
  initialize_status, new_status, release, with_scheduler_lock, fall_back, scheduled_status, place,
  scheduling_and_migrations, create_fn,
}
use cluster_controller.Vm.Nics.Locking.{
  commit-Quiet, set_vm_status-Quiet, fill_nics-Quiet, fill_uuid-Quiet,
}

get_vms-Quiet : (key value : String) → Quiet (get_vms_with_label key value)
unfolding get_vms_with_label
get_vms-Quiet key value =
    ask-Quiet (Event.list_vms (some (key, value))) Error.kube
      (λ env h. env.kube.vms h (some (key, value))) (λ log. (refl, refl))

others-Quiet : (vm : VirtualMachine) → Quiet (get_others_in_affinity_group vm)
unfolding get_others_in_affinity_group
others-Quiet vm = elim (Option-cases (label anti_affinity_label vm.metadata)) [
  | inl e ↦ rw (get_others_in_affinity_group, e) (lift-Quiet (ok []))
  | inr (group, e) ↦
      rw (get_others_in_affinity_group, e)
        (bind-Quiet (get_vms-Quiet anti_affinity_label group)
          λ vms. lift-Quiet (retain_others vm vms))
]

is_uncompliant-Quiet : (vm : VirtualMachine) → Quiet (is_uncompliant vm)
unfolding is_uncompliant
is_uncompliant-Quiet vm = bind-Quiet (lift-Quiet (try_status vm)) λ status.
    if-Quiet status.scheduled (bind-Quiet (others-Quiet vm) λ members. lift-Quiet (ok _))
      (lift-Quiet (ok false))

clear-Quiet :
    (vm : VirtualMachine) (manager : String) → Quiet (clear_successful_migration vm manager)
unfolding clear_successful_migration clear_migration_request
clear-Quiet vm manager = elim (Option-cases (migration_requested_from vm)) [
  | inl e ↦ rw (clear_successful_migration, e) (lift-Quiet (ok tt))
  | inr (node, e) ↦
      rw (clear_successful_migration, e)
        (if-Quiet (option_eq (get_vm_node vm) (some node)) (lift-Quiet (ok tt))
          (commit-Quiet (without_migration_request vm) manager))
]

group-Quiet :
    (group : Option String) (candidates : List Node) → Quiet (without_group group candidates)
unfolding get_nodes_with_label_scheduled
group-Quiet none candidates = lift-Quiet (ok candidates)
group-Quiet (some group) candidates =
    bind-Quiet (bind-Quiet (get_vms-Quiet anti_affinity_label group) λ vms. lift-Quiet (ok _))
      λ blocked. lift-Quiet (remove_candidate_nodes candidates blocked)

choose-Inside : (vm : VirtualMachine) (candidates : List Node) → Inside (choose vm candidates)
unfolding choose
choose-Inside vm candidates =
    bind-Inside
      (observe-Inside Event.random (λ env h. env.random h % length candidates)
        (λ log holding. (refl, rw holding refl)))
      λ index. lift-Inside (chosen vm (get_elem? candidates index))

among-Inside :
    (vm : VirtualMachine) (ignore_affinity : Bool) (candidates : List Node) (node : Option String)
    → Inside (schedule_among vm ignore_affinity candidates node)
among-Inside vm ignore_affinity candidates (some node) =
    lift-Inside (requested vm node (find (is_requested node) candidates))
among-Inside vm ignore_affinity candidates none =
    bind-Inside
      (lift-Inside
        (without_source (migration_requested_from vm) (remove_nodes_with_no_schedule candidates)))
      λ others.
        bind-Inside (Quiet-Inside (group-Quiet (group_of vm ignore_affinity) others))
          (choose-Inside vm)

schedule-Inside :
    (vm : VirtualMachine) (ignore_affinity : Bool) → Inside (schedule vm ignore_affinity)
unfolding schedule
schedule-Inside vm ignore_affinity =
    bind-Inside
      (ask-Inside Event.list_nodes Error.kube (λ env h. env.kube.nodes h)
        (λ log holding. (refl, rw holding refl)))
      λ nodes. among-Inside vm ignore_affinity (remove_nodes_in_maintenance nodes) vm.spec.node

fall_back-Inside :
    (vm : VirtualMachine) (required : Bool) (result : Outcome Node)
    → Inside (fall_back vm required result)
fall_back-Inside vm true (err e) = schedule-Inside vm true
fall_back-Inside vm true (ok node) = lift-Inside (ok node)
fall_back-Inside vm true panic = lift-Inside panic
fall_back-Inside vm false result = lift-Inside result

place-Inside :
    (vm : VirtualMachine) (status : VirtualMachineStatus) (required : Bool)
    → Inside (place vm status required)
unfolding place
place-Inside vm status required = bind-Inside (try-Inside (schedule-Inside vm false)) λ result.
    bind-Inside (fall_back-Inside vm required result) λ node.
      bind-Inside (lift-Inside (expect node.metadata.name))
        λ name. Quiet-Inside (set_vm_status-Quiet vm (scheduled_status status required name))

released :
    {A : Type 0} (r : Outcome A × World) (log : List Event)
    → IsFree (record { log = log; ids = λ c. 0; connections = 0 })
    → SameLock (world_of r).log (Event.lock_scheduler ∷ log)
    → IsFree (world_of (release r))
released (o, u) log (free, order) (same_held, same_order) =
    (refl, rw (same_held, same_order, free, order) refl)

with_scheduler_lock-Frees : {A : Type 0} {m : M A} → Inside m → Frees (with_scheduler_lock m)
with_scheduler_lock-Frees {m = m} h = record {
  freed = λ env w free.
      released (m env (happen Event.lock_scheduler w)) w.log free
        (h.kept env (happen Event.lock_scheduler w) refl);
}

scheduling-Frees : (vm : VirtualMachine) → Frees (scheduling_and_migrations vm)
unfolding scheduling_and_migrations
scheduling-Frees vm = bind-Frees (Quiet-Frees (lift-Quiet (try_status vm))) λ status.
    bind-Frees (Quiet-Frees (is_uncompliant-Quiet vm)) λ uncompliant.
      then-Frees
        (if-Frees (not status.scheduled || migration_requested vm || uncompliant)
          (with_scheduler_lock-Frees (place-Inside vm status (migration_requested vm)))
          (Quiet-Frees (lift-Quiet (ok tt))))
        (Quiet-Frees (clear-Quiet vm (field_manager "vm")))

create_fn-Frees : (vm : VirtualMachine) → Frees (create_fn vm)
unfolding create_fn initialize_status
create_fn-Frees vm = bind-Frees (Quiet-Frees (lift-Quiet (name_prefixed_with_namespace vm))) λ name.
    bind-Frees
      (Quiet-Frees (
        then-Quiet
          (then-Quiet
            (if-Quiet (is_some vm.status) (lift-Quiet (ok tt))
              (set_vm_status-Quiet vm (new_status name)))
            (fill_nics-Quiet vm))
          (fill_uuid-Quiet vm)))
      λ filled. then-Frees (scheduling-Frees filled) (Quiet-Frees (lift-Quiet (ok (requeue 600))))

-- A reconciliation of a machine that starts while the scheduler's mutex is free locks it only while
-- it is free, unlocks it only while it is held, lists the nodes and draws one of them only while it
-- is held, and leaves it free, whether it returns, fails or panics.
pub create_fn-IsFree :
    (vm : VirtualMachine) (env : Env) (w : World)
    → IsFree w
    → IsFree (world_of (create_fn vm env w))
create_fn-IsFree vm env w free = (create_fn-Frees vm).freed env w free
