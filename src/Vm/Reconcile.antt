-- ===== src/Vm/Reconcile.antt =====
-- src/cluster/controllers/virtualmachine/vm.rs: one reconciliation of a virtual machine.
pub mod Decisions
pub mod Locking
use cluster_controller.Prelude.{
  ℕ, zero, suc, ◌+◌, ◌-◌, ◌*◌, ◌%◌, ◌^◌, ◌≤◌, ◌<◌, String, ◌≡◌, ◌≢◌, ◌⊎◌, inl, inr, refl, sym, ap,
  Bool, true, false, ◌&&◌, ◌||◌, not, Option, none, some, List, [], ◌∷◌, ◌++◌, map, arith, ltb, leb,
  nat_eq, ◌==◌, option_eq, if◌then◌else◌, is_some, get_or, and_then, map_option, length, get_elem?,
  head?, retain, find, any, filter_map, contains, lookup, insert, remove, format, join, split,
  has_substring, ends_with, to_decimal, Bool-cases, Option-cases, eq_iff, All, In,
}
use cluster_controller.Errors.{
  Outcome, ok, err, panic, Error, ok_or, or_default, expect, assert, is_ok, collect, ovn_not_found,
  ovn_conflict, ovn_deserialization_failed,
}
use cluster_controller.Crd.{VirtualMachine, VirtualMachineStatus, Node}
use cluster_controller.World.{
  Ovn, Params, by_position, by_name, Message, request, response, Event, Env, World, M, ◌>>=◌, ◌>>◌,
  lift, observe, ask, pure, fail, try, read, happen, for_each,
}
use cluster_controller.Kube.{
  Resource, vm_resource, network_resource, router_resource, commit, ensure_finalizer,
  remove_finalizer, name_prefixed_with_namespace, namespace_unchecked, set_vm_status, try_status,
}
use cluster_controller.Controller.{Action, requeue, await_change, field_manager}
use cluster_controller.Vm.Nics.{fill_nics, fill_uuid}
use cluster_controller.Vm.Scheduling.{
  schedule, is_uncompliant, migration_requested, clear_successful_migration,
}

abbrev pub new_status : String → VirtualMachineStatus
new_status name = record {
  scheduled = false;
  running = false;
  migration_pending = false;
  node = none;
  domain_name = name;
  ip_addresses = none;
  ip_addresses_string = none;
  networks = [];
}

-- The status is written to the server; the machine at hand keeps none.
unfoldable pub initialize_status : VirtualMachine → String → M (Unit {0})
initialize_status vm name =
    if is_some vm.status then pure tt else set_vm_status vm (new_status name)

-- The scheduler's mutex is held while `m` runs, and is released however `m` ends.
abbrev pub release : {A : Type 0} → Outcome A × World → Outcome A × World
release (r, w) = (r, happen Event.unlock_scheduler w)

abbrev pub with_scheduler_lock : {A : Type 0} → M A → M A
with_scheduler_lock m env w = release (m env (happen Event.lock_scheduler w))

-- Schedule by the rules; only a requested migration may then ignore anti-affinity.
abbrev pub fall_back : VirtualMachine → Bool → Outcome Node → M Node
fall_back vm true (err e) = schedule vm true
fall_back vm migration_required result = lift result

-- The status of a machine that has been scheduled to a node.
abbrev pub scheduled_status : VirtualMachineStatus → Bool → String → VirtualMachineStatus
scheduled_status status migration_required node = record status {
  node = some node;
  scheduled = true;
  migration_pending = if migration_required then true else status.migration_pending;
}

-- The block under the scheduler's mutex.
unfoldable pub place : VirtualMachine → VirtualMachineStatus → Bool → M (Unit {0})
place vm status migration_required = try (schedule vm false) >>= λ schedule_result.
    fall_back vm migration_required schedule_result >>= λ node.
    lift (expect node.metadata.name) >>= λ name.
    set_vm_status vm (scheduled_status status migration_required name)

unfoldable pub scheduling_and_migrations : VirtualMachine → M (Unit {0})
unfolding place
scheduling_and_migrations vm = lift (try_status vm) >>= λ status.
    is_uncompliant vm >>= λ reschedule_required.
    let migration_required = migration_requested vm in
    (if not status.scheduled || migration_required || reschedule_required
      then with_scheduler_lock (place vm status migration_required)
      else pure tt)
    >> clear_successful_migration vm (field_manager "vm")

unfoldable pub create_fn : VirtualMachine → M Action
unfolding initialize_status scheduling_and_migrations
create_fn vm = lift (name_prefixed_with_namespace vm) >>= λ name.
    initialize_status vm name >> fill_nics vm >> fill_uuid vm >>= λ filled.
    scheduling_and_migrations filled >> pure (requeue 600)

unfoldable pub delete_fn : VirtualMachine → M Action
delete_fn vm = pure await_change
