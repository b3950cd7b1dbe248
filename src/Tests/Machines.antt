-- ===== src/Tests/Machines.antt =====
-- Examples of the machine controller's theorems.
use cluster_controller.Prelude.{
  any, String, inl, ◌≡◌, refl, true, false, none, some, [], ◌∷◌, format,
}
use cluster_controller.Crd.{Node, VirtualMachine, VirtualMachineStatus}
use cluster_controller.Errors.{ok, err, Error}
use cluster_controller.World.{Env, Event, World, done}
use cluster_controller.Kube.{
  remove_finalizer, set_vm_status, vm_resource, commit, has_finalizer, full_finalizer,
  push_finalizer, ensure_finalizer, try_status, name_prefixed_with_namespace,
}
use cluster_controller.Kube.Finalizers.{ensure_finalizer-again, remove_finalizer-again}
use cluster_controller.Node.{in_maintenance_mode, allows_scheduling}
use cluster_controller.Vm.Annotations.{migration_requested_from}
use cluster_controller.Vm.Maintenance.{request_reschedule_node_vms}
use cluster_controller.Vm.Maintenance.Requests.{
  all_writes, request_reschedule_node_vms-All, request_reschedule_node_vms-stops,
}
use cluster_controller.Vm.Scheduling.{
  migration_requested, clear_successful_migration, get_vms_with_label, get_vm_node, schedule,
  choose, remove_nodes_in_maintenance, remove_nodes_with_no_schedule, is_uncompliant,
  get_others_in_affinity_group,
}
use cluster_controller.Vm.Scheduling.Availability.{schedule_available}
use cluster_controller.Vm.Scheduling.Compliance.{Conflicts, is_uncompliant-Conflicts}
use cluster_controller.Vm.Scheduling.Choice.{Suits, schedule-Suits}
use cluster_controller.Vm.Reconcile.{place, scheduling_and_migrations, create_fn}
use cluster_controller.World.Monad.Inversion.{world_of}
use cluster_controller.World.Monad.Locking.{IsFree}
use cluster_controller.Vm.Reconcile.Locking.{create_fn-IsFree}
use cluster_controller.Tests.Fixtures.{node_b, node_a, on_a, unplaced, fresh, quiet, start}

schedule-Suits_example : Suits unplaced false quiet start node_a
unfolding schedule choose remove_nodes_in_maintenance remove_nodes_with_no_schedule
    in_maintenance_mode allows_scheduling migration_requested_from
schedule-Suits_example = schedule-Suits unplaced false quiet start refl

schedule_available_example :
    (node : Node) × (w' : World) × (schedule unplaced false quiet start ≡ (ok node, w'))
unfolding in_maintenance_mode allows_scheduling migration_requested_from
schedule_available_example =
    schedule_available unplaced false quiet start (node_a ∷ node_b ∷ []) node_a refl
      (("a", refl), (("b", refl), tt)) refl (inl refl) refl refl tt tt

abbrev member : String → VirtualMachine
member name = record on_a {
  metadata = record on_a.metadata { name = some name; labels = some (("antiAffinity", "g") ∷ []) };
}

-- Two machines of a group.
abbrev crowded : Env
crowded = record quiet {
  kube = record quiet.kube { vms = λ h selector. done (member "vm" ∷ member "vm2" ∷ []) };
}

is_uncompliant-Conflicts_example :
    (status : VirtualMachineStatus) × (try_status (member "vm") ≡ ok status)
    × (status.scheduled ≡ true)
    × Conflicts (member "vm") crowded start
unfolding is_uncompliant try_status get_others_in_affinity_group get_vms_with_label
    name_prefixed_with_namespace get_vm_node
is_uncompliant-Conflicts_example = is_uncompliant-Conflicts (member "vm") crowded start refl

ensure_finalizer-again_example :
    (has_finalizer (push_finalizer unplaced (full_finalizer "ovn")) (full_finalizer "ovn") ≡ true)
    × ((v : World)
        → ensure_finalizer (push_finalizer unplaced (full_finalizer "ovn")) "ovn" "m" quiet v
          ≡ (ok (push_finalizer unplaced (full_finalizer "ovn")), v))
unfolding ensure_finalizer has_finalizer commit
ensure_finalizer-again_example =
    ensure_finalizer-again (λ x m. refl) unplaced "ovn" "m" "m" quiet start refl

remove_finalizer-again_example :
    (has_finalizer unplaced (full_finalizer "ovn") ≡ false)
    × ((v : World) → remove_finalizer unplaced "ovn" "m" quiet v ≡ (ok unplaced, v))
unfolding remove_finalizer has_finalizer
remove_finalizer-again_example =
    remove_finalizer-again (λ x m. refl) unplaced "ovn" "m" "m" quiet start refl

request_reschedule_node_vms-All_example :
    request_reschedule_node_vms node_a
      (record quiet { kube = record quiet.kube { vms = λ h s. done (on_a ∷ []) } })
      start
    ≡ (ok tt, record start { log = all_writes "a" (on_a ∷ []) (Event.list_vms none ∷ []) })
request_reschedule_node_vms-All_example =
    request_reschedule_node_vms-All node_a "a" refl
      (record quiet { kube = record quiet.kube { vms = λ h s. done (on_a ∷ []) } }) (λ h. refl)
      (on_a ∷ []) start refl
      (
        (
          λ e. absurd (let no_value : ⊥ = cc e in no_value),
          λ e. absurd (let no_value : ⊥ = cc e in no_value),
        ),
        tt,
      )

request_reschedule_node_vms-stops_example : request_reschedule_node_vms node_a quiet start ≡ (
  err (
      Error.no_status_subresource
        (format ("VirtualMachine/" ∷ "vm" ∷ " in ns " ∷ "ns" ∷ " has no status" ∷ []))),
  record start { log = all_writes "a" (on_a ∷ []) (Event.list_vms none ∷ []) },
)
unfolding try_status
request_reschedule_node_vms-stops_example =
    request_reschedule_node_vms-stops node_a "a" refl quiet (λ h. refl) (on_a ∷ []) (on_a ∷ [])
      fresh _ start refl
      (
        (
          λ e. absurd (let no_value : ⊥ = cc e in no_value),
          λ e. absurd (let no_value : ⊥ = cc e in no_value),
        ),
        tt,
      )
      refl

create_fn-IsFree_example : IsFree (world_of (create_fn unplaced quiet start))
create_fn-IsFree_example = create_fn-IsFree unplaced quiet start (refl, refl)

-- The mutex is taken there.
scheduling_locks :
    any
      (λ event. elim event [ Event.lock_scheduler ↦ true | _ ↦ false ])
      (world_of (scheduling_and_migrations unplaced quiet start)).log
    ≡ true
unfolding scheduling_and_migrations try_status is_uncompliant migration_requested place schedule
    choose remove_nodes_in_maintenance remove_nodes_with_no_schedule migration_requested_from
    in_maintenance_mode allows_scheduling set_vm_status clear_successful_migration
scheduling_locks = refl
