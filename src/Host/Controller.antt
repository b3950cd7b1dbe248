-- ===== src/Host/Controller.antt =====
-- src/host/libvirt/controller.rs: which of the handlers an update is for.
pub mod Decision
use cluster_controller.Prelude.{
  ℕ, zero, suc, ◌+◌, ◌-◌, ◌*◌, ◌%◌, ◌^◌, ◌≤◌, ◌<◌, String, ◌≡◌, ◌≢◌, ◌⊎◌, inl, inr, refl, sym, ap,
  Bool, true, false, ◌&&◌, ◌||◌, not, Option, none, some, List, [], ◌∷◌, ◌++◌, map, arith, ltb, leb,
  nat_eq, ◌==◌, option_eq, if◌then◌else◌, is_some, get_or, and_then, map_option, length, get_elem?,
  head?, retain, find, any, filter_map, contains, lookup, insert, remove, format, join, split,
  has_substring, ends_with, to_decimal, Bool-cases, Option-cases, eq_iff, All, In, find-some,
  find-none, All-find-none, any-true, any-In, any-false, In-retain, retain-In, ◌↔◌, IsFree,
  split_free, split_at,
}
use cluster_controller.Errors.{
  Outcome, ok, err, panic, Error, ok_or, or_default, expect, assert, is_ok, collect, ovn_not_found,
  ovn_conflict, ovn_deserialization_failed,
}
use cluster_controller.Crd.{VirtualMachine, VirtualMachineStatus}
use cluster_controller.World.{
  Ovn, Params, by_position, by_name, Message, request, response, Event, Env, World, M, ◌>>=◌, ◌>>◌,
  lift, observe, ask, pure, fail, try, read, happen, for_each,
}
use cluster_controller.Kube.{
  Resource, vm_resource, network_resource, router_resource, commit, ensure_finalizer,
  remove_finalizer, name_prefixed_with_namespace, namespace_unchecked, set_vm_status, try_status,
}
use cluster_controller.Controller.{Action, requeue, await_change, field_manager}
use cluster_controller.Host.Machines.{get_domain_name}
use cluster_controller.Host.Domains.{has_domain}
use cluster_controller.Host.Handlers.{
  handle_delete, handle_add, handle_outbound_migration, handle_inbound_migration,
}

-- `Event` of the source
pub data EventType : Type 0 where
  missing_domain_name unscheduled no_node : EventType
  inbound_migration outbound_migration not_ours added updated deleted : EventType

-- The `match (vm_runs_on_us, is_deleted)`
abbrev pub by_presence : Bool → Bool → EventType
by_presence vm_runs_on_us true = deleted
by_presence true false = updated
by_presence false false = added

-- The decision, by: the target is this node, a migration is pending, the domain is on this host,
-- the machine is being deleted.
abbrev pub classify : Bool → Bool → Bool → Bool → EventType
classify true true vm_runs_on_us is_deleted = inbound_migration
classify true false vm_runs_on_us is_deleted = by_presence vm_runs_on_us is_deleted
classify false migration_pending true is_deleted = outbound_migration
classify false migration_pending false is_deleted = not_ours

-- Behind the domain name, for a machine's status.
abbrev pub event_type_of : VirtualMachine → String → String → VirtualMachineStatus → M EventType
event_type_of vm my_node_name domain_name status =
    if status.scheduled
    then elim status.node [
      | none ↦ pure no_node
      | some target_node ↦ has_domain domain_name >>= λ vm_runs_on_us. pure (
          classify (target_node == my_node_name) status.migration_pending vm_runs_on_us
            (is_some vm.metadata.deletion_timestamp))
    ]
    else pure unscheduled

unfoldable pub get_event_type : VirtualMachine → M EventType
get_event_type vm = read (λ env. expect env.node_name) >>= λ node_name.
    lift node_name >>= λ my_node_name. lift (expect vm.metadata.name) >>= λ k8s_vm_name.
    lift (get_domain_name vm) >>= λ found. elim found [
      | none ↦ pure missing_domain_name
      | some domain_name ↦ lift (try_status vm) >>= event_type_of vm my_node_name domain_name
    ]

abbrev pub handle : VirtualMachine → EventType → M Action
handle vm deleted = handle_delete vm
handle vm added = handle_add vm
handle vm outbound_migration = handle_outbound_migration vm
handle vm inbound_migration = handle_inbound_migration vm
handle vm _ = pure await_change

unfoldable pub reconcile : VirtualMachine → M Action
reconcile vm = get_event_type vm >>= handle vm
