-- ===== src/Vm/Maintenance.antt =====
-- src/cluster/controllers/node.rs: the machines of a node in maintenance are asked to leave.
pub mod Requests
use cluster_controller.Prelude.{
  ℕ, zero, suc, ◌+◌, ◌-◌, ◌*◌, ◌%◌, ◌^◌, ◌≤◌, ◌<◌, String, ◌≡◌, ◌≢◌, ◌⊎◌, inl, inr, refl, sym, ap,
  Bool, true, false, ◌&&◌, ◌||◌, not, Option, none, some, List, [], ◌∷◌, ◌++◌, map, arith, ltb, leb,
  nat_eq, ◌==◌, option_eq, if◌then◌else◌, is_some, get_or, and_then, map_option, length, get_elem?,
  head?, retain, find, any, filter_map, contains, lookup, insert, remove, format, join, split,
  has_substring, ends_with, to_decimal, Bool-cases, Option-cases, eq_iff, All, In,
}
use cluster_controller.Errors.{
  Outcome, ok, err, panic, Error, ok_or, or_default, expect, assert, is_ok, collect, ovn_not_found,
  ovn_conflict, ovn_deserialization_failed,
}
use cluster_controller.Crd.{VirtualMachine, VirtualMachineStatus, Node}
use cluster_controller.World.{
  Ovn, Params, by_position, by_name, Message, request, response, Event, Env, World, M, ◌>>=◌, ◌>>◌,
  lift, observe, ask, pure, fail, try, read, happen, for_each,
}
use cluster_controller.Kube.{
  Resource, vm_resource, network_resource, router_resource, commit, ensure_finalizer,
  remove_finalizer, name_prefixed_with_namespace, namespace_unchecked, set_vm_status, try_status,
}
use cluster_controller.Controller.{Action, requeue, await_change}
use cluster_controller.Node.{in_maintenance_mode}
use cluster_controller.Vm.Annotations.{request_migration_away_from}

-- A machine on some node, or on none: it is asked to leave if the node is this one.
abbrev pub leave : Node → VirtualMachine → Option String → M (Unit {0})
leave node vm none = pure tt
leave node vm (some scheduled_node) = lift (expect node.metadata.name) >>= λ name.
    if scheduled_node == name
    then request_migration_away_from vm node "cluster-manager.libvirt.node"
    else pure tt

-- The body of the loop over the machines.
unfoldable pub request_reschedule : Node → VirtualMachine → M (Unit {0})
request_reschedule node vm = lift (try_status vm) >>= λ status. leave node vm status.node

-- A failure to list the machines is ignored.
abbrev pub request_all : Node → Outcome (List VirtualMachine) → M (Unit {0})
request_all node (ok vms) = for_each (request_reschedule node) vms
request_all node (err e) = pure tt
request_all node panic = lift panic

unfoldable pub request_reschedule_node_vms : Node → M (Unit {0})
unfolding request_reschedule
request_reschedule_node_vms node =
    try (ask (Event.list_vms none) Error.kube (λ env h. env.kube.vms h none)) >>= request_all node

unfoldable pub update_node : Node → M Action
unfolding request_reschedule_node_vms
update_node node = lift (expect node.metadata.name) >>= λ name.
    (if in_maintenance_mode node then request_reschedule_node_vms node else pure tt)
    >> pure (requeue 600)

unfoldable pub delete_node : Node → M Action
delete_node node = pure await_change
