-- ===== src/Vm/Scheduling.antt =====
-- src/cluster/controllers/virtualmachine/scheduling.rs: the choice of a node for a machine, and
-- the anti-affinity rule.
pub mod Choice
pub mod Compliance
pub mod Availability
use cluster_controller.Prelude.{
  ℕ, zero, suc, ◌+◌, ◌-◌, ◌*◌, ◌%◌, ◌^◌, ◌≤◌, ◌<◌, String, ◌≡◌, ◌≢◌, ◌⊎◌, inl, inr, refl, sym, ap,
  Bool, true, false, ◌&&◌, ◌||◌, not, Option, none, some, List, [], ◌∷◌, ◌++◌, map, arith, ltb, leb,
  nat_eq, ◌==◌, option_eq, if◌then◌else◌, is_some, get_or, and_then, map_option, length, get_elem?,
  head?, retain, find, any, filter_map, contains, lookup, insert, remove, format, join, split,
  has_substring, ends_with, to_decimal, Bool-cases, Option-cases, eq_iff, All, In,
}
use cluster_controller.Errors.{
  Outcome, ok, err, panic, Error, ok_or, or_default, expect, assert, is_ok, collect, ovn_not_found,
  ovn_conflict, ovn_deserialization_failed,
}
use cluster_controller.Errors
use cluster_controller.Crd.{ObjectMeta, VirtualMachine, VirtualMachineStatus, Node}
use cluster_controller.World.{
  Ovn, Params, by_position, by_name, Message, request, response, Event, Env, World, M, ◌>>=◌, ◌>>◌,
  lift, observe, ask, pure, fail, try, read, happen, for_each,
}
use cluster_controller.Node.{label, in_maintenance_mode, allows_scheduling}
use cluster_controller.Kube.{
  Resource, vm_resource, network_resource, router_resource, commit, ensure_finalizer,
  remove_finalizer, name_prefixed_with_namespace, namespace_unchecked, set_vm_status, try_status,
}
use cluster_controller.Vm.Annotations.{migration_requested_from, clear_migration_request}

abbrev pub anti_affinity_label : String
anti_affinity_label = "antiAffinity"

unfoldable pub get_vms_with_label : String → String → M (List VirtualMachine)
get_vms_with_label key value =
    ask (Event.list_vms (some (key, value))) Error.kube
      (λ env h. env.kube.vms h (some (key, value)))

-- `vms.retain(|vm| vm.name_prefixed_with_namespace() != ref_vm.name_prefixed_with_namespace())`
abbrev pub retain_others : VirtualMachine → List VirtualMachine → Outcome (List VirtualMachine)
retain_others ref_vm [] = ok []
retain_others ref_vm (vm ∷ rest) = Errors.◌>>=◌ (name_prefixed_with_namespace vm) λ name.
    Errors.◌>>=◌ (name_prefixed_with_namespace ref_vm) λ ref_name.
      Errors.◌>>=◌ (retain_others ref_vm rest)
        λ others. ok (if name == ref_name then others else vm ∷ others)

unfoldable pub get_others_in_affinity_group : VirtualMachine → M (List VirtualMachine)
get_others_in_affinity_group ref_vm = elim (label anti_affinity_label ref_vm.metadata) [
  | some group ↦
      get_vms_with_label anti_affinity_label group >>= λ vms. lift (retain_others ref_vm vms)
  | none ↦ pure []
]

unfoldable pub get_vm_node : VirtualMachine → Option String
get_vm_node vm = and_then vm.status (λ (status : VirtualMachineStatus). status.node)

-- The closure of `is_uncompliant`: both on the same node.
abbrev pub shares_node : VirtualMachine → VirtualMachine → Bool
shares_node vm other_vm =
    is_some (get_vm_node vm) && option_eq (get_vm_node vm) (get_vm_node other_vm)

unfoldable pub is_uncompliant : VirtualMachine → M Bool
is_uncompliant vm = lift (try_status vm) >>= λ status.
    if status.scheduled
    then get_others_in_affinity_group vm >>= (λ members. pure (any (shares_node vm) members))
    else pure false

unfoldable pub migration_requested : VirtualMachine → Bool
unfolding get_vm_node
migration_requested vm = elim (migration_requested_from vm) [
  | some node_to_leave ↦ option_eq (get_vm_node vm) (some node_to_leave)
  | none ↦ false
]

unfoldable pub clear_successful_migration : VirtualMachine → String → M (Unit {0})
clear_successful_migration vm field_manager = elim (migration_requested_from vm) [
  | some node_to_leave ↦
      if option_eq (get_vm_node vm) (some node_to_leave)
      then pure tt
      else clear_migration_request vm field_manager
  | none ↦ pure tt
]

unfoldable pub get_nodes_with_label_scheduled : String → String → M (List String)
get_nodes_with_label_scheduled key value =
    get_vms_with_label key value >>= λ vms_scheduled. pure (filter_map get_vm_node vms_scheduled)

-- One round of the loop in `remove_candidate_nodes`; a candidate without a name is a panic.
unfoldable pub remove_candidate_node : String → List Node → Outcome (List Node)
remove_candidate_node node_to_remove [] = ok []
remove_candidate_node node_to_remove (candidate ∷ rest) =
    Errors.◌>>=◌ (expect candidate.metadata.name) λ name.
      Errors.◌>>=◌ (remove_candidate_node node_to_remove rest)
        λ others. ok (if name == node_to_remove then others else candidate ∷ others)

unfoldable pub remove_candidate_nodes : List Node → List String → Outcome (List Node)
unfolding remove_candidate_node
remove_candidate_nodes candidates [] = ok candidates
remove_candidate_nodes candidates (node_to_remove ∷ rest) =
    Errors.◌>>=◌ (remove_candidate_node node_to_remove candidates)
      λ others. remove_candidate_nodes others rest

unfoldable pub remove_nodes_in_maintenance : List Node → List Node
remove_nodes_in_maintenance candidates =
    retain (λ candidate. not (in_maintenance_mode candidate)) candidates

unfoldable pub remove_nodes_with_no_schedule : List Node → List Node
remove_nodes_with_no_schedule candidates = retain allows_scheduling candidates

-- A node that the specification names: one of the candidates, or none.
abbrev pub requested : VirtualMachine → String → Option Node → Outcome Node
requested vm requested_node (some node) = ok node
requested vm requested_node none = Errors.◌>>=◌ (expect vm.metadata.name) λ name. err (
    Error.schedule_failed
      (format (name ∷ " requested node " ∷ requested_node ∷ " which is not available" ∷ [])))

-- `candidate.metadata.name.as_ref().unwrap_or(&String::new()) == requested_node`
abbrev pub is_requested : String → Node → Bool
is_requested requested_node candidate = get_or candidate.metadata.name "" == requested_node

-- The candidates without the node that is being left.
abbrev pub without_source : Option String → List Node → Outcome (List Node)
without_source (some source_node) candidates = remove_candidate_nodes candidates (source_node ∷ [])
without_source none candidates = ok candidates

-- The candidates without the nodes of the machine's anti-affinity group.
abbrev pub without_group : Option String → List Node → M (List Node)
without_group (some group) candidates =
    get_nodes_with_label_scheduled anti_affinity_label group >>= λ blocked_nodes.
    lift (remove_candidate_nodes candidates blocked_nodes)
without_group none candidates = pure candidates

-- The group that counts: none if anti-affinity is ignored.
abbrev pub group_of : VirtualMachine → Bool → Option String
group_of vm true = none
group_of vm false = label anti_affinity_label vm.metadata

abbrev pub chosen : VirtualMachine → Option Node → Outcome Node
chosen vm (some node) = ok node
chosen vm none = Errors.◌>>=◌ (expect vm.metadata.name) λ name. err (Error.schedule_failed name)

-- `choose(&mut rand::thread_rng())`: the environment picks an index.
unfoldable pub choose : VirtualMachine → List Node → M Node
choose vm candidates = observe Event.random (λ env h. env.random h % length candidates) >>= λ index.
    lift (chosen vm (get_elem? candidates index))

-- The part of `schedule` behind the maintenance filter, by the node in the specification.
abbrev pub schedule_among : VirtualMachine → Bool → List Node → Option String → M Node
schedule_among vm ignore_affinity candidates (some requested_node) =
    lift (requested vm requested_node (find (is_requested requested_node) candidates))
schedule_among vm ignore_affinity candidates none =
    lift (without_source (migration_requested_from vm) (remove_nodes_with_no_schedule candidates))
    >>= λ others. without_group (group_of vm ignore_affinity) others >>= choose vm

unfoldable pub schedule : VirtualMachine → Bool → M Node
schedule vm ignore_affinity =
    ask Event.list_nodes Error.kube (λ env h. env.kube.nodes h) >>= λ nodes.
    schedule_among vm ignore_affinity (remove_nodes_in_maintenance nodes) vm.spec.node
