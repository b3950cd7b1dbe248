-- ===== src/Vm/Annotations.antt =====
-- src/utils/traits/virtualmachine.rs: the migration request, an annotation that names the node to
-- leave.
use cluster_controller.Prelude.{String, Option, some, List, [], get_or, insert, remove}
use cluster_controller.Errors.{expect}
use cluster_controller.Crd.{VirtualMachine, Node}
use cluster_controller.World.{M, ◌>>=◌, lift}
use cluster_controller.Node.{annotation, migration_request_annotation}
use cluster_controller.Kube.{vm_resource, network_resource, router_resource, commit}

unfoldable pub migration_requested_from : VirtualMachine → Option String
migration_requested_from vm = annotation migration_request_annotation vm.metadata

abbrev pub with_annotations : VirtualMachine → List (String × String) → VirtualMachine
with_annotations vm annotations = record vm {
  metadata = record vm.metadata { annotations = some annotations };
}

-- The machine with the request to leave a node, as it is written.
abbrev pub with_migration_request : VirtualMachine → String → VirtualMachine
with_migration_request vm source =
    with_annotations vm
      (insert migration_request_annotation source (get_or vm.metadata.annotations []))

abbrev pub without_migration_request : VirtualMachine → VirtualMachine
without_migration_request vm =
    with_annotations vm (remove migration_request_annotation (get_or vm.metadata.annotations []))

unfoldable pub request_migration_away_from : VirtualMachine → Node → String → M (Unit {0})
request_migration_away_from vm source_node field_manager =
    lift (expect source_node.metadata.name) >>= λ source.
    commit (with_migration_request vm source) field_manager

unfoldable pub clear_migration_request : VirtualMachine → String → M (Unit {0})
clear_migration_request vm field_manager = commit (without_migration_request vm) field_manager
