-- ===== src/Install/Migrations.antt =====
-- src/crd/utils.rs, and run_migrations of src/crd/virtualmachine.rs: machines of version v1beta2 get
-- the interfaces of their spec into their status, and the version is removed.
pub mod Moved
pub mod Complete
pub mod Removed
use cluster_controller.Prelude.{
  String, not, Option, none, some, List, [], ◌∷◌, ◌==◌, retain, get_or, if◌then◌else◌,
}
use cluster_controller.Errors.{Outcome, Error, expect}
use cluster_controller.Crd.{VirtualMachineV1beta2}
use cluster_controller.Workloads.{CrdVersion, Definition}
use cluster_controller.World.{Event, M, ◌>>=◌, ◌>>◌, lift, ask, pure, for_each}
use cluster_controller.Install.Readiness.{get_namespace_names}

abbrev pub manager : String
manager = "cluster-manager.libvirt"

abbrev pub get_definition : String → M Definition
get_definition crd_name =
    ask (Event.get_definition crd_name) Error.kube (λ env h. env.kube.definition h crd_name)

abbrev pub write : Event → M (Unit {0})
write event = ask event Error.kube (λ env h. env.kube.write h)

abbrev pub without_stored : String → List String → List String
without_stored crd_version stored_versions = retain (λ v. not (v == crd_version)) stored_versions

-- The definition without a version in its spec.
abbrev pub without_version : String → Definition → Definition
without_version crd_version crd = record crd {
  versions = retain (λ (v : CrdVersion). not (v.name == crd_version)) crd.versions;
}

unfoldable pub remove_crd_version : String → String → M (Unit {0})
remove_crd_version crd_name crd_version = get_definition crd_name >>= λ crd.
    lift (expect crd.status) >>= λ status.
    lift (expect status.stored_versions) >>= λ stored_versions.
    write
      (Event.patch_stored_versions crd_name (without_stored crd_version stored_versions) manager)
    >> (get_definition crd_name >>= λ again.
        write (Event.replace_definition (without_version crd_version again)))

abbrev pub vm_crd_name : String
vm_crd_name = "virtualmachines.cluster-virt.acl.fi"

abbrev pub migrate_vm : String → VirtualMachineV1beta2 → M (Unit {0})
migrate_vm namespace vm = lift (expect vm.metadata.name) >>= λ name.
    write (Event.patch_vm_networks namespace name vm.spec.networks manager)

unfoldable pub migrate_namespace : String → M (Unit {0})
migrate_namespace namespace =
    ask (Event.list_vms_v1beta2 namespace) Error.kube (λ env h. env.kube.vms_v1beta2 h namespace)
    >>= λ vms. for_each (migrate_vm namespace) vms

-- One pass of the loop over the stored versions.
unfoldable pub migrate_version : String → M (Unit {0})
migrate_version version =
    if version == "v1beta2"
    then get_namespace_names
      >>= (λ namespaces. for_each migrate_namespace namespaces)
      >> remove_crd_version vm_crd_name version
    else pure tt

unfoldable pub run_migrations : M (Unit {0})
run_migrations = get_definition vm_crd_name >>= λ vm_crd. lift (expect vm_crd.status) >>= λ status.
    for_each migrate_version (get_or status.stored_versions [])
