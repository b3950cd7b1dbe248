-- ===== src/Install/Definitions.antt =====
-- The `create` functions of src/crd: each applies the definition of a resource and waits for it. The
-- definitions that are derived from the types are given by the environment.
pub mod Latest
use cluster_controller.Prelude.{
  String, Bool, true, false, ◌&&◌, none, List, [], ◌∷◌, ◌==◌, map, if◌then◌else◌,
}
use cluster_controller.Errors.{Error, KubeError}
use cluster_controller.Workloads.{CrdVersion, Definition, of_definition}
use cluster_controller.World.{
  Event, M, ◌>>=◌, ◌>>◌, lift, observe, pure, read, Reply, done, failed, to_outcome,
}
use cluster_controller.Install.Readiness.{wait_crd_ready}
use cluster_controller.Install.Migrations.{write, run_migrations, vm_crd_name}
use cluster_controller.Install.Migrations

-- `crds.patch(name, &PatchParams::apply(manager).force(), &Patch::Apply(&crd))`
abbrev pub apply_definition : String → String → Definition → M (Unit {0})
apply_definition name manager crd = write (Event.apply none name manager true (of_definition crd))

-- `crd()` of the resource with this name, in the module of this version, is applied.
abbrev pub apply_version : String → String → String → M (Unit {0})
apply_version name manager version =
    read (λ env. env.libraries.crd name version) >>= λ crd. apply_definition name manager crd

abbrev pub install : String → String → String → M (Unit {0})
install name manager version = apply_version name manager version >> wait_crd_ready name

unfoldable pub create_cluster : M (Unit {0})
create_cluster = install "clusters.cluster-virt.acl.fi" "virt-controller" "v1beta"

unfoldable pub create_ceph : M (Unit {0})
create_ceph =
    install "volumes.cluster-virt.acl.fi" "cluster-manager.ceph" "v1beta"
    >> install "images.cluster-virt.acl.fi" "cluster-manager.ceph" "v1beta"

unfoldable pub create_network : M (Unit {0})
create_network = install "networks.cluster-virt.acl.fi" "cluster-manager.ceph" "v1beta"

unfoldable pub create_router : M (Unit {0})
create_router = install "routers.cluster-virt.acl.fi" "cluster-manager.ceph" "v1beta"

abbrev pub texts_eq : List String → List String → Bool
texts_eq [] [] = true
texts_eq [] (t ∷ ts) = false
texts_eq (s ∷ ss) [] = false
texts_eq (s ∷ ss) (t ∷ ts) = s == t && texts_eq ss ts

-- `merge_crds` of all versions, its application, the migrations, and the latest version alone.
abbrev pub upgrade : String → List Definition → String → M (Unit {0}) → M (Unit {0})
upgrade name crd_versions latest migrations =
    read (λ env. env.libraries.merge_crds crd_versions latest) >>= λ merged.
    lift (to_outcome Error.crd_merge merged) >>= λ crd.
    apply_definition name Migrations.manager crd
    >> (wait_crd_ready name >> (migrations >> apply_version name Migrations.manager latest))

-- `create` of a resource with migrations, from the answer for its definition.
abbrev pub create_or_upgrade :
    String → List Definition → String → M (Unit {0}) → Reply KubeError Definition → M (Unit {0})
create_or_upgrade name crd_versions latest migrations (failed e) =
    upgrade name crd_versions latest migrations
create_or_upgrade name crd_versions latest migrations (done crd) =
    if texts_eq (map (λ (v : CrdVersion). v.name) crd.versions) (latest ∷ [])
    then apply_version name Migrations.manager latest
    else upgrade name crd_versions latest migrations

unfoldable pub create_virtualmachine : M (Unit {0})
create_virtualmachine =
    observe (Event.get_definition vm_crd_name) (λ env h. env.kube.definition h vm_crd_name)
    >>= λ found. read (λ env. env.libraries.crd vm_crd_name "v1beta2") >>= λ v1beta2.
        read (λ env. env.libraries.crd vm_crd_name "v1beta3") >>= λ v1beta3.
        create_or_upgrade vm_crd_name (v1beta2 ∷ v1beta3 ∷ []) "v1beta3" run_migrations found

abbrev pub libvirtnode_crd_name : String
libvirtnode_crd_name = "libvirtnodes.cluster-virt.acl.fi"

-- There is nothing to migrate.
unfoldable pub create_libvirtnode : M (Unit {0})
create_libvirtnode =
    observe (Event.get_definition libvirtnode_crd_name)
      (λ env h. env.kube.definition h libvirtnode_crd_name)
    >>= λ found. read (λ env. env.libraries.crd libvirtnode_crd_name "v1beta1") >>= λ v1beta1.
        create_or_upgrade libvirtnode_crd_name (v1beta1 ∷ []) "v1beta1" (pure tt) found
