-- ===== src/Start.antt =====
-- src/main.rs, and `run` of src/cluster/mod.rs and src/cluster/controllers/mod.rs up to the tasks
-- that it spawns: what the program is started as, and what cluster mode sets up.
pub mod Modes
use cluster_controller.Prelude.{String, false, some, List, contains, if◌then◌else◌}
use cluster_controller.Errors.{Error}
use cluster_controller.Workloads.{of_json}
use cluster_controller.World.{Event, M, ◌>>=◌, ◌>>◌, ask}
use cluster_controller.Cluster.{namespace, get_running_image}
use cluster_controller.Services.HostAgent.{host_daemon_set, host_controller_name}
use cluster_controller.Install.Definitions.{
  create_cluster, create_ceph, create_network, create_router, create_virtualmachine,
  create_libvirtnode,
}

pub data Mode : Type 0 where
  print_version host_mode metadata_mode cluster_mode : Mode

-- The tests of `main` on the command line.
unfoldable pub mode_of : List String → Mode
mode_of args =
    if contains args "--version"
    then print_version
    else if contains args "--host"
    then host_mode
    else if contains args "--metadata-service"
    then metadata_mode
    else cluster_mode

-- `controllers::run`, before its tasks.
unfoldable pub create_definitions : M (Unit {0})
create_definitions =
    create_libvirtnode
    >> (create_virtualmachine >> (create_ceph >> (create_network >> create_router)))

-- `cluster::run`, up to the tasks of `controllers::run`.
unfoldable pub prepare_cluster : M (Unit {0})
prepare_cluster =
    create_cluster
    >> (get_running_image >>= λ image. host_daemon_set image >>= λ libvirt_ds.
        ask
          (Event.apply (some namespace) host_controller_name "libvirt-controller-cluster" false
            (of_json libvirt_ds))
          Error.kube (λ env h. env.kube.write h)
        >> create_definitions)
