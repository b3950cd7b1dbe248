-- ===== src/Services/NodeAgent.antt =====
-- src/cluster/controllers/ovn_services/ovn_controller.rs: OVN's controller on each managed node.
use cluster_controller.Prelude.{String, true, some, [], ◌∷◌}
use cluster_controller.Crd.{no_meta}
use cluster_controller.Workloads.{host_path, empty_dir, Container, DaemonSet}
use cluster_controller.World.{M}
use cluster_controller.Cluster.{namespace}
use cluster_controller.Node.{ovn_controller_management_label}
use cluster_controller.Services.Central.{image, run_directories, requested, apply_daemon_set}

abbrev pub ovn_controller_name : String
ovn_controller_name = "ovn-controller"

abbrev pub controller_container : String → Container
controller_container image = record {
  name = ovn_controller_name;
  image = some image;
  command = some ("ovn-controller" ∷ []);
  args = some (
      "unix:/var/run/openvswitch/db.sock" ∷ "-vfile:info" ∷ "--no-chdir" ∷ "--log-file=/dev/stdout"
      ∷ "--pidfile=/var/run/ovn/ovn-controller.pid" ∷ "--monitor" ∷ []);
  env = some run_directories;
  requests = some requested;
  volume_mounts = some (
      (record { name = "ovs-run"; mount_path = "/var/run/openvswitch" })
      ∷ (record { name = "ovn-run"; mount_path = "/var/run/ovn" })
      ∷ []);
  privileged = some true;
}

unfoldable pub controller_daemon_set : String → DaemonSet
controller_daemon_set image =
    let labels = ("app", ovn_controller_name) ∷ [] in
    record {
      metadata = record no_meta {
        name = some ovn_controller_name;
        namespace = some namespace;
        labels = some labels;
      };
      match_labels = some labels;
      template = record {
        labels = some labels;
        pod = record {
          containers = controller_container image ∷ [];
          node_selector = some ((ovn_controller_management_label, "managed") ∷ []);
          volumes = some (
              (record {
                name = "ovs-run";
                source = host_path "/var/run/openvswitch" (some "Directory");
              })
              ∷ (record { name = "ovn-run"; source = empty_dir })
              ∷ []);
          host_network = some true;
          dns_policy = some "ClusterFirstWithHostNet";
        };
      };
      update_strategy = some "RollingUpdate";
    }

-- `create`, before its idle loop, which never ends.
unfoldable pub create_controller : M (Unit {0})
create_controller = apply_daemon_set ovn_controller_name (controller_daemon_set image)
