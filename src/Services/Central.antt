-- ===== src/Services/Central.antt =====
-- src/cluster/controllers/ovn_services/ovn_central.rs: the databases and northd.
use Prim.Native.Char.{code}
use cluster_controller.Prelude.{
  ℕ, String, true, false, none, some, List, [], ◌∷◌, nat_eq, if◌then◌else◌, format, map, to_decimal,
}
use cluster_controller.Errors.{Error}
use cluster_controller.Crd.{no_meta}
use cluster_controller.Workloads.{
  EnvVar, VolumeMount, host_path, PodVolume, Container, DaemonSet, of_daemon_set,
}
use cluster_controller.World.{Event, M, ask}
use cluster_controller.Cluster.{namespace}
use cluster_controller.Node.{ovn_central_managed_label}

abbrev pub ovn_central_name : String
ovn_central_name = "ovn-central"

-- `IMAGE` of src/cluster/controllers/ovn_services/mod.rs
abbrev pub image : String
image =
    "registry.acl.fi/public/ovn:24.03.5-14.el9s-20250706-163428-72f2f5dea1c89eb50fbb787c95c9493c6955e0ec"

abbrev pub variable : String → String → EnvVar
variable name value = record { name = name; value = some value }

-- The environment of every container of OVN.
abbrev pub run_directories : List EnvVar
run_directories =
    variable "OVN_RUNDIR" "/var/run/ovn" ∷ variable "OVS_RUNDIR" "/var/run/openvswitch" ∷ []

abbrev pub requested : List (String × String)
requested = ("ephemeral-storage", "128Mi") ∷ []

unfoldable pub container_base : String → Container
container_base image = record {
  name = "";
  image = some image;
  command = some ("bash" ∷ []);
  args = none;
  env = some run_directories;
  requests = some requested;
  volume_mounts = none;
  privileged = some true;
}

-- The end of a line that the source continues with a backslash: the line break and the blanks that
-- follow it are not in the text.
abbrev wide : String
wide = "\n                            "

abbrev local_ip_command : String
local_ip_command =
    "local_ip=\"$(ip -j address show lo | jq -r '.[0].addr_info[] | select(.scope == \"global\").local')\""

-- The script of a database server.
abbrev pub ovsdb_script : String → String → ℕ → ℕ → String
ovsdb_script db_name file_prefix client_port cluster_port = format (
    "set -euo pipefail"
    ∷ wide
    ∷ local_ip_command
    ∷ wide
    ∷ "if [[ \"$local_ip\" != 10.* ]]; then"
    ∷ wide
    ∷ "    exit 1;"
    ∷ wide
    ∷ "fi\n"
    ∷ wide
    ∷ "test -f /var/lib/ovn/"
    ∷ file_prefix
    ∷ ".db || ovsdb-tool join-cluster /var/lib/ovn/"
    ∷ file_prefix
    ∷ ".db "
    ∷ db_name
    ∷ " tcp:$local_ip:"
    ∷ to_decimal cluster_port
    ∷ " tcp:10.4.0.31:"
    ∷ to_decimal cluster_port
    ∷ " #temporary remote during migration\n"
    ∷ wide
    ∷ "ovsdb-server -vconsole:info --pidfile=/var/run/ovn/"
    ∷ file_prefix
    ∷ ".pid --unixctl=/var/run/ovn/"
    ∷ file_prefix
    ∷ ".ctl --monitor --remote=punix:/var/run/ovn/"
    ∷ file_prefix
    ∷ ".sock --remote=ptcp:"
    ∷ to_decimal client_port
    ∷ ":$local_ip /var/lib/ovn/"
    ∷ file_prefix
    ∷ ".db"
    ∷ [])

unfoldable pub ovsdb_container :
    String → String → List VolumeMount → String → String → ℕ → ℕ → Container
unfolding container_base
ovsdb_container name image volume_mounts db_name file_prefix client_port cluster_port =
    record (container_base image) {
      name = name;
      args = some ("-c" ∷ ovsdb_script db_name file_prefix client_port cluster_port ∷ []);
      volume_mounts = some volume_mounts;
    }

abbrev nbdb_addresses : String
nbdb_addresses =
    "tcp:10.4.3.1:6641,tcp:10.4.3.2:6641,tcp:10.4.3.4:6641,tcp:10.4.3.5:6641,tcp:10.4.3.6:6641"

abbrev sbdb_addresses : String
sbdb_addresses =
    "tcp:10.4.3.1:6642,tcp:10.4.3.2:6642,tcp:10.4.3.4:6642,tcp:10.4.3.5:6642,tcp:10.4.3.6:6642"

abbrev northd_script : String
northd_script = format (
    "set -euo pipefail\n                         ovn-northd -vconsole:info "
    ∷ "--pidfile=/var/run/ovn/northd.pid --ovnnb-db=" ∷ nbdb_addresses ∷ " --ovnsb-db="
    ∷ sbdb_addresses ∷ [])

unfoldable pub ovn_northd_container : String → List VolumeMount → List String → Container
unfolding container_base
ovn_northd_container image volume_mounts ip_addresses = record (container_base image) {
  name = "northd";
  args = some ("-c" ∷ northd_script ∷ []);
  volume_mounts = some volume_mounts;
}

abbrev pub host_volume_paths : List String
host_volume_paths =
    "/var/run/openvswitch" ∷ "/var/run/ovn" ∷ "/var/lib/ovn" ∷ "/etc/openvswitch" ∷ []

-- `text[1..]`
abbrev pub rest_of : String → String
rest_of String.[] = String.[]
rest_of (String.◌∷◌ c s) = s

-- `replace("/", "-")`
abbrev pub dashed : String → String
dashed String.[] = String.[]
dashed (String.◌∷◌ c s) = String.◌∷◌ (if nat_eq (code c) b'/' then "-" else c) (dashed s)

abbrev pub volume_name : String → String
volume_name path = dashed (rest_of path)

unfoldable pub host_volume : String → PodVolume
host_volume path = record {
  name = volume_name path;
  source = host_path path (some "DirectoryOrCreate");
}

unfoldable pub host_mount : String → VolumeMount
host_mount path = record { name = volume_name path; mount_path = path }

unfoldable pub central_daemon_set : String → DaemonSet
unfolding ovsdb_container ovn_northd_container
central_daemon_set image =
    let labels = ("app", ovn_central_name) ∷ [] in
    let volume_mounts = map host_mount host_volume_paths in
    record {
      metadata = record no_meta {
        name = some ovn_central_name;
        namespace = some namespace;
        labels = some labels;
      };
      match_labels = some labels;
      template = record {
        labels = some labels;
        pod = record {
          containers =
              ovsdb_container "nbdb" image volume_mounts "OVN_Northbound" "ovnnb_db" 6641 6643
              ∷ ovsdb_container "sbdb" image volume_mounts "OVN_Southbound" "ovnsb_db" 6642 6644
              ∷ ovn_northd_container image volume_mounts []
              ∷ [];
          node_selector = some ((ovn_central_managed_label, "managed") ∷ []);
          volumes = some (map host_volume host_volume_paths);
          host_network = some true;
          dns_policy = some "ClusterFirstWithHostNet";
        };
      };
      update_strategy = some "RollingUpdate";
    }

-- `patch(name, &PatchParams::apply("ovn-services"), &Patch::Apply(&ds))`
abbrev pub apply_daemon_set : String → DaemonSet → M (Unit {0})
apply_daemon_set name ds =
    ask (Event.apply (some namespace) name "ovn-services" false (of_daemon_set ds)) Error.kube
      (λ env h. env.kube.write h)

-- `create`, before its idle loop, which never ends.
unfoldable pub create_central : M (Unit {0})
create_central = apply_daemon_set ovn_central_name (central_daemon_set image)
