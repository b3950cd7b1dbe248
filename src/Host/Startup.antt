-- ===== src/Host/Startup.antt =====
-- src/host/libvirt/libvirtnode.rs, and `create` of src/host/libvirt/controller.rs: what the host
-- controller does before it watches machines.
use cluster_controller.Prelude.{String, Option, none, some}
use cluster_controller.Errors.{Error, expect, libvirt}
use cluster_controller.Crd.{no_meta, LibvirtNode, LibvirtNodeStatus}
use cluster_controller.World.{Event, M, ◌>>=◌, ◌>>◌, lift, ask, read, of_libvirt_node}
use cluster_controller.Host.Secrets.{hypervisor_call, ensure_ceph_secret}

-- `create_set_status_cluster_scoped!`: a missing name is a panic.
unfoldable pub set_libvirtnode_status : LibvirtNode → LibvirtNodeStatus → M (Unit {0})
set_libvirtnode_status node status = lift (expect node.metadata.name) >>= λ name.
    ask (Event.replace_status (of_libvirt_node (record node { status = some status }))) Error.kube
      (λ env h. env.kube.write h)

abbrev pub new_node : String → String → LibvirtNode
new_node node_name capabilities = record {
  metadata = record no_meta { name = some node_name };
  status = some (record { capabilities = capabilities });
}

-- The status of the node that is there, or the node with its status. The capabilities are the only
-- field of the status.
abbrev pub record_capabilities : String → String → Option LibvirtNode → M (Unit {0})
record_capabilities node_name capabilities (some libvirt_node) =
    set_libvirtnode_status libvirt_node (record { capabilities = capabilities })
record_capabilities node_name capabilities none =
    ask (Event.create_libvirt_node (new_node node_name capabilities)) Error.kube
      (λ env h. env.kube.write h)

unfoldable pub update : M (Unit {0})
update =
    ask Event.get_capabilities libvirt (λ env h. env.hypervisor.capabilities h) >>= λ capabilities.
    read (λ env. env.node_name) >>= λ found. lift (expect found) >>= λ node_name.
    ask (Event.get_libvirt_node node_name) Error.kube (λ env h. env.kube.libvirt_node h node_name)
    >>= λ node. record_capabilities node_name capabilities node

abbrev pub libvirt_uri : String
libvirt_uri = "qemu:///system"

-- `create`, before the controller runs.
unfoldable pub prepare_host : M (Unit {0})
prepare_host =
    hypervisor_call (Event.connect_hypervisor libvirt_uri) >> (update >> ensure_ceph_secret)
