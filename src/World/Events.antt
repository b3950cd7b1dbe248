-- ===== src/World/Events.antt =====
-- The calls that leave the process.
use cluster_controller.Prelude.{ℕ, String, Bool, List, Option}
use cluster_controller.Errors.{Outcome}
use cluster_controller.Json.{Value}
use cluster_controller.Crd.{
  VirtualMachine, Network, Router, Volume, Image, LibvirtNode, NetworkAttachment,
}
use cluster_controller.Workloads.{Definition, Manifest}

-- A connection to the OVN northbound database (`Arc<Ovn>`), by its number.
pub record Ovn : Type 0 where
  pub connection : ℕ

-- src/interfaces/ovn/jsonrpc.rs
pub data Params : Type 0 where
  by_position : List Value → Params
  by_name : List (String × Value) → Params

pub data Message : Type 0 where
  request : Value → String → Params → Message
  -- id, result, error
  response : Value → Value → Value → Message

-- An object as it is written to the API server.
pub data Object : Type 0 where
  of_vm : VirtualMachine → Object
  of_network : Network → Object
  of_router : Router → Object
  of_volume : Volume → Object
  of_image : Image → Object
  of_libvirt_node : LibvirtNode → Object

-- src/metadataservice/protocol.rs
pub record MetadataPayload : Type 0 where
  pub ip : String
  pub instance_id : String
  pub hostname : String
  pub user_data : String

-- The calls into librados and librbd, with the handles that they take.
pub data CephCall : Type 0 where
  create : String → CephCall
  conf_read_file : ℕ → String → CephCall
  conf_set : ℕ → String → String → CephCall
  connect : ℕ → CephCall
  shutdown : ℕ → CephCall
  ioctx_create : ℕ → String → CephCall
  ioctx_destroy : ℕ → CephCall
  pool_list : ℕ → ℕ → CephCall
  list : ℕ → ℕ → CephCall
  create_image : ℕ → String → ℕ → CephCall
  open_image : ℕ → String → String → CephCall
  open_read_only : ℕ → String → CephCall
  get_features : ℕ → CephCall
  close_image : ℕ → CephCall
  clone : ℕ → String → String → ℕ → String → ℕ → CephCall
  remove : ℕ → String → CephCall
  mon_command : ℕ → Value → CephCall
  list_lockers : ℕ → CephCall

pub data Event : Type 0 where
  -- the Kubernetes API
  list_nodes : Event
  -- with the label selector, as a label and its value
  list_vms : Option (String × String) → Event
  get_network : String → String → Event
  get_cluster : String → Event
  get_config_map : String → String → Event
  get_secret : String → String → Event
  -- server-side apply of the secret with this key, with the field manager
  apply_secret : String → String → String → String → Event
  -- `replace`, with the field manager
  replace : Object → String → Event
  replace_status : Object → Event
  -- server-side apply, in a namespace or for the whole cluster, of the object with this name, with
  -- the field manager, forced or not
  apply : Option String → String → String → Bool → Manifest → Event
  get_deployment : String → String → Event
  get_definition : String → Event
  watch_definition : String → Event
  -- merge patch of `.status.storedVersions`, with the field manager
  patch_stored_versions : String → List String → String → Event
  replace_definition : Definition → Event
  list_namespaces : Event
  list_vms_v1beta2 : String → Event
  -- merge patch of a machine's `.status.networks`: namespace, name, interfaces, field manager
  patch_vm_networks : String → String → List NetworkAttachment → String → Event
  get_libvirt_node : String → Event
  create_libvirt_node : LibvirtNode → Event
  -- the OVN northbound database
  tcp_connect : String → ℕ → Event
  send : Ovn → Message → Event
  -- this process
  lock_scheduler : Event
  unlock_scheduler : Event
  random : Event
  new_uuid : Event
  -- libvirt: domains by name
  list_domains : Event
  lookup_domain : String → Event
  domain_is_active : String → Event
  destroy_domain : String → Event
  migrate_domain : String → String → Event
  -- with the XML
  create_domain : String → Event
  -- with the XML, or the UUID
  connect_hypervisor : String → Event
  get_capabilities : Event
  lookup_secret : String → Event
  define_secret : String → Event
  set_secret_value : String → List ℕ → Event
  -- the metadata service: its namespace file, its network namespace, the channel to its proxy
  open_file : String → Event
  set_namespace : String → Event
  respond : String → Outcome MetadataPayload → Event
  -- a command line
  run_command : List String → Event
  -- Ceph
  ceph : CephCall → Event
