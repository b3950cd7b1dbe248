-- ===== src/Tests/Fixtures.antt =====
-- Objects and an environment for the examples.
use cluster_controller.Prelude.{
  String, Bool, true, false, Option, none, some, List, [], ◌∷◌, nat_eq, if◌then◌else◌,
}
use cluster_controller.Errors.{api, pos}
use cluster_controller.Ovn.Lowlevel.{select_operation}
use cluster_controller.Ovn.Lowlevel.Transactions.{after_transact}
use cluster_controller.Json.{Value, null, str, array, object}
use cluster_controller.Crd.{
  ObjectMeta, no_meta, Node, VirtualMachine, VirtualMachineV1beta2, VirtualMachineSpec,
  VirtualMachineStatus, NetworkAttachment, default_attachment, Network, Router, Cluster,
}
use cluster_controller.Workloads.{Definition}
use cluster_controller.World.{
  Ovn, Message, request, response, Event, Env, World, done, failed, History,
}

abbrev pub named : String → ObjectMeta
named name = record no_meta { name = some name; namespace = some "ns" }

abbrev pub node_a : Node
node_a = record { metadata = named "a"; status = none }

abbrev pub node_b : Node
node_b = record { metadata = named "b"; status = none }

abbrev pub nic : NetworkAttachment
nic = record default_attachment {
  bridge = some "br0";
  mac_address = some "52:54:00:1:2:3";
  untagged_vlan = some 5;
}

abbrev pub status_on : Option String → Bool → VirtualMachineStatus
status_on node scheduled = record {
  scheduled = scheduled;
  running = false;
  migration_pending = false;
  node = node;
  domain_name = "ns-vm";
  ip_addresses = none;
  ip_addresses_string = none;
  networks = nic ∷ [];
}

abbrev pub spec : VirtualMachineSpec
spec = record {
  cpus = 1;
  cpu_model = none;
  memory = "1 GiB";
  volumes = (record { name = "disk" }) ∷ [];
  networks = nic ∷ [];
  uuid = some "id";
  userdata = none;
  compatibility_mode = none;
  node = none;
  power_action = none;
  machine_type = none;
}

abbrev pub machine : Option VirtualMachineStatus → VirtualMachine
machine status = record { metadata = named "vm"; spec = spec; status = status }

abbrev pub on_a : VirtualMachine
on_a = machine (some (status_on (some "a") true))

abbrev pub unplaced : VirtualMachine
unplaced = machine (some (status_on none false))

abbrev pub fresh : VirtualMachine
fresh = machine none

abbrev pub network : Network
network = record {
  metadata = named "gone";
  spec = record {
    dhcp = none;
    routers = none;
    network_type = none;
    network_id = none;
    bridge = none;
  };
  status = none;
}

abbrev pub router : Router
router = record {
  metadata = named "gone";
  spec = record { routes = none; metadata_service = none };
  status = none;
}

abbrev pub cluster : Cluster
cluster = record {
  metadata = named "default";
  spec = record { machine_type = "q35"; cpu = "<cpu/>" };
}

-- A row that every table's deserialization accepts.
abbrev pub row : Value
row = object (
    ("_uuid", array (str "uuid" ∷ str "u1" ∷ []))
    ∷ ("name", str "ns-net")
    ∷ ("ports", array (str "uuid" ∷ str "u1" ∷ []))
    ∷ ("other_config", array (str "map" ∷ array [] ∷ []))
    ∷ ("static_routes", array (str "set" ∷ array [] ∷ []))
    ∷ ("addresses", str "02:aa")
    ∷ ("ip_prefix", str "10.0.0.0/8")
    ∷ ("nexthop", str "10.0.0.1")
    ∷ [])

-- The database answers each request with that row.
abbrev pub answer : History → List Message
answer (Event.send o (request id method params) ∷ log) =
    response id (array (object (("rows", array (row ∷ [])) ∷ []) ∷ [])) null ∷ []
answer _ = []

-- A machine of version v1beta2.
abbrev old_machine : VirtualMachineV1beta2
old_machine = record {
  metadata = named "vm";
  spec = record {
    cpus = 1;
    memory = "1 GiB";
    volumes = [];
    networks = nic ∷ [];
    uuid = none;
    userdata = none;
  };
  status = none;
}

-- A resource of two versions, one of them stored.
abbrev pub definition : String → Definition
definition name = record {
  name = name;
  versions =
      (record { name = "v1beta2"; body = null }) ∷ (record { name = "v1beta3"; body = null }) ∷ [];
  status = some (record { stored_versions = some ("v1beta2" ∷ []); conditions = none });
}

abbrev pub quiet : Env
quiet = record {
  kube = record {
    nodes = λ h. done (node_a ∷ node_b ∷ []);
    vms = λ h selector. done (on_a ∷ fresh ∷ on_a ∷ []);
    network = λ h namespace name. failed (api 404);
    cluster = λ h name. done cluster;
    config_map = λ h namespace name. failed (api 404);
    secret = λ h namespace name. done (some (("key", 1 ∷ []) ∷ []));
    deployment = λ h namespace name. done (record { images = some (some (some "image" ∷ [])) });
    definition = λ h name. done (definition name);
    watch = λ h name. done [];
    namespaces = λ h. done (named "ns" ∷ []);
    vms_v1beta2 = λ h namespace. done (old_machine ∷ []);
    libvirt_node = λ h name. done none;
    write = λ h. done tt;
  };
  net = record { tcp_connect = λ h host port. done tt; messages = answer };
  hypervisor = record {
    domains = λ h. done [];
    domain_call = λ h. done tt;
    is_active = λ h. done true;
    capabilities = λ h. done "<capabilities/>";
  };
  storage = record {
    code = λ h. pos 0;
    handle = λ h. 7;
    bytes = λ h. 0 ∷ [];
    lockers = λ h. (0, 0, 0);
  };
  libraries = record {
    sha256_tail = λ texts bytes. (1, 2, 3);
    hosts = λ cidr. done ("10.0.0.1" ∷ []);
    from_utf8 = λ bytes. some "a";
    parse_bytes = λ text. done 1;
    parse_memory = λ text. some (some 1, "GiB");
    render = λ template. done "<domain/>";
    render_secret = λ template. done "<secret/>";
    from_value = λ value. done tt;
    sha256_hex = λ texts. "0123456789abcdef0123456789abcdef0123456789abcdef0123456789abcdef";
    crd = λ name version. record (definition name) {
      versions = (record { name = version; body = null }) ∷ [];
    };
    merge_crds = λ crds version. done (definition "merged");
  };
  node_name = some "b";
  random = λ h. 0;
  uuid = λ h. "id";
  run_command = λ command. done (record { success = true; stderr = "" });
  system = λ h. done tt;
}

-- No nodes are left.
abbrev pub no_nodes : Env
no_nodes = record quiet { kube = record quiet.kube { nodes = λ h. done [] } }

abbrev pub start : World
start = record { log = []; ids = λ c. 0; connections = 0 }

abbrev pub o : Ovn
o = record { connection = 0 }

-- A node with OVN's central services.
abbrev pub central : Node
central = record node_a {
  metadata = record node_a.metadata {
    labels = some (("cluster-virt.acl.fi/ovn-central-installation", "managed") ∷ []);
    annotations = some (("cluster-virt.acl.fi/ovn-central-ip", "10.0.0.9") ∷ []);
  };
}

-- The world after a table has been listed.
abbrev pub listed : String → World → World
listed table w = after_transact o (select_operation table ∷ []) w

-- The world after the connection to the central node.
abbrev pub reached : World
reached = record {
  log = Event.tcp_connect "10.0.0.9" 6641 ∷ Event.list_nodes ∷ [];
  ids = λ c. if nat_eq c 0 then 0 else 0;
  connections = 1;
}
