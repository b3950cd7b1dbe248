-- ===== src/Lib.antt =====
-- A model of the cluster controller: the program that keeps virtual machines, networks, routers
-- and volumes of a Kubernetes cluster as the API server describes them, with OVN for networks,
-- Ceph for volumes and libvirt on each host.
--
-- Parts, and where they are modelled:
--
--   Errors, Json, Crd     src/errors.rs, serde_json values, src/crd: the data
--   World                 everything outside the process: events, the environment's answers, and
--                         computations (M) that read the answers, add events, return, fail or panic;
--                         its Monad modules carry facts about histories through sequences: which
--                         events are added (Trace, and Performance with how they went), that
--                         nothing is lost (Growth), that only events of a kind are added (Adding),
--                         the use of the scheduler's mutex (Locking)
--   Node                  src/utils/traits/node.rs: labels and annotations of nodes
--   Kube                  src/utils/traits/kube.rs, src/utils/shortcuts.rs: commit, finalizers, status
--   Controller            src/utils/resource_controller.rs: update or remove, and what comes next
--   Ovn                   src/interfaces/ovn: the JSON-RPC connection (Jsonrpc), transactions
--                         (Lowlevel), lookup by name (Common), deserialization, and the switches,
--                         ports, routers, routes and DHCP options
--   Networks              src/cluster/controllers/{network,router}.rs, virtualmachine/ovn.rs: the
--                         switch of a network, the router, and the ports of a machine's interfaces
--   Vm                    src/cluster/controllers/virtualmachine, node.rs: interfaces, scheduling,
--                         one reconciliation, maintenance of a node
--   Ceph                  src/shared/ceph, src/cluster/controllers/{volumes,images}.rs,
--                         src/utils/libvirt_storage.rs
--   Host, Templates       src/host/libvirt: which handler an update is for, the handlers, the domain
--                         that is made of a machine, the VLANs of the bridge, and what is done once
--                         at start: the secret of Ceph (Secrets), the host's capabilities (Startup)
--   Metadata              src/metadataservice: the deployment of a router's metadata service, the
--                         network namespace that it enters, its backend, which finds the machine of
--                         an address, and its proxy, which serves what the backend answers
--   Install               src/crd, src/utils/mod.rs: applying the definitions of the custom resources,
--                         waiting for them, and the migration of machines between versions
--   Services, Workloads   src/cluster/controllers/ovn_services, src/host/daemonset.rs: the daemon
--                         sets, and the Kubernetes objects that they and the others consist of
--   Cluster, Start        src/cluster/mod.rs, src/cluster/controllers/mod.rs, src/main.rs: the mode by
--                         the command line, and what cluster mode sets up before its tasks
--   Tests                 the theorems at concrete inputs
--
-- How the parts interact. The controllers (Vm, Networks, Ceph, Host) are called by Controller; they
-- write objects by Kube and rows by Ovn. The router controller deploys the metadata service, which
-- finds its router in the command line that the deployment gives it and its machine by the port that
-- the machine's controller made. Start installs the definitions and the host's daemon set.
--
-- How code and model correspond. A function of the source is a definition of the same name; a
-- piece of a long function that is a definition of its own says which one it is part of. Handlers
-- called update_fn and remove_fn in several files are update_network, update_router, update_node,
-- update_image and so on here. An async function and a function with `?` are computations of type
-- M; `unwrap`, `expect` and `assert` are panics. An object that a method changes is returned.
-- An answer of the API server, of OVN, of Ceph, of libvirt or of a command is any function of the
-- history, so that nothing is assumed of what others do meanwhile. Functions of other crates
-- (digest, CIDR networks, sizes, the regular expression for memory, templates, the decoding of JSON to
-- an object of Kubernetes, the derived definitions) are fields of World's Libraries; an object that is
-- decoded from JSON is that JSON value.
--
-- Integers are natural numbers with their wrap-around written out: the request id is a u64, a VLAN
-- a u16, the index of a drive and of a digest a u8,
-- and so is the counter that names the inserted routes; the release build wraps. There is no fuel but
-- that of decimal texts, 20 digits, which any 64-bit number fits. The loop that waits for a
-- response runs over the list of messages that the connection delivers.
--
-- Not modelled: logging and tracing, the two threads of the metadata service and the HTTP server
-- below its routes, the idle loops after a daemon set has been applied, what the derive macros of the
-- resources generate, the XML text of a domain, the memory of C strings, the tasks of cluster mode
-- (they run under tokio, each a controller of its own). Two reconciliations of one process do not
-- interleave; the lock of the scheduler is an event. What a command writes is text; bytes that are no
-- UTF-8 are not modelled there.
pub mod Prelude
pub mod Errors
pub mod Json
pub mod Crd
pub mod Templates
pub mod World
pub mod Node
pub mod Ovn
pub mod Kube
pub mod Controller
pub mod Vm
pub mod Ceph
pub mod Networks
pub mod Host
pub mod Tests
pub mod Workloads
pub mod Cluster
pub mod Metadata
pub mod Install
pub mod Services
pub mod Start
