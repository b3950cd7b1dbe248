-- ===== src/World/Environment.antt =====
-- The answers of the environment. Each takes the history with the call that it answers in front.
use cluster_controller.Prelude.{ℕ, String, Bool, List, Option}
use cluster_controller.Errors.{KubeError, ℤ}
use cluster_controller.Crd.{
  Node, VirtualMachine, VirtualMachineV1beta2, Network, Cluster, LibvirtNode, ObjectMeta,
}
use cluster_controller.Json.{Value}
use cluster_controller.Workloads.{Definition, RunningDeployment, WatchEvent}
use cluster_controller.Templates.{DomainTemplate, SecretTemplate}
use cluster_controller.World.Events.{Event, Message}

pub data Reply (E A : Type 0) : Type 0 where
  done : A → Reply E A
  failed : E → Reply E A

abbrev pub History : Type 0
History = List Event

pub record CommandOutput : Type 0 where
  pub success : Bool
  pub stderr : String

-- The API server, through the kube crate.
pub record Kube : Type 0 where
  pub nodes : History → Reply KubeError (List Node)
  pub vms : History → Option (String × String) → Reply KubeError (List VirtualMachine)
  pub network : History → String → String → Reply KubeError Network
  pub cluster : History → String → Reply KubeError Cluster
  -- the `data` of a ConfigMap
  pub config_map : History → String → String → Reply KubeError (Option (List (String × String)))
  -- the `data` of a Secret
  pub secret : History → String → String → Reply KubeError (Option (List (String × List ℕ)))
  pub deployment : History → String → String → Reply KubeError RunningDeployment
  pub definition : History → String → Reply KubeError Definition
  -- the stream of a watch, until it ends
  pub watch : History → String → Reply KubeError (List (Reply KubeError WatchEvent))
  pub namespaces : History → Reply KubeError (List ObjectMeta)
  pub vms_v1beta2 : History → String → Reply KubeError (List VirtualMachineV1beta2)
  pub libvirt_node : History → String → Reply KubeError (Option LibvirtNode)
  pub write : History → Reply KubeError (Unit {0})

-- TCP, and what the database's connection delivers until it ends or sends what is no message.
pub record Peers : Type 0 where
  pub tcp_connect : History → String → ℕ → Reply String (Unit {0})
  pub messages : History → List Message

-- The libvirt connection: errors are carried as their text.
pub record Hypervisor : Type 0 where
  pub domains : History → Reply String (List String)
  pub domain_call : History → Reply String (Unit {0})
  pub is_active : History → Reply String Bool
  pub capabilities : History → Reply String String

-- librados and librbd: return code, the handle or number written back, the bytes written back.
pub record Storage : Type 0 where
  pub code : History → ℤ
  pub handle : History → ℕ
  pub bytes : History → List ℕ
  -- the lengths that `rbd_list_lockers` reports: clients, cookies, addresses
  pub lockers : History → ℕ × ℕ × ℕ

-- Pure functions of other crates.
pub record Libraries : Type 0 where
  -- the last three bytes of the SHA-256 digest of some texts and then some bytes
  pub sha256_tail : List String → List ℕ → ℕ × ℕ × ℕ
  -- the host addresses of a parsed CIDR network, in order; `failed` where it does not parse
  pub hosts : String → Reply String (List String)
  -- `str::from_utf8`, `none` where the bytes are not UTF-8
  pub from_utf8 : List ℕ → Option String
  -- `Bytes<u64>::from_str` of humanize-rs
  pub parse_bytes : String → Reply String ℕ
  -- the groups of the regular expression `(\d+)\s*([a-zA-Z]+)` at its first match, the first one
  -- as a `usize`, `none` where it does not fit
  pub parse_memory : String → Option (Option ℕ × String)
  -- `DomainTemplate::render` of askama
  pub render : DomainTemplate → Reply String String
  pub render_secret : SecretTemplate → Reply String String
  -- `serde_json::from_value` to an object of the Kubernetes API that is represented by the value
  pub from_value : Value → Reply String (Unit {0})
  -- the SHA-256 digest of some texts, in hexadecimal digits
  pub sha256_hex : List String → String
  -- `VirtualMachine::crd()` and so on, by the resource's name and the version of its module
  pub crd : String → String → Definition
  -- `merge_crds`
  pub merge_crds : List Definition → String → Reply String Definition

pub record Env : Type 0 where
  pub kube : Kube
  pub net : Peers
  pub hypervisor : Hypervisor
  pub storage : Storage
  pub libraries : Libraries
  -- $NODE_NAME
  pub node_name : Option String
  pub random : History → ℕ
  pub uuid : History → String
  pub run_command : History → Reply String CommandOutput
  -- files, namespaces and channels of this process
  pub system : History → Reply String (Unit {0})
