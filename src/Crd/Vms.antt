-- ===== src/Crd/Vms.antt =====
-- src/crd/virtualmachine.rs: the virtual machine and its attachments. Integers are bounded by
-- their types (u8 queues, u16 VLANs), which the API server checks when it decodes an object.
use cluster_controller.Prelude.{ℕ, String, Bool, Option, none, List, get_or}
use cluster_controller.Crd.Meta.{ObjectMeta}

pub record VolumeAttachment : Type 0 where
  pub name : String

pub record NetworkAttachment : Type 0 where
  pub name : Option String
  pub bridge : Option String
  pub mac_address : Option String
  pub queues : Option ℕ
  pub ovn_id : Option String
  pub untagged_vlan : Option ℕ
  pub tagged_vlans : Option (List ℕ)

-- `NetworkAttachment::default()`
abbrev pub default_attachment : NetworkAttachment
default_attachment = record {
  name = none;
  bridge = none;
  mac_address = none;
  queues = none;
  ovn_id = none;
  untagged_vlan = none;
  tagged_vlans = none;
}

pub data PowerAction : Type 0 where
  power_on shutdown power_off manual : PowerAction

pub record VirtualMachineSpec : Type 0 where
  pub cpus : ℕ
  pub cpu_model : Option String
  pub memory : String
  pub volumes : List VolumeAttachment
  pub networks : List NetworkAttachment
  pub uuid : Option String
  pub userdata : Option String
  pub compatibility_mode : Option Bool
  pub node : Option String
  pub power_action : Option PowerAction
  pub machine_type : Option String

abbrev pub get_power_action : VirtualMachineSpec → PowerAction
get_power_action spec = get_or spec.power_action power_on

pub record VirtualMachineStatus : Type 0 where
  pub scheduled : Bool
  pub running : Bool
  pub migration_pending : Bool
  pub node : Option String
  pub domain_name : String
  pub ip_addresses : Option (List String)
  pub ip_addresses_string : Option String
  pub networks : List NetworkAttachment

pub record VirtualMachine : Type 0 where
  pub metadata : ObjectMeta
  pub spec : VirtualMachineSpec
  pub status : Option VirtualMachineStatus

-- Version v1beta2: the interfaces stand in the spec alone.
pub record VirtualMachineSpecV1beta2 : Type 0 where
  pub cpus : ℕ
  pub memory : String
  pub volumes : List VolumeAttachment
  pub networks : List NetworkAttachment
  pub uuid : Option String
  pub userdata : Option String

pub record VirtualMachineStatusV1beta2 : Type 0 where
  pub scheduled : Bool
  pub running : Bool
  pub migration_pending : Bool
  pub node : Option String
  pub domain_name : String
  pub ip_addresses : Option (List String)
  pub ip_addresses_string : Option String

pub record VirtualMachineV1beta2 : Type 0 where
  pub metadata : ObjectMeta
  pub spec : VirtualMachineSpecV1beta2
  pub status : Option VirtualMachineStatusV1beta2
