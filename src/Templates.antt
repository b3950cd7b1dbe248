-- ===== src/Templates.antt =====
-- src/host/libvirt/templates.rs: what the XML of a libvirt domain is made from.
use cluster_controller.Prelude.{ℕ, String, Bool, Option, List}

pub record NetworkInterfaceTemplate : Type 0 where
  pub bridge : String
  pub mac : String
  pub ovn_id : Option String
  pub model : String
  pub queues : ℕ
  pub untagged_vlan : Option ℕ
  pub tagged_vlans : Option (List ℕ)

pub data StorageSource : Type 0 where
  -- pool and image
  ceph_source : String → String → StorageSource
  -- format and location
  filesystem_source : String → String → StorageSource

pub record StorageTemplate : Type 0 where
  pub source : StorageSource
  -- the prefix, and the code point of the letter behind it
  pub device : String × ℕ
  pub bootdevice : Bool
  pub bus : String

pub record DomainTemplate : Type 0 where
  pub name : String
  pub uuid : String
  pub machine_type : String
  pub cpu : String
  pub cpus : ℕ
  pub memory : ℕ
  pub memory_unit : String
  pub network_interfaces : List NetworkInterfaceTemplate
  pub storage_devices : List StorageTemplate

pub record SecretTemplate : Type 0 where
  pub uuid : String
  pub name : String
  pub usage : String
