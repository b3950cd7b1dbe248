-- ===== src/Host/Domains.antt =====
-- src/host/libvirt/lowlevel.rs: the domain of a machine.
pub mod Volumes
pub mod Locks
pub mod Starting
use cluster_controller.Prelude.{
  ℕ, zero, suc, ◌+◌, ◌-◌, ◌*◌, ◌%◌, ◌^◌, ◌≤◌, ◌<◌, String, ◌≡◌, ◌≢◌, ◌⊎◌, inl, inr, refl, sym, ap,
  Bool, true, false, ◌&&◌, ◌||◌, not, Option, none, some, List, [], ◌∷◌, ◌++◌, map, arith, ltb, leb,
  nat_eq, ◌==◌, option_eq, if◌then◌else◌, is_some, get_or, and_then, map_option, length, get_elem?,
  head?, retain, find, any, filter_map, contains, lookup, insert, remove, format, join, split,
  has_substring, ends_with, to_decimal, Bool-cases, Option-cases, eq_iff, All, In, find-some,
  find-none, All-find-none, any-true, any-In, any-false, In-retain, retain-In, ◌↔◌, IsFree,
  split_free, split_at,
}
use cluster_controller.Errors.{
  Outcome, ok, err, panic, Error, ok_or, or_default, expect, assert, is_ok, collect, ovn_not_found,
  ovn_conflict, ovn_deserialization_failed,
}
use cluster_controller.Errors
use cluster_controller.Crd.{
  VirtualMachine, VirtualMachineStatus, VirtualMachineSpec, NetworkAttachment, VolumeAttachment,
  Cluster,
}
use cluster_controller.World.{
  Ovn, Params, by_position, by_name, Message, request, response, Event, Env, World, M, ◌>>=◌, ◌>>◌,
  lift, observe, ask, pure, fail, try, read, happen, for_each, to_outcome,
}
use cluster_controller.Templates.{
  NetworkInterfaceTemplate, StorageSource, ceph_source, filesystem_source, StorageTemplate,
  DomainTemplate,
}
use cluster_controller.Kube.{
  Resource, vm_resource, network_resource, router_resource, commit, ensure_finalizer,
  remove_finalizer, name_prefixed_with_namespace, namespace_unchecked, set_vm_status, try_status,
}
use cluster_controller.Ceph.Lowlevel.{pool_has_locks}
use cluster_controller.Ceph.Locations.{StorageType, parse_storage_location}
use cluster_controller.Ceph.Locations
use cluster_controller.Host.Machines.{expect_domain_name, parse_memory}

abbrev pub source_of : VolumeAttachment → String → StorageType × String → StorageSource
source_of volume namespace (Locations.ceph, location) =
    ceph_source "volumes" (format (namespace ∷ "-" ∷ volume.name ∷ []))
source_of volume namespace (Locations.filesystem, location) =
    filesystem_source (if ends_with location ".qcow2" then "qcow2" else "raw") location

unfoldable pub to_storage_source : VolumeAttachment → String → Outcome StorageSource
to_storage_source volume namespace =
    Errors.◌>>=◌ (parse_storage_location volume.name)
      λ parsed. ok (source_of volume namespace parsed)

-- Prefix of the storage devices, their bus, and the model of the network interfaces.
abbrev pub hardware : Bool → String × String × String
hardware true = ("sd", "sata", "e1000")
hardware false = ("vd", "virtio", "virtio")

-- One volume. The index is converted to a u8, and the letter is `b'a' + drive_index` in a u8.
abbrev pub storage_template :
    String → String → String → ℕ → VolumeAttachment → Outcome StorageTemplate
storage_template prefix bus namespace index volume = Errors.◌>>=◌ (assert (ltb index 256)) λ _.
    Errors.◌>>=◌ (to_storage_source volume namespace) λ source. ok (record {
      source = source;
      device = (prefix, (b'a' + index) % 2 ^ 8);
      bootdevice = nat_eq index 0;
      bus = bus;
    })

unfoldable pub storage_templates :
    String → String → String → ℕ → List VolumeAttachment → Outcome (List StorageTemplate)
storage_templates prefix bus namespace index [] = ok []
storage_templates prefix bus namespace index (volume ∷ rest) =
    Errors.◌>>=◌ (storage_template prefix bus namespace index volume) λ template.
      Errors.◌>>=◌ (storage_templates prefix bus namespace (suc index) rest)
        λ templates. ok (template ∷ templates)

abbrev pub bridge_of : NetworkAttachment → Outcome String
bridge_of nic = if is_some nic.ovn_id then ok "br-int" else expect nic.bridge

abbrev pub interface_template : String → NetworkAttachment → Outcome NetworkInterfaceTemplate
interface_template model nic = Errors.◌>>=◌ (bridge_of nic) λ bridge.
    Errors.◌>>=◌ (expect nic.mac_address) λ mac. ok (record {
      bridge = bridge;
      mac = mac;
      ovn_id = nic.ovn_id;
      model = model;
      queues = get_or nic.queues 1;
      untagged_vlan = nic.untagged_vlan;
      tagged_vlans = nic.tagged_vlans;
    })

-- Only volumes in Ceph are asked, and only up to the first one that is locked.
unfoldable pub volumes_locked : List StorageTemplate → M Bool
volumes_locked [] = pure false
volumes_locked (volume ∷ rest) = elim volume.source [
  | ceph_source pool image ↦
      pool_has_locks pool image >>= λ locked. if locked then pure true else volumes_locked rest
  | filesystem_source kind location ↦ volumes_locked rest
]

abbrev pub refuse_locked : Bool → Outcome (Unit {0})
refuse_locked true = err Error.volumelocked
refuse_locked false = ok tt

-- The interfaces, the memory and the names, once the volumes are free.
unfoldable pub domain_template :
    VirtualMachine → Cluster → String → List StorageTemplate → M DomainTemplate
domain_template vm cluster model volumes = lift (try_status vm) >>= λ status.
    lift (collect (interface_template model) status.networks) >>= λ nics.
    parse_memory vm.spec.memory >>= λ (amount, unit). lift (expect_domain_name vm) >>= λ name.
    lift (expect vm.spec.uuid) >>= λ uuid. pure (record {
      name = name;
      uuid = uuid;
      machine_type = get_or vm.spec.machine_type cluster.spec.machine_type;
      cpu = get_or vm.spec.cpu_model cluster.spec.cpu;
      cpus = vm.spec.cpus;
      memory = amount;
      memory_unit = unit;
      network_interfaces = nics;
      storage_devices = volumes;
    })

abbrev pub start_domain : DomainTemplate → M (Unit {0})
start_domain template =
    read (λ env. to_outcome Error.template (env.libraries.render template)) >>= λ rendered.
    lift rendered >>= λ xml.
    ask (Event.create_domain xml) Error.libvirt (λ env h. env.hypervisor.domain_call h)

unfoldable pub create_domain : VirtualMachine → Cluster → M (Unit {0})
create_domain vm cluster = lift (namespace_unchecked vm) >>= λ namespace.
    let (prefix, bus, model) = hardware (get_or vm.spec.compatibility_mode false) in
    lift (storage_templates prefix bus namespace 0 vm.spec.volumes) >>= λ volumes.
    volumes_locked volumes >>= λ locked.
    lift (refuse_locked locked) >> domain_template vm cluster model volumes >>= start_domain

unfoldable pub has_domain : String → M Bool
has_domain name =
    ask Event.list_domains Error.libvirt (λ env h. env.hypervisor.domains h) >>= λ domains.
    pure (any (λ domain. domain == name) domains)
