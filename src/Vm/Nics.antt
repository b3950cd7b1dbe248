-- ===== src/Vm/Nics.antt =====
-- src/cluster/controllers/virtualmachine/utils.rs: the network attachments of a machine are
-- completed and kept in its status.
pub mod Addresses
pub mod Locking
use cluster_controller.Prelude.{
  ℕ, zero, suc, ◌+◌, ◌-◌, ◌*◌, ◌%◌, ◌^◌, ◌≤◌, ◌<◌, String, ◌≡◌, ◌≢◌, ◌⊎◌, inl, inr, refl, sym, ap,
  Bool, true, false, ◌&&◌, ◌||◌, not, Option, none, some, List, [], ◌∷◌, ◌++◌, map, arith, ltb, leb,
  nat_eq, ◌==◌, option_eq, if◌then◌else◌, is_some, get_or, and_then, map_option, length, get_elem?,
  head?, retain, find, any, filter_map, contains, lookup, insert, remove, format, join, split,
  has_substring, ends_with, to_decimal, Bool-cases, Option-cases, eq_iff, All, In, to_hex,
}
use cluster_controller.Errors.{
  Outcome, ok, err, panic, Error, ok_or, or_default, expect, assert, is_ok, collect, ovn_not_found,
  ovn_conflict, ovn_deserialization_failed,
}
use cluster_controller.Errors
use cluster_controller.Crd.{
  VirtualMachine, VirtualMachineStatus, NetworkAttachment, default_attachment, Network, NetworkSpec,
  NetworkType, ovn, evpn,
}
use cluster_controller.World.{
  Ovn, Params, by_position, by_name, Message, request, response, Event, Env, World, M, ◌>>=◌, ◌>>◌,
  lift, observe, ask, pure, fail, try, read, happen, for_each,
}
use cluster_controller.Kube.{
  Resource, vm_resource, network_resource, router_resource, commit, ensure_finalizer,
  remove_finalizer, name_prefixed_with_namespace, namespace_unchecked, set_vm_status, try_status,
}

abbrev pub mac_prefix : String
mac_prefix = "52:54:00"

-- The last three bytes of the digest, in hexadecimal without leading zeros.
abbrev pub mac_text : ℕ × ℕ × ℕ → String
mac_text (a, b, c) = format (mac_prefix ∷ ":" ∷ to_hex a ∷ ":" ∷ to_hex b ∷ ":" ∷ to_hex c ∷ [])

-- `network.or(bridge)`
abbrev pub target : NetworkAttachment → Option String
target nic = elim nic.name [ some name ↦ some name | none ↦ nic.bridge ]

unfoldable pub generate_mac_address : String → NetworkAttachment → ℕ → M String
generate_mac_address vm_name nic index = lift (expect (target nic)) >>= λ name.
    read (λ env. mac_text (env.libraries.sha256_tail (vm_name ∷ name ∷ []) (index % 256 ∷ [])))

unfoldable pub find_matching_network :
    List NetworkAttachment → NetworkAttachment → Outcome (Option NetworkAttachment)
find_matching_network list network =
    if is_some network.name
    then ok (find (λ (candidate : NetworkAttachment). option_eq candidate.name network.name) list)
    else if is_some network.bridge
    then ok
        (find (λ (candidate : NetworkAttachment). option_eq candidate.bridge network.bridge) list)
    else panic

-- The entry of the status that a nic starts from.
abbrev pub initial_nic : NetworkAttachment → Option NetworkAttachment → NetworkAttachment
initial_nic nic_spec (some nic_status) = nic_status
initial_nic nic_spec none = record default_attachment {
  name = nic_spec.name;
  bridge = nic_spec.bridge;
}

-- Generate a new MAC address if there is none.
unfoldable pub fill_mac : String → ℕ → NetworkAttachment → NetworkAttachment → M NetworkAttachment
unfolding generate_mac_address
fill_mac vm_name index nic_spec nic_status =
    if is_some nic_spec.mac_address
    then pure (record nic_status { mac_address = nic_spec.mac_address })
    else if is_some nic_status.mac_address
    then pure nic_status
    else generate_mac_address vm_name nic_spec index >>= λ mac.
        pure (record nic_status { mac_address = some mac })

-- Generate a new port ID on an OVN network if there is none.
unfoldable pub fill_ovn_id : NetworkAttachment → NetworkAttachment → M NetworkAttachment
fill_ovn_id nic_spec nic_status =
    if is_some nic_spec.ovn_id
    then pure (record nic_status { ovn_id = nic_spec.ovn_id })
    else if is_some nic_status.ovn_id
    then pure nic_status
    else observe Event.new_uuid (λ env h. env.uuid h) >>= λ uuid.
        pure (record nic_status { ovn_id = some uuid })

-- `id_usize as u16`
abbrev pub vlan_of : NetworkSpec → Option ℕ
vlan_of spec = map_option (λ (id : ℕ). id % 2 ^ 16) spec.network_id

abbrev pub is_evpn : NetworkSpec → Bool
is_evpn spec = elim spec.network_type [ some evpn ↦ true | some ovn ↦ false | none ↦ false ]

-- By the network that the nic is on.
abbrev pub of_network : NetworkAttachment → NetworkAttachment → Network → M NetworkAttachment
of_network nic_spec nic_status network =
    if is_evpn network.spec
    then pure
        (record nic_status { bridge = network.spec.bridge; untagged_vlan = vlan_of network.spec })
    else fill_ovn_id nic_spec nic_status

-- By the name of a managed network.
abbrev pub of_name :
    String → NetworkAttachment → NetworkAttachment → Option String → M NetworkAttachment
of_name namespace nic_spec nic_status none = pure nic_status
of_name namespace nic_spec nic_status (some name) =
    ask (Event.get_network namespace name) Error.kube (λ env h. env.kube.network h namespace name)
    >>= of_network nic_spec nic_status

-- A nic of a managed network takes what the kind of the network asks for.
unfoldable pub fill_network : String → NetworkAttachment → NetworkAttachment → M NetworkAttachment
unfolding fill_ovn_id
fill_network namespace nic_spec nic_status = of_name namespace nic_spec nic_status nic_spec.name

-- The body of the loop in `fill_nics`.
unfoldable pub fill_nic :
    String → String → List NetworkAttachment → ℕ → NetworkAttachment → M NetworkAttachment
unfolding fill_mac fill_network
fill_nic namespace vm_name status_networks index nic_spec =
    lift (find_matching_network status_networks nic_spec) >>= λ found.
    fill_mac vm_name index nic_spec
      (record (initial_nic nic_spec found) { queues = nic_spec.queues })
    >>= λ nic_status. fill_network namespace nic_spec nic_status

unfoldable pub fill_loop :
    String
    → String
    → List NetworkAttachment
    → ℕ
    → List NetworkAttachment
    → M (List NetworkAttachment)
fill_loop namespace vm_name status_networks index [] = pure []
fill_loop namespace vm_name status_networks index (nic_spec ∷ rest) =
    fill_nic namespace vm_name status_networks index nic_spec >>= λ nic.
    fill_loop namespace vm_name status_networks (index + 1) rest >>= λ nics. pure (nic ∷ nics)

-- `retain(|net| find_matching_network(&vm.spec.networks, net).is_some())`
unfoldable pub retain_matching :
    List NetworkAttachment → List NetworkAttachment → Outcome (List NetworkAttachment)
retain_matching spec_networks [] = ok []
retain_matching spec_networks (net_in_status ∷ rest) =
    Errors.◌>>=◌ (find_matching_network spec_networks net_in_status) λ found.
      Errors.◌>>=◌ (retain_matching spec_networks rest)
        λ others. ok (if is_some found then net_in_status ∷ others else others)

-- Equality of the JSON texts of attachments: that of all fields.
abbrev nat_option_eq : Option ℕ → Option ℕ → Bool
nat_option_eq none none = true
nat_option_eq (some a) (some b) = nat_eq a b
nat_option_eq _ _ = false

abbrev nat_list_eq : List ℕ → List ℕ → Bool
nat_list_eq [] [] = true
nat_list_eq (a ∷ as') (b ∷ bs) = nat_eq a b && nat_list_eq as' bs
nat_list_eq _ _ = false

abbrev nats_option_eq : Option (List ℕ) → Option (List ℕ) → Bool
nats_option_eq none none = true
nats_option_eq (some a) (some b) = nat_list_eq a b
nats_option_eq _ _ = false

unfoldable pub attachment_eq : NetworkAttachment → NetworkAttachment → Bool
attachment_eq a b =
    option_eq a.name b.name
    && option_eq a.bridge b.bridge
    && option_eq a.mac_address b.mac_address
    && nat_option_eq a.queues b.queues
    && option_eq a.ovn_id b.ovn_id
    && nat_option_eq a.untagged_vlan b.untagged_vlan
    && nats_option_eq a.tagged_vlans b.tagged_vlans

unfoldable pub attachments_eq : List NetworkAttachment → List NetworkAttachment → Bool
unfolding attachment_eq
attachments_eq [] [] = true
attachments_eq (a ∷ as') (b ∷ bs) = attachment_eq a b && attachments_eq as' bs
attachments_eq _ _ = false

-- The status is written only if its networks have changed.
unfoldable pub save_nics :
    VirtualMachine → VirtualMachineStatus → List NetworkAttachment → M (Unit {0})
save_nics vm status networks =
    if attachments_eq status.networks networks
    then pure tt
    else set_vm_status vm (record status { networks = networks })

unfoldable pub fill_nics : VirtualMachine → M (Unit {0})
unfolding save_nics
fill_nics vm = lift (namespace_unchecked vm) >>= λ namespace.
    lift (name_prefixed_with_namespace vm) >>= λ vm_name. lift (try_status vm) >>= λ status.
    fill_loop namespace vm_name status.networks 0 vm.spec.networks >>= λ filled.
    lift (retain_matching vm.spec.networks filled) >>= λ networks.
    save_nics vm status networks >> commit vm "cluster-manager.libvirt"

-- Returns the machine with its UUID.
unfoldable pub fill_uuid : VirtualMachine → M VirtualMachine
fill_uuid vm =
    if is_some vm.spec.uuid
    then pure vm
    else observe Event.new_uuid (λ env h. env.uuid h) >>= λ uuid.
        let filled = record vm { spec = record vm.spec { uuid = some uuid } } in
        commit filled "cluster-manager.libvirt" >> pure filled
