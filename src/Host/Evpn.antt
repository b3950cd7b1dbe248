-- ===== src/Host/Evpn.antt =====
-- src/host/libvirt/evpn.rs: the VLANs of a machine are configured on the EVPN bridge.
pub mod Commands
use cluster_controller.Prelude.{
  ℕ, zero, suc, ◌+◌, ◌-◌, ◌*◌, ◌%◌, ◌^◌, ◌≤◌, ◌<◌, String, ◌≡◌, ◌≢◌, ◌⊎◌, inl, inr, refl, sym, ap,
  Bool, true, false, ◌&&◌, ◌||◌, not, Option, none, some, List, [], ◌∷◌, ◌++◌, map, arith, ltb, leb,
  nat_eq, ◌==◌, option_eq, if◌then◌else◌, is_some, get_or, and_then, map_option, length, get_elem?,
  head?, retain, find, any, filter_map, contains, lookup, insert, remove, format, join, split,
  has_substring, ends_with, to_decimal, Bool-cases, Option-cases, eq_iff, All, In, find-some,
  find-none, All-find-none, any-true, any-In, any-false, In-retain, retain-In, ◌↔◌, IsFree,
  split_free, split_at,
}
use cluster_controller.Errors
use cluster_controller.Errors.{
  Outcome, ok, err, panic, Error, ok_or, or_default, expect, assert, is_ok, collect, ovn_not_found,
  ovn_conflict, ovn_deserialization_failed,
}
use cluster_controller.Crd.{VirtualMachine, VirtualMachineStatus, NetworkAttachment}
use cluster_controller.World.{
  Ovn, Params, by_position, by_name, Message, request, response, Event, Env, World, M, ◌>>=◌, ◌>>◌,
  lift, observe, ask, pure, fail, try, read, happen, for_each, done, failed, Reply, CommandOutput,
}

abbrev pub bridge : String
bridge = "/usr/sbin/bridge"

abbrev pub add_to_bridge : ℕ → List String
add_to_bridge vlan = bridge ∷ "vlan" ∷ "add" ∷ "dev" ∷ "br0" ∷ "vid" ∷ to_decimal vlan ∷ "self" ∷ []

abbrev pub add_to_vxlan : ℕ → List String
add_to_vxlan vlan = bridge ∷ "vlan" ∷ "add" ∷ "dev" ∷ "vxlan0" ∷ "vid" ∷ to_decimal vlan ∷ []

abbrev pub set_tunnel_info : ℕ → List String
set_tunnel_info vlan =
    bridge
    ∷ "vlan"
    ∷ "add"
    ∷ "dev"
    ∷ "vxlan0"
    ∷ "vid"
    ∷ to_decimal vlan
    ∷ "tunnel_info"
    ∷ "id"
    ∷ to_decimal vlan
    ∷ []

-- Run a command; a failure to start it is an error.
abbrev pub output : List String → M CommandOutput
output command = ask (Event.run_command command) Error.io (λ env h. env.run_command h)

abbrev pub mapping_failed : String → CommandOutput → Error
mapping_failed step out = Error.vni_mapping (format (step ∷ ": " ∷ out.stderr ∷ []))

-- The exit status of the first two commands.
abbrev pub check_success : String → CommandOutput → Outcome (Unit {0})
check_success step out = if out.success then ok tt else err (mapping_failed step out)

-- The third one may have been run before.
abbrev pub check_tunnel : CommandOutput → Outcome (Unit {0})
check_tunnel out =
    if not out.success && not (out.stderr == "RTNETLINK answers: File exists\n")
    then err (mapping_failed "set_tunnel_info" out)
    else ok tt

unfoldable pub map_vlan : ℕ → M (Unit {0})
map_vlan vlan = output (add_to_bridge vlan) >>= λ added.
    lift (check_success "add_to_bridge" added) >> output (add_to_vxlan vlan) >>= λ on_vxlan.
    lift (check_success "add_to_vxlan" on_vxlan) >> output (set_tunnel_info vlan) >>= λ tunnel.
    lift (check_tunnel tunnel)

abbrev pub untagged : Option ℕ → List ℕ
untagged none = []
untagged (some vlan) = vlan ∷ []

-- The tagged VLANs of each interface, then its untagged one.
unfoldable pub vlans_of : List NetworkAttachment → List ℕ
vlans_of [] = []
vlans_of (nic ∷ nics) = get_or nic.tagged_vlans [] ++ untagged nic.untagged_vlan ++ vlans_of nics

abbrev pub attached : Option VirtualMachineStatus → List NetworkAttachment
attached none = []
attached (some status) = status.networks

unfoldable pub ensure_vni_mapping : VirtualMachine → M (Unit {0})
ensure_vni_mapping vm = for_each map_vlan (vlans_of (attached vm.status))
