-- ===== src/Metadata/Backend.antt =====
-- src/metadataservice/backend.rs: a request carries the address of a machine's interface; the
-- answer is what the machine with that address may know.
pub mod Grants
pub mod Answers
use cluster_controller.Prelude.{
  String, Bool, false, Option, none, some, List, [], ◌∷◌, nat_eq, option_eq, format, lookup, retain,
  any, length, to_decimal, ◌==◌, get_or,
}
use cluster_controller.Errors.{
  Outcome, ok, err, panic, Error, KubeError, ok_or, expect, assert, instance_match_failed,
  userdata_not_specified, config_map_not_found, config_map_invalid,
}
use cluster_controller.Errors
use cluster_controller.Crd.{VirtualMachine, NetworkAttachment}
use cluster_controller.World.{
  Ovn, Event, M, ◌>>=◌, ◌>>◌, lift, observe, ask, pure, for_each, done, failed, Reply,
  MetadataPayload, Env, History,
}
use cluster_controller.Ovn.Types.{LogicalSwitchPort}
use cluster_controller.Ovn.Lowlevel.{try_from_annotations}
use cluster_controller.Ovn.Ports.{get_by_ip}

-- The closure of the filter: an interface of the machine is the port.
unfoldable pub owns_port : String → VirtualMachine → Bool
owns_port port vm = elim vm.status [
  | none ↦ false
  | some status ↦
      any (λ (network : NetworkAttachment). option_eq network.ovn_id (some port)) status.networks
]

abbrev pub no_data : String → Error
no_data userdata_name = config_map_invalid userdata_name "no .data"

abbrev pub no_userdata : String → Error
no_userdata userdata_name = config_map_invalid userdata_name "no .data.userdata"

-- `maybe_userdata`, from the answer for the ConfigMap
unfoldable pub userdata_of :
    String → Reply KubeError (Option (List (String × String))) → Outcome String
userdata_of userdata_name (failed e) = err (config_map_not_found userdata_name)
userdata_of userdata_name (done found) =
    Errors.◌>>=◌ (ok_or found (no_data userdata_name))
      λ cm_data. ok_or (lookup "userdata" cm_data) (no_userdata userdata_name)

-- The arms of `match maybe_userdata`: the inner result is what is sent.
abbrev pub payload : String → VirtualMachine → Outcome String → Outcome (Outcome MetadataPayload)
payload ip vm (ok userdata) = Errors.◌>>=◌ (expect vm.metadata.name) λ hostname.
    Errors.◌>>=◌ (expect vm.spec.uuid) λ instance_id. ok (
      ok (record { ip = ip; instance_id = instance_id; hostname = hostname; user_data = userdata }))
payload ip vm (err e) = ok (err e)
payload ip vm panic = panic

-- The ConfigMap of this name in the machine's namespace.
abbrev pub userdata_in : String → String → M (Outcome String)
userdata_in userdata_name namespace =
    observe (Event.get_config_map namespace userdata_name)
      (λ env h. userdata_of userdata_name (env.kube.config_map h namespace userdata_name))

-- The answer for the machine that has been found, by its `.spec.userdata`.
abbrev pub answer_named : String → VirtualMachine → Option String → M (Outcome MetadataPayload)
answer_named ip vm none = pure (err userdata_not_specified)
answer_named ip vm (some userdata_name) =
    lift (expect vm.metadata.namespace) >>= userdata_in userdata_name >>= λ userdata.
    lift (payload ip vm userdata)

unfoldable pub answer_for : String → VirtualMachine → M (Outcome MetadataPayload)
answer_for ip vm = answer_named ip vm vm.spec.userdata

-- `assert_eq!(matching_vms.len(), 1)` and its first element
abbrev pub only : {A : Type 0} → List A → Outcome A
only (x ∷ []) = ok x
only _ = panic

unfoldable pub matching_vm : String → M VirtualMachine
matching_vm port = ask (Event.list_vms none) Error.kube (λ env h. env.kube.vms h none) >>= λ vms.
    lift (only (retain (owns_port port) vms))

abbrev pub not_matched : List LogicalSwitchPort → Error
not_matched ports =
    instance_match_failed (format ("Matched " ∷ to_decimal (length ports) ∷ " instances" ∷ []))

-- The answer by the ports that have the address.
abbrev pub answer_by_ports : String → List LogicalSwitchPort → M (Outcome MetadataPayload)
answer_by_ports ip (port ∷ []) = matching_vm port.name >>= answer_for ip
answer_by_ports ip ports = pure (err (not_matched ports))

-- What is sent for a request. Each `send` of the source sends one of these results.
unfoldable pub answer : String → M (Outcome MetadataPayload)
answer ip = try_from_annotations >>= λ ovn. get_by_ip ovn ip >>= answer_by_ports ip

-- `return_channel.send(...)`, which fails when the requester is gone.
abbrev pub send_response : String → Outcome MetadataPayload → M (Unit {0})
send_response ip metadata =
    ask (Event.respond ip metadata) Error.response_send_failed (λ env h. env.system h)

unfoldable pub handle_request : String → M (Unit {0})
handle_request ip = answer ip >>= send_response ip

-- The loop, over the requests that arrive until it ends: any failure ends it.
unfoldable pub main : List String → M (Unit {0})
main requests = for_each handle_request requests
