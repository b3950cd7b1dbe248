-- ===== src/Host/Machines.antt =====
-- src/host/libvirt/utils.rs.
use cluster_controller.Prelude.{ℕ, String, Option, none, some}
use cluster_controller.Errors.{
  Outcome, ok, err, panic, Error, ok_or, or_default, expect, assert, is_ok, collect, ovn_not_found,
  ovn_conflict, ovn_deserialization_failed, cluster_not_found, KubeError,
}
use cluster_controller.Errors
use cluster_controller.Crd.{VirtualMachine, Cluster}
use cluster_controller.World.{Event, M, ◌>>=◌, lift, ask, read}

-- Without a status there is no domain name, and the machine's name is read for a message.
unfoldable pub get_domain_name : VirtualMachine → Outcome (Option String)
get_domain_name vm = elim vm.status [
  | some status ↦ ok (some status.domain_name)
  | none ↦ Errors.◌>>=◌ (expect vm.metadata.name) λ name. ok none
]

-- `get_domain_name(vm).expect(_)`
unfoldable pub expect_domain_name : VirtualMachine → Outcome String
unfolding get_domain_name
expect_domain_name vm = Errors.◌>>=◌ (get_domain_name vm) λ name. expect name

unfoldable pub get_cluster : M Cluster
get_cluster =
    ask (Event.get_cluster "default") (cluster_not_found "default")
      (λ env h. env.kube.cluster h "default")

abbrev pub captured : Option (Option ℕ × String) → Outcome (ℕ × String)
captured none = panic
captured (some (amount, unit)) = Errors.◌>>=◌ (expect amount) λ n. ok (n, unit)

unfoldable pub parse_memory : String → M (ℕ × String)
parse_memory input = read (λ env. captured (env.libraries.parse_memory input)) >>= lift
