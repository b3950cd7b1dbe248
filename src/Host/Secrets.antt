-- ===== src/Host/Secrets.antt =====
-- src/host/libvirt/secrets.rs: libvirt on each host keeps Ceph's key as a secret.
use cluster_controller.Prelude.{ℕ, String, List, lookup}
use cluster_controller.Errors.{Error, expect, libvirt}
use cluster_controller.Templates.{SecretTemplate}
use cluster_controller.World.{
  Event, M, ◌>>=◌, ◌>>◌, lift, ask, observe, read, pure, Reply, done, failed, to_outcome,
}
use cluster_controller.Cluster.{namespace}

abbrev pub ceph_secret_uuid : String
ceph_secret_uuid = "8e22b0ac-b429-4ad1-8783-6d792db31349"

-- `KEYRING_SECRET` of src/main.rs
abbrev pub keyring_secret : String
keyring_secret = "ceph-client.libvirt"

abbrev pub secret_template : SecretTemplate
secret_template = record { uuid = ceph_secret_uuid; name = "client.libvirt secret"; usage = "ceph" }

abbrev pub hypervisor_call : Event → M (Unit {0})
hypervisor_call event = ask event libvirt (λ env h. env.hypervisor.domain_call h)

unfoldable pub create_secret : List ℕ → M (Unit {0})
create_secret key = read (λ env. env.libraries.render_secret secret_template) >>= λ rendered.
    lift (to_outcome Error.template rendered) >>= λ xml.
    hypervisor_call (Event.define_secret xml)
    >> hypervisor_call (Event.set_secret_value ceph_secret_uuid key)

-- The key of the keyring's secret; a missing part is a panic.
abbrev pub copy_secret : M (Unit {0})
copy_secret =
    ask (Event.get_secret namespace keyring_secret) Error.kube
      (λ env h. env.kube.secret h namespace keyring_secret)
    >>= λ found. lift (expect found) >>= λ entries.
        lift (expect (lookup "key" entries)) >>= λ key. create_secret key

-- From the answer of the lookup by UUID.
abbrev pub ensure_by : Reply String (Unit {0}) → M (Unit {0})
ensure_by (done secret) = pure tt
ensure_by (failed e) = copy_secret

unfoldable pub ensure_ceph_secret : M (Unit {0})
ensure_ceph_secret =
    observe (Event.lookup_secret ceph_secret_uuid) (λ env h. env.hypervisor.domain_call h)
    >>= λ found. ensure_by found
