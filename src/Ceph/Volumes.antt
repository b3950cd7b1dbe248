-- ===== src/Ceph/Volumes.antt =====
-- src/cluster/controllers/volumes.rs: a volume is an image in the pool "volumes".
use cluster_controller.Prelude.{
  ℕ, String, Option, none, some, nat_eq, ◌==◌, if◌then◌else◌, is_some, find, any,
}
use cluster_controller.Errors.{Error, KubeError, api, other}
use cluster_controller.Crd.{Volume}
use cluster_controller.World.{
  Event, M, ◌>>=◌, ◌>>◌, lift, observe, ask, pure, fail, read, done, failed, Reply, to_outcome,
}
use cluster_controller.Kube.{
  vm_resource, network_resource, router_resource, ensure_finalizer, remove_finalizer,
  name_prefixed_with_namespace, volume_resource,
}
use cluster_controller.Controller.{Action, requeue, field_manager}
use cluster_controller.Ceph.Lowlevel.{
  connect, disconnect, get_pool, close_pool, get_images, create_image, clone_image, remove_image,
  auth_get_key,
}

-- The image is made of the template, if there is one.
abbrev pub make_image : ℕ → ℕ → String → ℕ → Option String → M (Unit {0})
make_image volume_pool template_pool name size (some template_name) =
    clone_image volume_pool name size template_pool template_name
make_image volume_pool template_pool name size none = create_image volume_pool name size

unfoldable pub ensure_exists : String → ℕ → Option String → M (Unit {0})
ensure_exists name size template = connect >>= λ cluster.
    get_pool cluster "volumes" >>= λ volume_pool. get_pool cluster "templates" >>= λ template_pool.
    get_images volume_pool >>= λ images.
    (if is_some (find (λ existing. existing == name) images)
      then pure tt
      else make_image volume_pool template_pool name size template)
    >> close_pool volume_pool
    >> close_pool template_pool
    >> disconnect cluster

unfoldable pub ensure_removed : String → M (Unit {0})
ensure_removed name = connect >>= λ cluster. get_pool cluster "volumes" >>= λ pool.
    get_images pool >>= λ images.
    if any (λ existing_name. existing_name == name) images then remove_image pool name else pure tt

unfoldable pub get_ceph_keyring : M String
get_ceph_keyring = connect >>= λ cluster.
    auth_get_key cluster "client.libvirt" >>= λ key. disconnect cluster >> pure key

abbrev pub create_ceph_secret : String → M (Unit {0})
create_ceph_secret secret =
    ask
      (Event.apply_secret "virt-controller" "ceph-client.libvirt" secret "ceph-controller-cluster")
      Error.kube (λ env h. env.kube.write h)

abbrev pub with_keyring : {A : Type 0} → Reply KubeError A → M (Unit {0})
with_keyring (done secret) = pure tt
with_keyring (failed (api code)) =
    if nat_eq code 404
    then get_ceph_keyring >>= (λ key. create_ceph_secret key)
    else fail (Error.kube (api code))
with_keyring (failed (other e)) = fail (Error.kube (other e))

unfoldable pub ensure_keyring : M (Unit {0})
ensure_keyring =
    observe (Event.get_secret "virt-controller" "ceph-client.libvirt")
      (λ env h. env.kube.secret h "virt-controller" "ceph-client.libvirt")
    >>= λ keyring. with_keyring keyring

unfoldable pub update_fn : Volume → M Action
update_fn volume = lift (name_prefixed_with_namespace volume) >>= λ name.
    read (λ env. env.libraries.parse_bytes volume.spec.size) >>= λ size.
    lift (to_outcome Error.parse_humanize size) >>= λ bytes.
    ensure_finalizer volume "ceph" (field_manager "ceph") >>= λ with_finalizer.
    ensure_exists name bytes volume.spec.template >> pure (requeue 600)

unfoldable pub remove_fn : Volume → M Action
remove_fn volume = lift (name_prefixed_with_namespace volume) >>= λ name.
    ensure_removed name
    >> remove_finalizer volume "ceph" (field_manager "ceph")
    >> pure (requeue 600)
