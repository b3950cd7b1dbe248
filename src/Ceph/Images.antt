-- ===== src/Ceph/Images.antt =====
-- src/cluster/controllers/images.rs: images in the pool "templates". They are not downloaded: an
-- image that is not there is an error.
use cluster_controller.Prelude.{String, ◌==◌, if◌then◌else◌, is_some, find, any}
use cluster_controller.Errors.{Error}
use cluster_controller.Crd.{Image}
use cluster_controller.World.{M, ◌>>=◌, ◌>>◌, lift, pure, fail}
use cluster_controller.Kube.{
  vm_resource, network_resource, router_resource, ensure_finalizer, remove_finalizer,
  name_prefixed_with_namespace, image_resource,
}
use cluster_controller.Controller.{Action, requeue, field_manager}
use cluster_controller.Ceph.Lowlevel.{
  connect, disconnect, get_pool, close_pool, get_images, remove_image,
}

unfoldable pub ceph_ensure_image_exists : String → String → M (Unit {0})
ceph_ensure_image_exists name source = connect >>= λ cluster.
    get_pool cluster "templates" >>= λ template_pool. get_images template_pool >>= λ images.
    (if is_some (find (λ existing. existing == name) images)
      then pure tt
      else fail (Error.not_implemented "image download/copy"))
    >> close_pool template_pool
    >> disconnect cluster

unfoldable pub ceph_ensure_image_removed : String → M (Unit {0})
ceph_ensure_image_removed name = connect >>= λ cluster. get_pool cluster "templates" >>= λ pool.
    get_images pool >>= λ images.
    if any (λ existing_name. existing_name == name) images then remove_image pool name else pure tt

unfoldable pub update_image : Image → M Action
update_image image = lift (name_prefixed_with_namespace image) >>= λ name.
    ensure_finalizer image "ceph" (field_manager "ceph") >>= λ with_finalizer.
    ceph_ensure_image_exists name image.spec.source >> pure (requeue 600)

unfoldable pub remove_image_fn : Image → M Action
remove_image_fn image = lift (name_prefixed_with_namespace image) >>= λ name.
    ceph_ensure_image_removed name
    >> remove_finalizer image "ceph" (field_manager "ceph")
    >> pure (requeue 600)
