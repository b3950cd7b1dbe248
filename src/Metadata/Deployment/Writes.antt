-- ===== src/Metadata/Deployment/Writes.antt =====
-- What the deployment of a router's metadata service has written when it returns.
use cluster_controller.Prelude.{
  refl, String, ◌≡◌, sym, ap, ◌∙◌, false, Option, none, some, List, [], ◌∷◌, ◌++◌, format, and_then,
  head?,
}
use mathlib.Core.Path.{subst}
use cluster_controller.Errors.{ok, Error, expect}
use cluster_controller.Json.{Value, as_str, get, member, as_array}
use cluster_controller.Workloads.{
  RunningDeployment, Manifest, of_service_account, of_cluster_role, of_cluster_role_binding,
  of_json,
}
use cluster_controller.World.{Event, Env, World, ◌>>=◌, lift, ask, done, read, pure, to_outcome}
use cluster_controller.World.Monad.Inversion.{
  continue-eq-ok, lift-eq-ok, ok-injective, to_outcome-eq-ok,
}
use cluster_controller.World.Monad.Trace.{extend, Adds, lift-Adds, ask-Adds, bind-Adds, then-Adds}
use cluster_controller.Cluster.{get_running_image, first_image}
use cluster_controller.Cluster
use cluster_controller.Metadata.Deployment.{
  make_service_account, make_cluster_role, make_cluster_role_binding, deployment_name,
  deployment_json, make_deployment, patch, name_of, create_rbac, create_deployment, deploy,
}

abbrev pub patch_event : Option String → String → String → Manifest → Event
patch_event namespace name controller object = Event.apply namespace name controller false object

patch-Adds :
    (namespace : Option String) (name controller : String) (object : Manifest)
    → Adds
        (patch_event namespace name controller object ∷ [])
        (patch namespace (some name) controller object)
patch-Adds namespace name controller object =
    ask-Adds (patch_event namespace name controller object) Error.kube (λ env h. env.kube.write h)

-- The writes of `create_rbac`, the last one first.
abbrev pub rbac_events : String → String → List Event
rbac_events namespace controller =
    patch_event none (format ("metadata-service-" ∷ namespace ∷ [])) controller
      (of_cluster_role_binding (make_cluster_role_binding namespace))
    ∷ patch_event none "metadata-service" controller (of_cluster_role make_cluster_role)
    ∷ patch_event (some namespace) "metadata-service" controller
        (of_service_account (make_service_account namespace))
    ∷ []

create_rbac-Adds :
    (namespace controller : String)
    → Adds (rbac_events namespace controller) (create_rbac namespace controller)
unfolding create_rbac make_service_account make_cluster_role make_cluster_role_binding
create_rbac-Adds namespace controller =
    then-Adds
      (then-Adds (patch-Adds (some namespace) _ controller _) (patch-Adds none _ controller _))
      (patch-Adds none _ controller _)

get_running_image-Adds :
    Adds (Event.get_deployment Cluster.namespace Cluster.deployment_name ∷ []) get_running_image
unfolding get_running_image
get_running_image-Adds =
    bind-Adds
      (ask-Adds _ Error.kube
        (λ env h. env.kube.deployment h Cluster.namespace Cluster.deployment_name))
      λ deployment. lift-Adds _

make_deployment-eq-ok :
    (image namespace router : String) (env : Env) (w : World) {value : Value} {w' : World}
    → make_deployment image namespace router env w ≡ (ok value, w')
    → (value ≡ deployment_json image namespace router) × (w' ≡ w)
unfolding make_deployment
make_deployment-eq-ok image namespace router env w h =
    let value = deployment_json image namespace router in
    let (u, v, p, q) =
      continue-eq-ok
        ((read (λ env. env.libraries.from_value value) >>= λ decoded.
            lift (to_outcome Error.json decoded))
          env w)
        (λ x. pure value) env h in
    let (d, v', p', q') =
      continue-eq-ok (read (λ env. env.libraries.from_value value) env w)
        (λ decoded. lift (to_outcome Error.json decoded)) env p in
    (
      sym (ok-injective (lift-eq-ok q).0),
      sym ((lift-eq-ok p').1 ∙ (lift-eq-ok q').1 ∙ (lift-eq-ok q).1),
    )

-- The deployment with this image, as it is written.
abbrev pub deployment_event : String → String → String → String → Event
deployment_event controller image namespace router =
    patch_event (some namespace) (deployment_name namespace router) controller
      (of_json (deployment_json image namespace router))

-- The first container of a deployment has this image.
abbrev pub Runs : RunningDeployment → String → Type 0
Runs deployment image =
    (others : List (Option String)) × (deployment.images ≡ some (some (some image ∷ others)))

first_image_of :
    (images : Option (Option (List (Option String)))) {image : String}
    → expect (and_then (and_then (and_then images (λ spec. spec)) head?) (λ image. image))
      ≡ ok image
    → (others : List (Option String)) × (images ≡ some (some (some image ∷ others)))
first_image_of none h = cc
first_image_of (some none) h = cc
first_image_of (some (some [])) h = cc
first_image_of (some (some (none ∷ others))) h = cc
first_image_of (some (some (some image ∷ others))) h =
    (others, ap (λ i. some (some (some i ∷ others))) (ok-injective h))

get_running_image-Runs :
    (env : Env) (w : World) {image : String} {w' : World}
    → get_running_image env w ≡ (ok image, w')
    → (deployment : RunningDeployment) × (env.kube.deployment
          (Event.get_deployment Cluster.namespace Cluster.deployment_name ∷ w.log)
          Cluster.namespace
          Cluster.deployment_name
        ≡ done deployment)
      × Runs deployment image
unfolding get_running_image first_image
get_running_image-Runs env w h =
    let event = Event.get_deployment Cluster.namespace Cluster.deployment_name in
    let (deployment, v, p, q) =
      continue-eq-ok
        (ask event Error.kube
          (λ env h. env.kube.deployment h Cluster.namespace Cluster.deployment_name) env w)
        (λ deployment. lift (first_image deployment)) env h in
    (
      deployment,
      to_outcome-eq-ok Error.kube _ (lift-eq-ok p).0,
      first_image_of deployment.images (lift-eq-ok q).0,
    )

-- The image of the first container of a deployment in JSON.
abbrev pub started_image : Value → Option String
started_image deployment =
    let containers =
      and_then (get ("spec" ∷ "template" ∷ "spec" ∷ "containers" ∷ []) deployment) as_array in
    and_then (and_then (and_then containers head?) (member "image")) as_str

-- The writes of a deployment, with the answer that the image comes from.
abbrev pub Deployed : String → String → String → Env → World → World → Type 0
Deployed controller namespace router env w w' =
    (image : String) × (running : RunningDeployment) × (env.kube.deployment
        (Event.get_deployment Cluster.namespace Cluster.deployment_name
            ∷ rbac_events namespace controller
          ++ w.log)
        Cluster.namespace Cluster.deployment_name
      ≡ done running)
    × Runs running image
    × (started_image (deployment_json image namespace router) ≡ some image)
    × (w'
        ≡ extend
            (deployment_event controller image namespace router
              ∷ Event.get_deployment Cluster.namespace Cluster.deployment_name
              ∷ rbac_events namespace controller)
            w)

-- When `deploy` returns, it has written the service account in the namespace, the cluster role and
-- the binding of the one to the other, then read the image that this program runs from, and then
-- written a deployment of that image for the router; it has done nothing else. The image is that of
-- the first container of the deployment that the API server answered with at that
-- moment, and the image of the first container of the deployment that is written.
pub deploy-log :
    (controller namespace router : String) (env : Env) (w w' : World)
    → deploy controller namespace router env w ≡ (ok tt, w')
    → Deployed controller namespace router env w w'
unfolding deploy create_deployment deployment_json
deploy-log controller namespace router env w w' h =
    let (u, v, p, q) =
      continue-eq-ok (create_rbac namespace controller env w)
        (λ x. create_deployment controller namespace router) env h in
    let (image, v1, p1, q1) = continue-eq-ok (get_running_image env v) _ env q in
    let (value, v2, p2, q2) =
      continue-eq-ok (make_deployment image namespace router env v1) _ env q1 in
    let (same_value, same_world) = make_deployment-eq-ok image namespace router env v1 p2 in
    let write =
      patch_event (some namespace) (deployment_name namespace router) controller
        (of_json (deployment_json image namespace router)) in
    let written =
      (patch-Adds (some namespace) (deployment_name namespace router) controller
          (of_json (deployment_json image namespace router))).added
        env v2 tt w'
        (subst (λ x. patch (some namespace) (name_of x) controller (of_json x) env v2 ≡ (ok tt, w'))
          same_value q2) in
    let read_image = get_running_image-Adds.added env v image v1 p1 in
    let rbac = (create_rbac-Adds namespace controller).added env w u v p in
    let (running, answered, runs) = get_running_image-Runs env v p1 in
    (
      image,
      running,
      subst
          (λ (x : World).
            env.kube.deployment
              (Event.get_deployment Cluster.namespace Cluster.deployment_name ∷ x.log)
              Cluster.namespace Cluster.deployment_name
            ≡ done running)
          rbac answered,
      runs,
      refl,
      written
          ∙ ap (extend (write ∷ [])) (same_world ∙ read_image)
          ∙ ap
              (extend (write ∷ Event.get_deployment Cluster.namespace Cluster.deployment_name ∷ []))
              rbac,
    )
