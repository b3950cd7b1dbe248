-- ===== src/Cluster.antt =====
-- src/cluster/mod.rs: the image that the program runs from. Its deployment always has a container
-- in what the API server accepts; any missing part is a panic.
use cluster_controller.Prelude.{String, head?, and_then}
use cluster_controller.Errors.{Error, Outcome, expect}
use cluster_controller.Workloads.{RunningDeployment}
use cluster_controller.World.{Event, M, ◌>>=◌, lift, ask}

abbrev pub deployment_name : String
deployment_name = "cluster-controller"

-- `main.rs`
abbrev pub namespace : String
namespace = "virt-controller"

-- `containers[0].image.as_ref().unwrap()`, with its `unwrap`s
unfoldable pub first_image : RunningDeployment → Outcome String
first_image deployment =
    let pods = and_then deployment.images (λ spec. spec) in
    let containers = and_then pods head? in expect (and_then containers (λ image. image))

unfoldable pub get_running_image : M String
get_running_image =
    ask (Event.get_deployment namespace deployment_name) Error.kube
      (λ env h. env.kube.deployment h namespace deployment_name)
    >>= λ deployment. lift (first_image deployment)
