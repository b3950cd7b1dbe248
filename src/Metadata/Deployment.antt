-- ===== src/Metadata/Deployment.antt =====
-- src/metadataservice/deployment.rs: the metadata service of a router is a deployment of this same
-- program, with a service account and a role.
pub mod Writes
use cluster_controller.Prelude.{String, true, false, Option, none, some, List, [], ◌∷◌, format}
use cluster_controller.Errors.{Error, expect}
use cluster_controller.Json.{Value, bool, str, array, object, as_str, get_path}
use cluster_controller.Crd.{no_meta}
use cluster_controller.Workloads.{
  ServiceAccount, ClusterRole, ClusterRoleBinding, Manifest, of_service_account, of_cluster_role,
  of_cluster_role_binding, of_json,
}
use cluster_controller.World.{Event, M, ◌>>=◌, ◌>>◌, lift, ask, read, pure, to_outcome}
use cluster_controller.Cluster.{get_running_image}

unfoldable pub make_service_account : String → ServiceAccount
make_service_account namespace = record {
  metadata = record no_meta { namespace = some namespace; name = some "metadata-service" };
}

unfoldable pub make_cluster_role : ClusterRole
make_cluster_role = record {
  metadata = record no_meta { name = some "metadata-service" };
  rules = some (
      (record {
        api_groups = some ("cluster-virt.acl.fi" ∷ []);
        resources = some ("virtualmachines" ∷ []);
        verbs = "list" ∷ [];
      })
      ∷ (record {
        api_groups = some ("" ∷ []);
        resources = some ("configmaps" ∷ []);
        verbs = "get" ∷ [];
      })
      ∷ []);
}

unfoldable pub make_cluster_role_binding : String → ClusterRoleBinding
make_cluster_role_binding namespace = record {
  metadata = record no_meta { name = some (format ("metadata-service-" ∷ namespace ∷ [])) };
  role_ref = record {
    api_group = "rbac.authorization.k8s.io";
    kind = "ClusterRole";
    name = "metadata-service";
  };
  subjects = some (
      (record { kind = "ServiceAccount"; name = "metadata-service"; namespace = some namespace })
      ∷ []);
}

-- The name of the deployment, of its container and of its label.
abbrev pub deployment_name : String → String → String
deployment_name namespace router = format ("metadata-" ∷ namespace ∷ "-" ∷ router ∷ [])

-- The command line of the deployed service.
abbrev pub service_command : String → String → List String
service_command namespace router =
    "cluster-controller" ∷ "--metadata-service" ∷ format (namespace ∷ "/" ∷ router ∷ []) ∷ []

abbrev socket_path : String
socket_path = "/var/run/openvswitch/db.sock"

abbrev pub env_var : String → String → Value
env_var name value = object (("name", str name) ∷ ("value", str value) ∷ [])

abbrev pub texts : List String → List Value
texts [] = []
texts (s ∷ ss) = str s ∷ texts ss

-- The member of `containers`.
abbrev pub service_container : String → String → String → Value
service_container image namespace router = object (
    ("name", str (deployment_name namespace router))
    ∷ ("image", str image)
    ∷ ("command", array (texts (service_command namespace router)))
    ∷ (
      "env",
      array (
          env_var "RUST_BACKTRACE" "1"
          ∷ env_var "RUST_LOG" "cluster_controller=debug"
          ∷ env_var "OTLP_ENDPOINT" "http://10.4.131.101:4317"
          ∷ []),
    )
    ∷ ("securityContext", object (("privileged", bool true) ∷ []))
    ∷ (
      "volumeMounts",
      array (object (("name", str "ovsdb") ∷ ("mountPath", str socket_path) ∷ []) ∷ []),
    )
    ∷ [])

abbrev pub service_pod : String → String → String → Value
service_pod image namespace router = object (
    ("dnsPolicy", str "ClusterFirstWithHostNet")
    ∷ ("hostNetwork", bool true)
    ∷ ("containers", array (service_container image namespace router ∷ []))
    ∷ ("serviceAccountName", str "metadata-service")
    ∷ (
      "volumes",
      array (
          object
            (("name", str "ovsdb") ∷ ("hostPath", object (("path", str socket_path) ∷ [])) ∷ [])
          ∷ []),
    )
    ∷ [])

-- The argument of `from_value`.
unfoldable pub deployment_json : String → String → String → Value
deployment_json image namespace router =
    let labels = object (("name", str (deployment_name namespace router)) ∷ []) in
    object (
      ("apiVersion", str "apps/v1")
      ∷ ("kind", str "Deployment")
      ∷ (
        "metadata",
        object (("name", str (deployment_name namespace router)) ∷ ("labels", object []) ∷ []),
      )
      ∷ (
        "spec",
        object (
            ("selector", object (("matchLabels", labels) ∷ []))
            ∷ ("strategy", object (("type", str "Recreate") ∷ []))
            ∷ (
              "template",
              object (
                  ("metadata", object (("labels", labels) ∷ []))
                  ∷ ("spec", service_pod image namespace router)
                  ∷ []),
            )
            ∷ []),
      )
      ∷ [])

-- The deployment is the JSON value that it is decoded from.
unfoldable pub make_deployment : String → String → String → M Value
make_deployment image namespace router =
    let value = deployment_json image namespace router in
    read (λ env. env.libraries.from_value value) >>= λ decoded.
    lift (to_outcome Error.json decoded) >> pure value

-- `patch(name, &PatchParams::apply(controller), &Patch::Apply(object))`, unforced
abbrev pub patch : Option String → Option String → String → Manifest → M (Unit {0})
patch namespace name controller object = lift (expect name) >>= λ name.
    ask (Event.apply namespace name controller false object) Error.kube (λ env h. env.kube.write h)

unfoldable pub create_rbac : String → String → M (Unit {0})
create_rbac namespace controller =
    let sa = make_service_account namespace in
    let cr = make_cluster_role in
    let crb = make_cluster_role_binding namespace in
    patch (some namespace) sa.metadata.name controller (of_service_account sa)
    >> patch none cr.metadata.name controller (of_cluster_role cr)
    >> patch none crb.metadata.name controller (of_cluster_role_binding crb)

-- `.metadata.name` of the decoded deployment
abbrev pub name_of : Value → Option String
name_of value = get_path ("metadata" ∷ "name" ∷ []) value

unfoldable pub create_deployment : String → String → String → M (Unit {0})
create_deployment controller namespace router = get_running_image >>= λ image.
    make_deployment image namespace router >>= λ metadataservice_deploy.
    patch (some namespace) (name_of metadataservice_deploy) controller
      (of_json metadataservice_deploy)

unfoldable pub deploy : String → String → String → M (Unit {0})
deploy controller namespace router =
    create_rbac namespace controller >> create_deployment controller namespace router
