-- ===== src/Services/HostAgent.antt =====
-- src/host/daemonset.rs: the host controller on each node.
use cluster_controller.Prelude.{String, true, List, [], ◌∷◌}
use cluster_controller.Errors.{Error}
use cluster_controller.Json.{Value, bool, num, str, array, object}
use cluster_controller.World.{M, ◌>>=◌, ◌>>◌, read, lift, pure, to_outcome}
use cluster_controller.Metadata.Deployment.{env_var, texts}

abbrev pub host_controller_name : String
host_controller_name = "libvirt-host-controller"

-- The command line of the deployed controller.
abbrev pub host_command : List String
host_command = "cluster-controller" ∷ "--host" ∷ []

abbrev pub mount : String → String → Value
mount name path = object (("name", str name) ∷ ("mountPath", str path) ∷ [])

abbrev pub volume : String → String → Value
volume name path = object (("name", str name) ∷ ("hostPath", object (("path", str path) ∷ [])) ∷ [])

abbrev socket : String
socket = "/var/run/libvirt/virtqemud-sock"

abbrev pub host_container : String → Value
host_container image = object (
    ("name", str host_controller_name)
    ∷ ("image", str image)
    ∷ ("command", array (texts host_command))
    ∷ ("securityContext", object (("privileged", bool true) ∷ []))
    ∷ (
      "env",
      array (
          object (
            ("name", str "NODE_NAME")
            ∷ (
              "valueFrom",
              object (("fieldRef", object (("fieldPath", str "spec.nodeName") ∷ [])) ∷ []),
            )
            ∷ [])
          ∷ env_var "RUST_LOG" "cluster_controller=debug"
          ∷ env_var "OTLP_ENDPOINT" "http://10.4.131.101:4317"
          ∷ []),
    )
    ∷ ("volumeMounts", array (mount "virtqemud-sock" socket ∷ mount "ceph-config" "/etc/ceph" ∷ []))
    ∷ [])

-- The argument of `from_value`.
unfoldable pub host_daemon_set_json : String → Value
host_daemon_set_json image =
    let labels = object (("name", str host_controller_name) ∷ []) in
    object (
      ("apiVersion", str "apps/v1")
      ∷ ("kind", str "DaemonSet")
      ∷ ("metadata", object (("name", str host_controller_name) ∷ ("labels", object []) ∷ []))
      ∷ (
        "spec",
        object (
            ("selector", object (("matchLabels", labels) ∷ []))
            ∷ (
              "updateStrategy",
              object (
                  ("type", str "RollingUpdate")
                  ∷ ("rollingUpdate", object (("maxUnavailable", num 3) ∷ []))
                  ∷ []),
            )
            ∷ (
              "template",
              object (
                  ("metadata", object (("labels", labels) ∷ []))
                  ∷ (
                    "spec",
                    object (
                        ("hostNetwork", bool true)
                        ∷ ("containers", array (host_container image ∷ []))
                        ∷ (
                          "volumes",
                          array (
                              volume "virtqemud-sock" socket
                              ∷ volume "ceph-config" "/etc/ceph"
                              ∷ []),
                        )
                        ∷ []),
                  )
                  ∷ []),
            )
            ∷ []),
      )
      ∷ [])

-- `make_daemonset`: the daemon set is the JSON value that it is decoded from.
unfoldable pub host_daemon_set : String → M Value
host_daemon_set image =
    let value = host_daemon_set_json image in
    read (λ env. env.libraries.from_value value) >>= λ decoded.
    lift (to_outcome Error.json decoded) >> pure value
