-- ===== src/Workloads.antt =====
-- What the program applies to the API server beside its own resources: the fields of Kubernetes'
-- workloads, service accounts, roles and resource definitions that it sets or reads.
use cluster_controller.Prelude.{String, Bool, Option, List}
use cluster_controller.Json.{Value}
use cluster_controller.Crd.{ObjectMeta}

pub record EnvVar : Type 0 where
  pub name : String
  pub value : Option String

pub record VolumeMount : Type 0 where
  pub name : String
  pub mount_path : String

pub data VolumeSource : Type 0 where
  -- path and type
  host_path : String → Option String → VolumeSource
  empty_dir : VolumeSource

pub record PodVolume : Type 0 where
  pub name : String
  pub source : VolumeSource

pub record Container : Type 0 where
  pub name : String
  pub image : Option String
  pub command : Option (List String)
  pub args : Option (List String)
  pub env : Option (List EnvVar)
  -- resources that are requested
  pub requests : Option (List (String × String))
  pub volume_mounts : Option (List VolumeMount)
  pub privileged : Option Bool

pub record PodSpec : Type 0 where
  pub containers : List Container
  pub node_selector : Option (List (String × String))
  pub volumes : Option (List PodVolume)
  pub host_network : Option Bool
  pub dns_policy : Option String

pub record PodTemplate : Type 0 where
  pub labels : Option (List (String × String))
  pub pod : PodSpec

pub record DaemonSet : Type 0 where
  pub metadata : ObjectMeta
  pub match_labels : Option (List (String × String))
  pub template : PodTemplate
  pub update_strategy : Option String

pub record PolicyRule : Type 0 where
  pub api_groups : Option (List String)
  pub resources : Option (List String)
  pub verbs : List String

pub record Subject : Type 0 where
  pub kind : String
  pub name : String
  pub namespace : Option String

pub record RoleRef : Type 0 where
  pub api_group : String
  pub kind : String
  pub name : String

pub record ServiceAccount : Type 0 where
  pub metadata : ObjectMeta

pub record ClusterRole : Type 0 where
  pub metadata : ObjectMeta
  pub rules : Option (List PolicyRule)

pub record ClusterRoleBinding : Type 0 where
  pub metadata : ObjectMeta
  pub role_ref : RoleRef
  pub subjects : Option (List Subject)

-- A version of a custom resource: its name, and its schema and the rest.
pub record CrdVersion : Type 0 where
  pub name : String
  pub body : Value

pub record Condition : Type 0 where
  pub type_ : String
  pub status : String

pub record DefinitionStatus : Type 0 where
  pub stored_versions : Option (List String)
  pub conditions : Option (List Condition)

-- `CustomResourceDefinition`
pub record Definition : Type 0 where
  pub name : String
  pub versions : List CrdVersion
  pub status : Option DefinitionStatus

pub data WatchEvent : Type 0 where
  added modified deleted bookmark : Definition → WatchEvent
  watch_error : String → WatchEvent

-- A deployment as it is read: of each container its image. `none` where `.spec` is missing, and
-- below it where `.spec.template.spec` is.
pub record RunningDeployment : Type 0 where
  pub images : Option (Option (List (Option String)))

-- An object of `Patch::Apply`. Objects that the program decodes from JSON are the JSON value.
pub data Manifest : Type 0 where
  of_service_account : ServiceAccount → Manifest
  of_cluster_role : ClusterRole → Manifest
  of_cluster_role_binding : ClusterRoleBinding → Manifest
  of_daemon_set : DaemonSet → Manifest
  of_definition : Definition → Manifest
  of_json : Value → Manifest
