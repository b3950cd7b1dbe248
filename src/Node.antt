-- ===== src/Node.antt =====
-- src/utils/traits/node.rs and src/labels_and_annotations.rs: what a node's labels and annotations
-- say about it.
use cluster_controller.Prelude.{
  String, Bool, false, not, Option, none, some, ◌==◌, if◌then◌else◌, and_then, map_option, lookup,
  find, lowercase, codes, codes_eq,
}
use cluster_controller.Crd.{ObjectMeta, Node, NodeAddress}

abbrev pub ovn_controller_management_label : String
ovn_controller_management_label = "cluster-virt.acl.fi/ovn-controller-installation"

abbrev pub ovn_central_managed_label : String
ovn_central_managed_label = "cluster-virt.acl.fi/ovn-central-installation"

abbrev pub ovn_central_ip_annotation : String
ovn_central_ip_annotation = "cluster-virt.acl.fi/ovn-central-ip"

abbrev pub maintenance_annotation : String
maintenance_annotation = "cluster-virt.acl.fi/maintenance"

abbrev pub no_schedule_annotation : String
no_schedule_annotation = "cluster-virt.acl.fi/no-schedule"

abbrev pub migration_request_annotation : String
migration_request_annotation = "cluster-virt.acl.fi/migration-required"

pub data OvnCentralManagement : Type 0 where
  managed unmanaged not_present : OvnCentralManagement

-- `metadata.annotations.as_ref().and_then(|a| a.get(key))`
abbrev pub annotation : String → ObjectMeta → Option String
annotation key meta = and_then meta.annotations (lookup key)

abbrev pub label : String → ObjectMeta → Option String
label key meta = and_then meta.labels (lookup key)

-- `value.map(|v| v.to_lowercase()) == Some(word)`
abbrev pub reads : Option String → String → Bool
reads none word = false
reads (some v) word = codes_eq (lowercase v) (codes word)

unfoldable pub in_maintenance_mode : Node → Bool
in_maintenance_mode node = reads (annotation maintenance_annotation node.metadata) "true"

unfoldable pub allows_scheduling : Node → Bool
allows_scheduling node = not (reads (annotation no_schedule_annotation node.metadata) "true")

unfoldable pub ovn_central_status : Node → OvnCentralManagement
ovn_central_status node =
    let v = label ovn_central_managed_label node.metadata in
    if reads v "managed" then managed else if reads v "unmanaged" then unmanaged else not_present

unfoldable pub ovn_central_annotated_ip : Node → Option String
ovn_central_annotated_ip node = annotation ovn_central_ip_annotation node.metadata

unfoldable pub internal_ip : Node → Option String
internal_ip node =
    map_option (λ (a : NodeAddress). a.address)
      (and_then (and_then node.status (λ s. s.addresses))
        (find (λ (addr : NodeAddress). addr.type_ == "InternalIP")))
