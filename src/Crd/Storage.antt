-- ===== src/Crd/Storage.antt =====
-- src/crd/ceph.rs, src/crd/cluster.rs and src/crd/libvirtnode.rs. No controller reads or writes a volume's, an image's or
-- a cluster's status.
use cluster_controller.Prelude.{String, Option}
use cluster_controller.Crd.Meta.{ObjectMeta}

pub record VolumeSpec : Type 0 where
  pub size : String
  pub template : Option String

pub record Volume : Type 0 where
  pub metadata : ObjectMeta
  pub spec : VolumeSpec

pub record ImageSpec : Type 0 where
  pub source : String

pub record Image : Type 0 where
  pub metadata : ObjectMeta
  pub spec : ImageSpec

pub record ClusterSpec : Type 0 where
  pub machine_type : String
  pub cpu : String

pub record Cluster : Type 0 where
  pub metadata : ObjectMeta
  pub spec : ClusterSpec

pub record LibvirtNodeStatus : Type 0 where
  pub capabilities : String

pub record LibvirtNode : Type 0 where
  pub metadata : ObjectMeta
  pub status : Option LibvirtNodeStatus
