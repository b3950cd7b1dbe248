-- ===== src/Crd/Meta.antt =====
-- Metadata of Kubernetes objects and the node object, with the fields that the program reads.
use cluster_controller.Prelude.{String, Option, none, List}

pub record ObjectMeta : Type 0 where
  pub name : Option String
  pub namespace : Option String
  pub labels : Option (List (String × String))
  pub annotations : Option (List (String × String))
  pub finalizers : Option (List String)
  pub deletion_timestamp : Option String

abbrev pub no_meta : ObjectMeta
no_meta = record {
  name = none;
  namespace = none;
  labels = none;
  annotations = none;
  finalizers = none;
  deletion_timestamp = none;
}

pub record NodeAddress : Type 0 where
  pub type_ : String
  pub address : String

pub record NodeStatus : Type 0 where
  pub addresses : Option (List NodeAddress)

pub record Node : Type 0 where
  pub metadata : ObjectMeta
  pub status : Option NodeStatus
