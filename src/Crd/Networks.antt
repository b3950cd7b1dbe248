-- ===== src/Crd/Networks.antt =====
-- src/crd/network.rs and src/crd/router.rs.
use cluster_controller.Prelude.{ℕ, String, Bool, Option, List}
use cluster_controller.Crd.Meta.{ObjectMeta}

-- The DHCP settings of a network: `DhcpOptions` of src/crd/network.rs.
pub record DhcpSpec : Type 0 where
  pub cidr : String
  pub lease_time : Option ℕ
  pub dns_server : Option String
  pub domain_name : Option String
  pub router : Option String

pub record RouterAttachment : Type 0 where
  pub name : String
  pub address : String

pub data NetworkType : Type 0 where
  ovn evpn : NetworkType

pub record NetworkSpec : Type 0 where
  pub dhcp : Option DhcpSpec
  pub routers : Option (List RouterAttachment)
  pub network_type : Option NetworkType
  pub network_id : Option ℕ
  pub bridge : Option String

pub record NetworkStatus : Type 0 where
  pub is_created : Bool

pub record Network : Type 0 where
  pub metadata : ObjectMeta
  pub spec : NetworkSpec
  pub status : Option NetworkStatus

pub record Route : Type 0 where
  pub cidr : String
  pub nexthop : String

pub record RouterSpec : Type 0 where
  pub routes : Option (List Route)
  pub metadata_service : Option Bool

pub record RouterStatus : Type 0 where
  pub is_created : Bool

pub record Router : Type 0 where
  pub metadata : ObjectMeta
  pub spec : RouterSpec
  pub status : Option RouterStatus
