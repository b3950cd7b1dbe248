-- ===== src/Networks.antt =====
-- The controllers that keep the OVN northbound database up to date
-- (src/cluster/controllers/network.rs, router.rs and virtualmachine/ovn.rs).
pub mod Switches
pub mod Routers
pub mod MachinePorts
pub mod Deletion
pub mod Disconnection
pub mod Growth
pub mod Addresses
pub mod Setup
pub mod Connection
