-- ===== src/Services.antt =====
-- The daemon sets that the cluster controller keeps: OVN's central services, its controller on each
-- node, and the host controller.
pub mod Central
pub mod NodeAgent
pub mod HostAgent
