-- ===== src/Host.antt =====
-- The controller that runs on every host and keeps its libvirt domains (src/host/libvirt).
pub mod Machines
pub mod Evpn
pub mod Domains
pub mod Handlers
pub mod Controller
pub mod Secrets
pub mod Startup
