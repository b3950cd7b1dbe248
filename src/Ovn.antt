-- ===== src/Ovn.antt =====
-- The client of the OVN northbound database (src/interfaces/ovn).
pub mod Deserialization
pub mod Jsonrpc
pub mod Growth
pub mod Lowlevel
pub mod Common
pub mod Types
pub mod Ports
pub mod RouterPorts
pub mod Routes
pub mod Dhcp
pub mod Connect
