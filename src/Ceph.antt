-- ===== src/Ceph.antt =====
-- src/shared/ceph and the controllers of volumes and images, which call it; and
-- src/utils/libvirt_storage.rs.
pub mod Calls
pub mod Lowlevel
pub mod Handles
pub mod Volumes
pub mod Images
pub mod Locations
