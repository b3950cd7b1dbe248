-- ===== src/Crd.antt =====
-- The objects that the controllers reconcile: custom resources (src/crd) and the parts of
-- Kubernetes' own objects that the program reads.
mod Meta
mod Vms
mod Networks
mod Storage
pub use Meta.*
pub use Vms.*
pub use Networks.*
pub use Storage.*
