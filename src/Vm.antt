-- ===== src/Vm.antt =====
-- The virtual machine controller of the cluster (src/cluster/controllers/virtualmachine) and the
-- node controller (src/cluster/controllers/node.rs).
pub mod Annotations
pub mod Scheduling
pub mod Nics
pub mod Reconcile
pub mod Maintenance
