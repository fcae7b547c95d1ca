-- ===== src/Kernel.antt =====
-- internal/kernel: the leases, the choice of executors and the change-set saga.
pub mod ExternalOp
pub mod ChangeSet
pub mod Integrator
pub mod Receipts
pub mod Lease
pub mod Select
