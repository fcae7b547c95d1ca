-- ===== src/Pec.antt =====
-- internal/pec: what the planner proposes to the kernel.
pub mod Waves
