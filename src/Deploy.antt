-- ===== src/Deploy.antt =====
-- internal/deploy: the gate before a deployment and the quotas of a profile.
pub mod Gate
pub mod Quota
