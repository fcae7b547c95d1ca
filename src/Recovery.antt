-- ===== src/Recovery.antt =====
-- internal/recovery: failure signatures, the retry policy, the PROVEN_BLOCKED verdict and the
-- liveness supervisor, each in a module of its own.
pub mod Signature
pub mod Retry
pub mod Backoff
pub mod Blocked
pub mod Liveness
pub mod Supervisor
