-- ===== src/Scenarios.antt =====
-- Concrete inputs: the theorems at inputs that exercise the code, and tests.
mod Statuses
mod Validation
mod Recoveries
mod Plans
mod Leases
mod Executors
mod Deployments
mod Waves
mod Policies
mod Operations
mod Receipts
mod Portfolios
mod ChangeSets
mod Integrations
