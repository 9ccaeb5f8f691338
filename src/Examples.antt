-- ===== src/Examples.antt =====
-- Concrete Instances, gates and clusters, and each theorem with hypotheses applied to one of them.
pub mod Data
mod Wiring
mod Gate
mod Later
mod Secrets
mod Exposure
mod Removal
mod Environment
mod Rendering
mod Syncing
mod Finished
mod Healthy
mod Monitored
mod Access
mod Validating
