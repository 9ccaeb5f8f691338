-- ===== src/Sync/Progress.antt =====
-- A Sync in a healthy cluster ends.
pub mod Certificates
pub mod Policies
pub mod Rendering
pub mod Gate
pub mod Ending
pub mod Healthy
