-- ===== src/Tests.antt =====
-- Runs of the program on a small shop, and the theorems applied to them.
pub mod Setup
pub mod Stock
pub mod Limits
pub mod Sessions
pub mod Door
pub mod Again
pub mod Requests
pub mod Page
pub mod Rush
pub mod Logs
pub mod Lives
