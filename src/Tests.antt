-- ===== src/Tests.antt =====
-- Runs of the program on one small system: an application in two clusters, its client, and their
-- traffic configurations.
pub mod Data
pub mod Caches
pub mod Handlers
pub mod VirtualServices
pub mod RateLimits
pub mod Registry
pub mod Events
