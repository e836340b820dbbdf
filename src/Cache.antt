-- ===== src/Cache.antt =====
-- internal/cache: the shared state of the program, a cache in each file.
pub mod Nested
pub mod Deployments
pub mod Rollouts
pub mod Services
pub mod Identities
pub mod Dependencies
pub mod TrafficConfigs
pub mod Clusters
pub mod Controllers
