-- ===== src/MockDocker.antt =====
-- The Docker daemon that the end-to-end tests run against: mock-docker/src.
pub mod Types
pub mod State
pub mod LogTemplates
pub mod Stream
pub mod Clock
pub mod Events
pub mod Names
pub mod Runtime
pub mod Deterministic
pub mod World
pub mod Logs
pub mod Membership
pub mod Containers
pub mod Disposal
pub mod Creation
pub mod Networks
pub mod Resources
pub mod Lifecycle
pub mod Filters
pub mod Projections
pub mod Top
pub mod Shell
pub mod Compose
pub mod Api
pub mod Script
pub mod Initial
