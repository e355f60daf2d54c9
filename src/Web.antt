-- ===== src/Web.antt =====
-- The stores of the browser client: web/src/stores and web/src/common/log-store.ts.
pub mod Search
pub mod EventStore
pub mod LogStore
pub mod Merging
pub mod ContainerStore
pub mod StackStore
pub mod Summaries
pub mod Utilities
