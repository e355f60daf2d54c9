-- ===== src/MockDocker/Api.antt =====
-- The HTTP interface of the daemon: mock-docker/src/server.ts and mock-docker/src/api.
pub mod LogStream
pub mod Router
pub mod Endpoints
pub mod Exec
pub mod Reply
pub mod Containers
pub mod Objects
pub mod Images
pub mod System
pub mod Requests
