-- ===== src/Cli.antt =====
-- The docker command that stands in for the real one: mock-docker/cli.
pub mod Demux
pub mod Progress
pub mod Flags
pub mod SocketClient
