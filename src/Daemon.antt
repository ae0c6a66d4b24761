-- ===== src/Daemon.antt =====
-- The daemon (daemon/daemon.go, daemon/worker.go): a table of workers and the commands on it.
pub mod Monitor
pub mod Worker
pub mod Params
pub mod Target
pub mod State
pub mod Select
pub mod Commands
pub mod Show
pub mod Dispatch
pub mod Supervisor
pub mod Backoff
pub mod Sample
