-- ===== src/Tests.antt =====
-- Concrete libraries, planes and connections, with the theorems applied to them.
pub mod Libraries
pub mod Connections
pub mod Deletes
mod Ebpf
mod Service
mod Startup
mod Counters
mod Flows
mod Rest
mod Core
mod Requests
mod Heartbeat
mod Ledger
mod Crashes
mod Creates
