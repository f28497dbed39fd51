-- ===== src/Core.antt =====
-- cmd/core: the PFCP side of the UPF.
pub mod ParseIp
pub mod Sdf
pub mod Session
pub mod Ie
pub mod Rules
pub mod Display
pub mod Work
pub mod PdrContext
pub mod Connection
pub mod GtpPaths
pub mod Requests
pub mod Heartbeat
pub mod Metrics
pub mod Handlers
pub mod Invariant
