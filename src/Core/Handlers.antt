-- ===== src/Core/Handlers.antt =====
-- The PFCP request handlers of cmd/core.
pub mod Apply
pub mod Establishment
pub mod Modification
pub mod Deletion
pub mod Association
pub mod Teardown
pub mod Dispatch
pub mod Effects
