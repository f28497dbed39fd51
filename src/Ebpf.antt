-- ===== src/Ebpf.antt =====
-- cmd/ebpf: the forwarding plane's tables, the ids handed out for them, and their interface.
pub mod Types
pub mod Kernel
pub mod IdTracker
pub mod Controller
pub mod Pdr
pub mod Objects
pub mod Stats
pub mod Load
