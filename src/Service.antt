-- ===== src/Service.antt =====
-- cmd/core/service/resource_manager.go: the UE addresses and tunnel ids that the UPF hands out.
pub mod ResourceManager
pub mod Teids
pub mod IpCopies
pub mod TeidCopies
