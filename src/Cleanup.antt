-- ===== src/Cleanup.antt =====
-- The automatic cleanup of internal/application/services/disk_service.go.
pub mod Service
pub mod Order
pub mod Priority
pub mod Spared
pub mod Tidied
mod Tests
