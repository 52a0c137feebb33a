-- ===== src/Batches.antt =====
-- internal/application/services/batch_service.go.
pub mod Service
pub mod Status
pub mod Tests
