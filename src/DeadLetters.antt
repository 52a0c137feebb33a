-- ===== src/DeadLetters.antt =====
-- The DLQService of internal/application/services/dlq_service.go, of which Transcode.Execute has
-- MoveToDLQ.
pub mod Service
pub mod Fresh
mod Tests
