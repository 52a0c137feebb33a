-- ===== src/Metrics.antt =====
-- internal/application/services/metrics_service.go.
pub mod Service
pub mod Peaks
pub mod Reloaded
pub mod Tests
