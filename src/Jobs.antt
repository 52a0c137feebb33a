-- ===== src/Jobs.antt =====
-- The jobs in memory: the repository of internal/infrastructure/filesystem/repository.go and the
-- JobService of internal/application/services/job_service.go over it.
pub mod Repository
pub mod Service
pub mod Valid
pub mod View
pub mod Refines
pub mod History
pub mod Timing
mod Tests
