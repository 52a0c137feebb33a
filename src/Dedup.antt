-- ===== src/Dedup.antt =====
-- The DeduplicationCache of internal/infrastructure/cache/deduplication.go.
pub mod Cache
pub mod Reload
mod Tests
