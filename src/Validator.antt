-- ===== src/Validator.antt =====
-- The FileValidator of internal/infrastructure/filesystem/validator.go.
pub mod Check
pub mod Extension
mod Accepts
mod Tests
pub use Accepts.*
