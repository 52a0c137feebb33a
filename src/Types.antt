-- ===== src/Types.antt =====
-- The data types of pkg/types, with their methods.
pub mod Error
pub mod Triple
pub mod Job
pub mod State
pub mod Retry
pub mod Encoding
