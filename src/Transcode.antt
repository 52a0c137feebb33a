-- ===== src/Transcode.antt =====
-- The transcode use case of internal/application/usecases/transcode_usecase.go, with the services
-- that it drives.
pub mod World
pub mod Store
pub mod Errors
pub mod Encoder
pub mod Limits
pub mod Qualities
pub mod Steps
pub mod Finish
pub mod Execute
pub mod Keeps
pub mod Framed
pub mod Safe
pub mod SafeSteps
pub mod SafeRun
pub mod Yields
pub mod Settled
pub mod Finished
pub mod Attempt
pub mod GiveUp
pub mod Backoff
pub mod Gate
pub mod Attempts
pub mod Atomic
pub mod Resume
pub mod Steady
pub mod Completed
pub mod Once
pub mod Beside
pub mod Returns
pub mod Selection
pub mod Codes
pub mod Tests
pub mod Lost
pub mod Found
pub mod Whole
