-- ===== src/Server.antt =====
-- The running service: the handlers of internal/api/handlers/job_handler.go over the services that
-- they call, the SchedulerService, the worker loop, and the recovery at the start.
pub mod State
pub mod Scheduler
pub mod Handlers
pub mod Batching
pub mod Sound
pub mod Rules
pub mod Serves
pub mod Answers
pub mod BatchRules
pub mod BatchAnswers
pub mod Recovery
pub mod Steps
pub mod Creation
pub mod Roundtrip
pub mod Resumption
pub mod Calls
pub mod Armed
pub mod Cancelled
pub mod Arrives
mod Tests
