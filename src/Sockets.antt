-- ===== src/Sockets.antt =====
-- The registry of internal/infrastructure/websocket/manager.go.
pub mod Manager
pub mod Counts
mod Tests
