-- ===== src/Webhook.antt =====
-- The WebhookService of internal/application/services/webhook_service.go.
pub mod Service
pub mod Sent
mod Tests
