-- ===== src/Webhook/Tests.antt =====
-- SendWebhook to a receiver that is down for two requests.
use video_encoder_service.Prelude.{ℕ, zero, suc, []}
use video_encoder_service.Webhook.Service.{Reply, unsent, answered, send_webhook, max_retries_of}
use video_encoder_service.Webhook.Sent.{Sent, send_webhook-Sent}

abbrev flaky : ℕ → Reply
flaky zero = unsent "failed to send webhook request: " "connection refused"
flaky (suc zero) = answered 503
flaky (suc (suc n)) = answered 204

send_webhook-Sent_example :
    Sent flaky (max_retries_of 5) (send_webhook flaky 5 (record { requests = 0; sleeps = [] }))
send_webhook-Sent_example = send_webhook-Sent flaky 5
