-- ===== src/Webhook/Service.antt =====
-- SendWebhook of webhook_service.go. The payload, whose JSON and signature the receiver reads, is
-- left out, and so are the jobs that the two wrappers build one from; the number of retries is not
-- negative.
use video_encoder_service.Prelude.{
  inl, inr, ℕ, zero, suc, ◌+◌, ◌*◌, String, ◌||◌, List, ◌∷◌, if◌then◌else◌, ltb, leb, ◌==◌,
  str_append, decimal,
}
use video_encoder_service.Types.Error.{Error, message, wrap, ok, M, ◌>>=◌, ◌>>◌, pure, fail, try}

-- What a request comes to: no answer, for want of a body, a request or a connection, or a status.
pub data Reply : Type 0 where
  unsent : (what text : String) → Reply
  answered : (status : ℕ) → Reply

-- The requests made so far, and the seconds slept before them, newest first.
pub record Outbox : Type 0 where
  pub requests : ℕ
  pub sleeps : List ℕ

-- The check of the response of sendWebhookRequest.
unfoldable pub check_status : ℕ → M Outbox (Unit {0})
check_status status =
    if ltb status 200 || leb 300 status
    then fail (message (str_append "webhook returned non-success status: " (decimal status)))
    else pure tt

unfoldable pub reply_outcome : Reply → M Outbox (Unit {0})
reply_outcome (unsent what text) = fail (wrap what (message text))
reply_outcome (answered status) = check_status status

unfoldable pub sleep : ℕ → M Outbox (Unit {0})
sleep seconds s = (ok tt, record s { sleeps = seconds ∷ s.sleeps })

-- The number of the request, from 0.
unfoldable pub next_request : M Outbox ℕ
next_request s = (ok s.requests, record s { requests = suc s.requests })

-- "Exponential backoff" before all attempts but the first.
unfoldable pub back_off : ℕ → M Outbox (Unit {0})
back_off zero = pure tt
back_off (suc n) = sleep (suc n * suc n)

unfoldable pub max_retries_of : ℕ → ℕ
max_retries_of retries = if retries == 0 then 3 else retries

unfoldable pub exhausted : ℕ → Error → Error
exhausted max_retries last =
    wrap (str_append "webhook failed after " (str_append (decimal (max_retries + 1)) " attempts: "))
      last

-- `reply` is what the receiver does to the request of each number.
module _ (reply : ℕ → Reply) where
  unfoldable pub send_webhook_request : M Outbox (Unit {0})
  send_webhook_request = do n ← next_request; reply_outcome (reply n)

  -- The loop of SendWebhook, with the rounds that are left.
  unfoldable pub send_attempts : ℕ → ℕ → ℕ → Error → M Outbox (Unit {0})
  send_attempts max_retries zero attempt last = fail (exhausted max_retries last)
  send_attempts max_retries (suc left) attempt last = do
    back_off attempt
    r ← try send_webhook_request
    elim r [ inr t ↦ pure t | inl e ↦ send_attempts max_retries left (suc attempt) e ]

  -- SendWebhook. There is a round for every attempt, and one at least, so that the initial error is
  -- not returned.
  unfoldable pub send_webhook : ℕ → M Outbox (Unit {0})
  send_webhook retries =
      send_attempts (max_retries_of retries) (suc (max_retries_of retries)) 0 (message "")
