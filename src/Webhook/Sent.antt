-- ===== src/Webhook/Sent.antt =====
-- How often SendWebhook tries, and how long it waits.
use video_encoder_service.Prelude.{
  ◌⊎◌, inl, inr, ℕ, zero, suc, ◌+◌, ◌*◌, ◌≤◌, ◌<◌, ◌≡◌, refl, ◌∙◌, ap, Bool, true, false, ◌&&◌,
  ◌||◌, List, [], ◌∷◌, ltb, leb, arith, Bool-cases, subst, str_append, decimal,
}
use video_encoder_service.Types.Error.{
  Error, message, Result, ok, err, panic, ◌>>=◌, pure, fail, try,
}
use video_encoder_service.Webhook.Service.{
  Reply, unsent, answered, Outbox, check_status, reply_outcome, sleep, next_request, back_off,
  max_retries_of, send_webhook_request, send_attempts, send_webhook,
}

-- The receiver accepts: it answers with a status of 200 to 299.
abbrev pub accepts : Reply → Bool
accepts (unsent what text) = false
accepts (answered status) = leb 200 status && ltb status 300

-- The waits before the attempts up to the given number, newest first.
abbrev pub waits : ℕ → List ℕ
waits zero = []
waits (suc n) = suc n * suc n ∷ waits n

-- No request of a number below `n` is accepted.
abbrev pub Refused : (ℕ → Reply) → ℕ → Type 0
Refused reply n = (k : ℕ) → k < n → accepts (reply k) ≡ false

-- A send that succeeds at the first accepted request, or fails when all are refused.
abbrev pub Sent : (ℕ → Reply) → ℕ → Result (Unit {0}) × Outbox → Type 0
Sent reply n (ok t, s) =
    (k : ℕ) × (k ≤ n)
    × (accepts (reply k) ≡ true)
    × Refused reply k
    × (s ≡ record { requests = suc k; sleeps = waits k })
Sent reply n (err e, s) =
    Refused reply (suc n) × (s ≡ record { requests = suc n; sleeps = waits n })
Sent reply n (panic, s) = ⊥

abbrev outbox : ℕ → List ℕ → Outbox
outbox n l = record { requests = n; sleeps = l }

below_or_at : (k n : ℕ) → k < suc n → (k < n) ⊎ (k ≡ n)
below_or_at k n h = elim (Bool-cases (ltb k n)) [
  | inl less ↦ inl (ground arith)
  | inr not_less ↦ inr (ground arith)
]

Refused-suc :
    (reply : ℕ → Reply) (n : ℕ)
    → Refused reply n
    → accepts (reply n) ≡ false
    → Refused reply (suc n)
Refused-suc reply n before here k lt = elim (below_or_at k n lt) [
  | inl less ↦ before k less
  | inr same ↦ ap (λ i. accepts (reply i)) same ∙ here
]

reply_accepted : (r : Reply) (s : Outbox) → accepts r ≡ true → reply_outcome r s ≡ (ok tt, s)
unfolding reply_outcome check_status pure fail
reply_accepted (unsent what text) s h = ground (arith, h)
reply_accepted (answered status) s h = ground (arith, h)

reply_refused :
    (r : Reply) (s : Outbox) → accepts r ≡ false → (e : Error) × (reply_outcome r s ≡ (err e, s))
unfolding reply_outcome check_status pure fail
reply_refused (unsent what text) s h = (_, refl)
reply_refused (answered status) s h = elim (Bool-cases (ltb status 200 || leb 300 status)) [
  | inl bad ↦
      (message (str_append "webhook returned non-success status: " (decimal status)), rw bad refl)
  | inr good ↦ ground (arith, h, good)
]

module _ (reply : ℕ → Reply) (max_retries : ℕ) where
  -- One round, before which all requests were refused, and the rounds after it.
  round-Sent :
      (left attempt : ℕ) (last : Error) (slept : List ℕ)
      → attempt ≤ max_retries
      → Refused reply attempt
      → back_off attempt (outbox attempt slept) ≡ (ok tt, outbox attempt (waits attempt))
      → ((e : Error)
          → Refused reply (suc attempt)
          → Sent reply max_retries (
              send_attempts reply max_retries left
                (suc attempt)
                e
                (outbox (suc attempt) (waits attempt))))
      → Sent reply max_retries
          (send_attempts reply max_retries (suc left) attempt last (outbox attempt slept))
  unfolding send_attempts send_webhook_request next_request ◌>>=◌ try pure fail
  round-Sent left attempt last slept within before backed after =
      let waited = outbox (suc attempt) (waits attempt) in
      elim (Bool-cases (accepts (reply attempt))) [
        | inl yields ↦ rw backed (
            rw (reply_accepted (reply attempt) waited yields)
              (attempt, within, yields, before, refl))
        | inr refuses ↦
            let (e, failed) = reply_refused (reply attempt) waited refuses in
            rw backed (rw failed (after e (Refused-suc reply attempt before refuses)))
      ]

  attempts-Sent :
      (left attempt : ℕ) (last : Error) (slept : List ℕ)
      → attempt + left ≡ max_retries
      → Refused reply attempt
      → back_off attempt (outbox attempt slept) ≡ (ok tt, outbox attempt (waits attempt))
      → Sent reply max_retries
          (send_attempts reply max_retries (suc left) attempt last (outbox attempt slept))
  unfolding send_attempts fail back_off sleep
  attempts-Sent zero attempt last slept sum before backed =
      let at_end : attempt ≡ max_retries = omega (arith, sum) in
      round-Sent zero attempt last slept (omega (arith, sum)) before backed λ e all.
        (subst (λ n. Refused reply (suc n)) at_end all, ap (λ n. outbox (suc n) (waits n)) at_end)
  attempts-Sent (suc left) attempt last slept sum before backed =
      round-Sent (suc left) attempt last slept (omega (arith, sum)) before backed
        λ e all. attempts-Sent left (suc attempt) e (waits attempt) (omega (arith, sum)) all refl

-- With `n` retries, 3 where the configuration has 0, SendWebhook stops at the first request that is
-- answered with a status of 200 to 299, and returns no error; where none of `n + 1` requests is, it
-- returns an error after exactly `n + 1` of them. Before its retry `k` it sleeps `k * k` seconds.
pub send_webhook-Sent :
    (reply : ℕ → Reply) (retries : ℕ)
    → Sent reply
        (max_retries_of retries)
        (send_webhook reply retries (record { requests = 0; sleeps = [] }))
unfolding send_webhook back_off pure
send_webhook-Sent reply retries =
    attempts-Sent reply (max_retries_of retries) (max_retries_of retries) 0 (message "") []
      (omega arith) (λ k lt. absurd (omega (arith, lt))) refl
