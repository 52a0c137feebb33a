-- ===== src/Transcode/Gate.antt =====
-- The part of Execute that stands before an attempt other than the first.
use video_encoder_service.Prelude.{
  inl, inr, ℕ, zero, suc, ◌-◌, ◌≤◌, String, List, ◌∷◌, ◌≡◌, some, length, get_elem?,
  get_elem?_of_lt, ltb, arith, Bool-cases,
}
use video_encoder_service.Types.Error.{
  Error, Result, ok, err, panic, next, drop_error, ◌>>=◌, ◌>>◌, pure, fail, ignore,
}
use video_encoder_service.Types.Retry.{get_retry_strategy}
use video_encoder_service.Jobs.Service.{increment_retry}
use video_encoder_service.Transcode.World.{World, Env, sleeps, log_event, on_jobs}
use video_encoder_service.Transcode.Execute.{handle_error, retry_after, before_retry, gate}
use video_encoder_service.Transcode.Keeps.{Keeps, IsCalm, keeps_rules}
use video_encoder_service.Transcode.Safe.{Safe, safe_rules}
use video_encoder_service.Transcode.Settled.{Ran, Ran-quiet, Failed}
use video_encoder_service.Transcode.Attempt.{Ended}
use video_encoder_service.Transcode.Backoff.{get_retry_strategy-Sound}
use video_encoder_service.Transcode.GiveUp.{refused-Ended}

backoff-short : (code : String) → length (get_retry_strategy code).backoff ≤ 3
backoff-short code = let (waits, few, never) = get_retry_strategy-Sound code in omega arith

-- The gate before an attempt lets it run, after three retries at most, or ends the run.
abbrev pub Gated : String → ℕ → ℕ → Result (Unit {0}) × World → Type 0
Gated id n attempt (ok t, w) = Safe id (Ran n) w × (attempt ≤ 3)
Gated id n attempt (err e, w) = Failed id n w
Gated id n attempt (panic, w) = ⊥

Gated-of_Ended :
    (id : String) (n attempt : ℕ) (e : Error) (r : Result (Unit {0}) × World)
    → Ended id n (next (λ _. fail e) r)
    → Gated id n attempt (next (λ _. fail e) r)
unfolding fail
Gated-of_Ended id n attempt e (ok t, w) h = h
Gated-of_Ended id n attempt e (err x, w) h = h
Gated-of_Ended id n attempt e (panic, w) h = h

module _ (env : Env) (id : String) (n : ℕ) where
  refused-Gated :
      (attempt : ℕ) (stage code text : String) (last : Error) (w : World)
      → Safe id (Ran n) w
      → Gated id n attempt ((do handle_error env id stage code text; fail last) w)
  unfolding ◌>>=◌
  refused-Gated attempt stage code text last w s =
      Gated-of_Ended id n attempt last (handle_error env id stage code text w)
        (refused-Ended env id n stage code text last w s)

  waited :
      (attempt : ℕ) (r : Result (Unit {0}) × World)
      → attempt ≤ 3
      → Safe id (Ran n) (drop_error r).1 × IsCalm (drop_error r).0
      → Gated id n attempt (drop_error r)
  waited attempt (ok t, w) le h = (h.0, le)
  waited attempt (err e, w) le h = (h.0, le)
  waited attempt (panic, w) le h = absurd h.1

  slept :
      (attempt : ℕ) (last : Error) (seconds : ℕ) (w : World)
      → attempt ≤ 3
      → Safe id (Ran n) w
      → Gated id n attempt (retry_after env id last (some seconds) w)
  unfolding retry_after ◌>>=◌ log_event ignore
  slept attempt last seconds w le s =
      let w' : World = record w { log = sleeps seconds ∷ w.log } in
      let kept : Keeps (Safe id (Ran n)) (ignore (on_jobs (increment_retry id))) =
        search (keeps_rules, safe_rules, Ran-quiet) depth 9 in
      waited attempt (on_jobs (increment_retry id) w') le
        (kept.at w' (record { valid = s.valid; held = s.held; logged = s.logged }))

  retry-Gated :
      (attempt : ℕ) (last : Error) (backoff : List ℕ) (w : World)
      → length backoff ≤ 3
      → suc attempt ≤ length backoff
      → Safe id (Ran n) w
      → Gated id n (suc attempt) (retry_after env id last (get_elem? backoff attempt) w)
  retry-Gated attempt last backoff w short le s =
      let (seconds, found) = get_elem?_of_lt backoff attempt (omega arith) in
      rw found (slept (suc attempt) last seconds w (omega arith) s)

  pub gate-Gated :
      (attempt : ℕ) (last : Error) (code : String) (w : World)
      → Safe id (Ran n) w
      → Gated id n attempt (gate env id attempt last code w)
  unfolding gate before_retry pure
  gate-Gated zero last code w s = (s, omega arith)
  gate-Gated (suc attempt) last code w s =
      let strategy = get_retry_strategy code in
      elim (Bool-cases strategy.should_retry) [
        | inr never ↦ rw never (refused-Gated (suc attempt) "validation" code _ last w s)
        | inl again ↦ rw again (elim (Bool-cases (ltb (length strategy.backoff) (suc attempt))) [
          | inl over ↦ rw over (refused-Gated (suc attempt) "retry" code _ last w s)
          | inr within ↦ rw within (
              let back : suc attempt - 1 ≡ attempt = omega arith in
              rw back (
                retry-Gated attempt last strategy.backoff w (backoff-short code)
                  (ground (arith, within)) s))
        ])
      ]
