-- ===== src/Transcode/Backoff.antt =====
-- The retry strategies of pkg/types/retry.go.
use video_encoder_service.Prelude.{
  ◌≡◌, ◌≤◌, ◌↔◌, refl, String, false, [], ◌∷◌, length, one_of, arith, Bool-cases, inl, inr,
}
use video_encoder_service.Types.Retry.{
  RetryStrategy, get_retry_strategy, ffmpeg_codes, code_io_error, invalid_codes, full_codes,
}

abbrev pub Sound : RetryStrategy → Type 0
Sound s =
    (length s.backoff ≡ s.max_attempts)
    × (s.max_attempts ≤ 3)
    × ((s.should_retry ≡ false) ↔ (s.max_attempts ≡ 0))

-- Every error code has a strategy with one wait for each of its retries, of which there are three
-- at most, and none exactly when the strategy says not to retry.
pub get_retry_strategy-Sound : (code : String) → Sound (get_retry_strategy code)
unfolding get_retry_strategy
get_retry_strategy-Sound code = elim (Bool-cases (one_of code ffmpeg_codes)) [
  | inl h ↦ rw h (refl, omega arith, ground arith)
  | inr h ↦ rw h (elim (Bool-cases (one_of code (code_io_error ∷ []))) [
    | inl h1 ↦ rw h1 (refl, omega arith, ground arith)
    | inr h1 ↦ rw h1 (elim (Bool-cases (one_of code invalid_codes)) [
      | inl h2 ↦ rw h2 (refl, omega arith, ground arith)
      | inr h2 ↦ rw h2 (elim (Bool-cases (one_of code full_codes)) [
        | inl h3 ↦ rw h3 (refl, omega arith, ground arith)
        | inr h3 ↦ rw h3 (refl, omega arith, ground arith)
      ])
    ])
  ])
]
