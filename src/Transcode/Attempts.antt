-- ===== src/Transcode/Attempts.antt =====
-- Execute of internal/application/usecases/transcode_usecase.go: its rounds, and where it leaves
-- the job.
use video_encoder_service.Prelude.{
  ◌⊎◌, inl, inr, ℕ, zero, suc, ◌+◌, ◌≤◌, String, ◌≡◌, refl, some, subst, arith,
}
use video_encoder_service.Types.Error.{
  Error, message, Result, ok, err, panic, M, next, outcome, ◌>>=◌, pure, try,
}
use video_encoder_service.Types.Job.{Job}
use video_encoder_service.Jobs.Valid.{IsValid}
use video_encoder_service.Jobs.View.{find}
use video_encoder_service.Transcode.World.{World, Env}
use video_encoder_service.Transcode.Errors.{extract_error_code}
use video_encoder_service.Transcode.Limits.{Settings}
use video_encoder_service.Transcode.Execute.{process, gate, give_up, attempts, execute}
use video_encoder_service.Transcode.Safe.{Safe}
use video_encoder_service.Transcode.Settled.{starts_in, Ran, Done, Failed}
use video_encoder_service.Transcode.Attempt.{Ended, Attempted, process-Attempted}
use video_encoder_service.Transcode.GiveUp.{give_up-Ended}
use video_encoder_service.Transcode.Gate.{Gated, gate-Gated}

module _ (env : Env) (u : Settings) (id : String) (attempt_once : M World (Unit {0}))
    (once : (n : ℕ) (w : World) → Safe id (Ran n) w → Attempted id (suc n) (attempt_once w)) where
  -- From some number of rounds on: how many more attempts there are, and how they end.
  abbrev Rest : ℕ → ℕ → ℕ → Result (Unit {0}) × World → Type 0
  Rest left attempt n r = (k : ℕ) × (k ≤ left) × (attempt + k ≤ 4) × Ended id (n + k) r

  abbrev round : ℕ → ℕ → Error ⊎ Unit {0} → M World (Unit {0})
  round left attempt r = elim r [
    | inr t ↦ pure t
    | inl e ↦ attempts env u id attempt_once left (suc attempt) e (extract_error_code e)
  ]

  after_attempt :
      (left attempt n : ℕ) (r : Result (Unit {0}) × World)
      → attempt ≤ 3
      → ((e : Error) (w : World)
          → Safe id (Ran (suc n)) w
          → Rest left
              (suc attempt)
              (suc n)
              (attempts env u id attempt_once left (suc attempt) e (extract_error_code e) w))
      → Attempted id (suc n) r
      → (k : ℕ) × (k ≤ left)
        × (attempt + suc k ≤ 4)
        × Ended id (n + suc k) (next (round left attempt) (outcome r))
  unfolding pure
  after_attempt left attempt n (ok t, w) le rest h =
      (0, omega arith, omega arith, subst (λ i. Done id i w) (omega arith) h)
  after_attempt left attempt n (err e, w) le rest h =
      let (k, few, all, ended) = rest e w h in
      (
        k,
        few,
        omega arith,
        subst
            (λ i.
              Ended id i
                (attempts env u id attempt_once left (suc attempt) e (extract_error_code e) w))
            (omega arith) ended,
      )
  after_attempt left attempt n (panic, w) le rest h = absurd h

  after_gate :
      (left attempt n : ℕ) (r : Result (Unit {0}) × World)
      → attempt ≤ 4
      → ((w : World)
          → attempt ≤ 3
          → Safe id (Ran n) w
          → (k : ℕ) × (k ≤ left)
            × (attempt + suc k ≤ 4)
            × Ended id (n + suc k) (next (round left attempt) (outcome (attempt_once w))))
      → Gated id n attempt r
      → Rest (suc left) attempt n (next (λ _. (try attempt_once) >>= round left attempt) r)
  unfolding ◌>>=◌ try
  after_gate left attempt n (ok t, w) le run h =
      let (k, few, all, ended) = run w h.1 h.0 in (suc k, omega arith, all, ended)
  after_gate left attempt n (err e, w) le run h =
      (0, omega arith, omega arith, subst (λ i. Failed id i w) (omega arith) h)
  after_gate left attempt n (panic, w) le run h = absurd h

  attempts-Ended :
      (left attempt n : ℕ) (last : Error) (code : String) (w : World)
      → attempt ≤ 4
      → Safe id (Ran n) w
      → Rest left attempt n (attempts env u id attempt_once left attempt last code w)
  unfolding attempts ◌>>=◌
  attempts-Ended zero attempt n last code w le s = (
    0,
    omega arith,
    omega arith,
    subst (λ i. Ended id i (give_up env u id last code w)) (omega arith)
        (give_up-Ended env id n u last code w s),
  )
  attempts-Ended (suc left) attempt n last code w le s =
      after_gate left attempt n (gate env id attempt last code w) le
        (λ w' le' s'.
          after_attempt left attempt n (attempt_once w') le'
            (λ e w'' s''.
              attempts-Ended left (suc attempt) (suc n) e (extract_error_code e) w'' (omega arith)
                s'')
            (once n w' s'))
        (gate-Gated env id n attempt last code w s)

  first_round :
      (left n : ℕ) (last : Error) (code : String) (w : World)
      → Safe id (Ran n) w
      → (k : ℕ) × (k ≤ left)
        × (suc k ≤ 4)
        × Ended id (n + suc k) (attempts env u id attempt_once (suc left) 0 last code w)
  unfolding attempts gate pure try ◌>>=◌
  first_round left n last code w s =
      let (k, few, all, ended) =
        after_attempt left 0 n (attempt_once w) (omega arith)
          (λ e w' s'. attempts-Ended left 1 (suc n) e (extract_error_code e) w' (omega arith) s')
          (once n w s) in
      (k, few, omega arith, ended)

-- Execute, on a job that the repository has, never panics. It makes at least one attempt, at most
-- one more than the configured retries, and never more than four. It leaves the job COMPLETED or
-- PARTIAL_SUCCESS when it returns no error, and FAILED with an error recorded when it returns one;
-- and the repository is well formed.
pub execute-Ended :
    (env : Env) (u : Settings) (base : String → String) (job held : Job) (w : World)
    → IsValid w.jobs
    → find w.jobs job.id ≡ some held
    → (k : ℕ) × (1 ≤ k)
      × (k ≤ u.max_retries + 1)
      × (k ≤ 4)
      × Ended job.id (starts_in w.log + k) (execute env u base job w)
unfolding execute
execute-Ended env u base job held w v at =
    let s : Safe job.id (Ran (starts_in w.log)) w = record {
      valid = v;
      held = (held, at, tt);
      logged = refl;
    } in
    let (k, few, four, ended) =
      first_round env u job.id (process env u base job) (process-Attempted env u base job)
        u.max_retries (starts_in w.log) (message "") "" w s in
    (suc k, omega arith, omega arith, four, ended)
