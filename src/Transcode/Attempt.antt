-- ===== src/Transcode/Attempt.antt =====
-- One attempt of internal/application/usecases/transcode_usecase.go, and where it leaves the job.
use video_encoder_service.Prelude.{ℕ, suc, String, ◌∷◌, ap}
use video_encoder_service.Types.Error.{Result, ok, err, panic, M, ◌>>=◌, ◌>>◌, wrapping}
use video_encoder_service.Types.Job.{Job, running}
use video_encoder_service.Jobs.Service.{update_status}
use video_encoder_service.Transcode.World.{
  World, Env, starts, log_event, on_jobs, change_state, time,
}
use video_encoder_service.Transcode.Limits.{Settings}
use video_encoder_service.Transcode.Execute.{process, get_or_create_state}
use video_encoder_service.Transcode.Finish.{execute_steps}
use video_encoder_service.Transcode.Keeps.{Keeps, IsCalm, keeps_rules}
use video_encoder_service.Transcode.Safe.{Safe, safe_rules}
use video_encoder_service.Transcode.SafeRun.{Keeps-execute_steps, Keeps-get_or_create_state}
use video_encoder_service.Transcode.Yields.{Yields, Given, Yields-next}
use video_encoder_service.Transcode.Settled.{Ran, Ran-quiet, Done, Failed}
use video_encoder_service.Transcode.Finished.{Yields-execute_steps}

-- Where a run of Execute leaves a job, after `n` attempts in all.
abbrev pub Ended : String → ℕ → Result (Unit {0}) × World → Type 0
Ended id n (ok t, w) = Done id n w
Ended id n (err e, w) = Failed id n w
Ended id n (panic, w) = ⊥

-- What one attempt does to a job.
abbrev pub Attempted : String → ℕ → Result (Unit {0}) × World → Type 0
Attempted id n (ok t, w) = Done id n w
Attempted id n (err e, w) = Safe id (Ran n) w
Attempted id n (panic, w) = ⊥

Attempted-of :
    (id : String) (n : ℕ) (r : Result (Unit {0}) × World)
    → Safe id (Ran n) r.1 × IsCalm r.0
    → Given (λ _. Done id n) r
    → Attempted id n r
Attempted-of id n (ok t, w) k y = y
Attempted-of id n (err e, w) k y = k.0
Attempted-of id n (panic, w) k y = absurd k.1

module _ (env : Env) (u : Settings) (base : String → String) (job : Job) where
  abbrev inner : M World (Unit {0})
  inner = do
    s ← wrapping "failed to get/create state: " (get_or_create_state env job)
    change_state (λ _. s)
    now ← time env
    wrapping "failed to update status: " (on_jobs (update_status job.id running now))
    execute_steps env u base job

  Keeps-inner : (n : ℕ) → Keeps (Safe job.id (Ran n)) inner
  Keeps-inner n =
      search (keeps_rules, safe_rules, Ran-quiet, Keeps-get_or_create_state, Keeps-execute_steps)
        depth 20

  Yields-inner : (n : ℕ) → Yields (Safe job.id (Ran n)) (λ _. Done job.id n) inner
  Yields-inner n =
      search
        (
          Yields-next, Yields-execute_steps, keeps_rules, safe_rules, Ran-quiet,
          Keeps-get_or_create_state,
        )
        depth 20

  pub process-Attempted :
      (n : ℕ) (w : World)
      → Safe job.id (Ran n) w
      → Attempted job.id (suc n) (process env u base job w)
  unfolding process log_event ◌>>=◌
  process-Attempted n w s =
      let w' : World = record w { log = starts job.id ∷ w.log } in
      let s' : Safe job.id (Ran (suc n)) w' = record {
        valid = s.valid;
        held = s.held;
        logged = ap suc s.logged;
      } in
      Attempted-of job.id (suc n) (inner w') ((Keeps-inner (suc n)).at w' s')
        ((Yields-inner (suc n)).at w' s')
