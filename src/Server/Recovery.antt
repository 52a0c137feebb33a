-- ===== src/Server/Recovery.antt =====
-- resumeOrphanedJobs of cmd/api/main.go: at the start, the jobs that a stopped service left running
-- are queued again.
use video_encoder_service.Prelude.{◌⊎◌, inl, inr, ℕ, String, List, [], ◌∷◌, ◌≡◌}
use video_encoder_service.Prelude.Dict.{Dict}
use video_encoder_service.Types.Error.{Error, M, ◌>>=◌, ◌>>◌, pure, try}
use video_encoder_service.Types.State.{JobState}
use video_encoder_service.Types.Triple.{Ensures-bind, Ensures-weaken}
use video_encoder_service.Jobs.Repository.{Jobs}
use video_encoder_service.Jobs.Service.{get_job}
use video_encoder_service.Jobs.Valid.{Holds}
use video_encoder_service.Transcode.World.{World, Env, StateFile}
use video_encoder_service.Transcode.Store.{scan, find_orphaned_jobs}
use video_encoder_service.Transcode.Keeps.{Keeps, Keeps-pure, Keeps-bind, keeps_rules}
use video_encoder_service.Transcode.Framed.{Framed, frame_rules, Keeps-ask, Keeps-time}
use video_encoder_service.Server.State.{Server, Site, on_world, on_service}
use video_encoder_service.Server.Handlers.{requeue}
use video_encoder_service.Server.Rules.{jobs-Framed, Ensures-world, Ensures-forget}
use video_encoder_service.Server.Serves.{
  Nothing, Serves, Serves-pure, Outcome, Ensures-attempt, Ensures-get,
}
use video_encoder_service.Server.Answers.{Serves-requeue}

Keeps-scan :
    {P : World → Type 0} (fr : Framed P) (env : Env) (files : Dict StateFile)
    → Keeps P (scan env files)
unfolding scan
Keeps-scan fr env [] = Keeps-pure []
Keeps-scan fr env ((id, f) ∷ files) = Keeps-bind _ _ (Keeps-ask fr env.run) λ r.
    Keeps-bind _ _ (Keeps-time fr env)
      λ now. Keeps-bind _ _ (Keeps-scan fr env files) λ rest. Keeps-pure _

module _ (site : Site) where
  unfoldable pub resume_one : String → Error ⊎ ℕ → M Server (Unit {0})
  resume_one id (inl e) = pure tt
  resume_one id (inr p) = requeue site id p

  -- The loop of resumeOrphanedJobs.
  unfoldable pub resume_all : List JobState → M Server (Unit {0})
  resume_all [] = pure tt
  resume_all (state ∷ states) = do
    r ← try (on_service (get_job state.job_id))
    resume_one state.job_id r
    resume_all states

  unfoldable pub resume_found_orphans : Error ⊎ List JobState → M Server (Unit {0})
  resume_found_orphans (inl e) = pure tt
  resume_found_orphans (inr states) = resume_all states

  -- resumeOrphanedJobs
  unfoldable pub resume_orphaned_jobs : M Server (Unit {0})
  resume_orphaned_jobs = do r ← try (on_world (find_orphaned_jobs site.env)); resume_found_orphans r

  Serves-resume_one :
      (id : String) (r : Error ⊎ ℕ) → Serves (Outcome (λ p h. Holds h id p) r) (resume_one id r)
  unfolding resume_one
  Serves-resume_one id (inl e) = Serves-pure tt
  Serves-resume_one id (inr p) =
      Ensures-weaken _ (Serves-requeue site id p) (λ s e. e) (λ s k. k)
        (λ a s k. record { sound = k.sound; known = tt })

  Serves-resume_all : (states : List JobState) → Serves Nothing (resume_all states)
  unfolding resume_all
  Serves-resume_all [] = Serves-pure tt
  Serves-resume_all (state ∷ states) =
      Ensures-bind _ _ _ (Ensures-attempt _ _ (Ensures-get state.job_id))
        λ r. Ensures-bind _ _ _ (Serves-resume_one state.job_id r) λ _. Serves-resume_all states

  Serves-found_orphans : (r : Error ⊎ List JobState) → Serves Nothing (resume_found_orphans r)
  unfolding resume_found_orphans
  Serves-found_orphans (inl e) = Serves-pure tt
  Serves-found_orphans (inr states) = Serves-resume_all states

  Keeps-orphans : (j : Jobs) → Keeps (λ w. w.jobs ≡ j) (find_orphaned_jobs site.env)
  unfolding find_orphaned_jobs
  Keeps-orphans j = search (keeps_rules, frame_rules, jobs-Framed, Keeps-scan) depth 20

  pub Serves-resume_orphaned : Serves Nothing resume_orphaned_jobs
  unfolding resume_orphaned_jobs
  Serves-resume_orphaned =
      Ensures-bind _ _ _ (Ensures-attempt (λ _. Nothing) _ (Ensures-world _ Keeps-orphans))
        λ r. Ensures-forget _ (λ h x. tt) (Serves-found_orphans r)
