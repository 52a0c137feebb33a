-- ===== src/Server/Resumption.antt =====
-- What ResumeJob of job_handler.go does to the queue and to the job.
use video_encoder_service.Prelude.{
  ◌⊎◌, inl, inr, ℕ, String, Bool, true, false, ◌||◌, ◌≡◌, refl, sym, ◌∙◌, ap, [], ◌∷◌, ◌++◌, none,
  some, get_elem?, get_elem?-set, lt_of_get_elem?, ==_refl, Option-cases, Bool-cases,
}
use video_encoder_service.Prelude.Dict
use mathlib.Core.Option.{some-injective}
use video_encoder_service.Types.Error.{◌>>=◌, pure, try, fail, ignore}
use video_encoder_service.Types.Job.{Job, queued, is_failed, is_interrupted}
use video_encoder_service.Types.Triple.{Post, Ensures-pure, next-Post}
use video_encoder_service.Jobs.Repository.{load, get}
use video_encoder_service.Jobs.Service.{get_job, update_status, set_status}
use video_encoder_service.Jobs.Valid.{IsValid, edit_found}
use video_encoder_service.Transcode.World.{on_jobs, ask, time}
use video_encoder_service.Server.State.{Server, Site, on_world, on_service, enqueue, clock}
use video_encoder_service.Server.Handlers.{
  Response, sends_error, sends, job_resumed, requeue, resume_loaded, resume_found, handle_resume,
}

-- The job can be resumed.
abbrev pub is_resumable : Job → Bool
is_resumable job = is_failed job.status || is_interrupted job.status

-- The ID leads to the job through the pointer.
abbrev pub Bound : Server → String → ℕ → Job → Type 0
Bound s id p job =
    (Dict.lookup id s.world.jobs.index ≡ some p) × (get_elem? s.world.jobs.heap p ≡ some job)

-- A response of ResumeJob, and the state it leaves.
abbrev pub Resumed : String → Server → Response → Server → Type 0
Resumed id s (sends_error status code) t =
    (t.queue ≡ s.queue)
    × (t.world.jobs ≡ s.world.jobs)
    × ((Dict.lookup id s.world.jobs.index ≡ none)
        ⊎ ((p : ℕ) × (job : Job) × Bound s id p job × (is_resumable job ≡ false)))
Resumed id s (sends (job_resumed id')) t =
    (p : ℕ) × (job : Job) × Bound s id p job
    × (is_resumable job ≡ true)
    × (t.queue ≡ s.queue ++ p ∷ [])
    × (get_elem? t.world.jobs.heap p ≡ some (record job { status = queued }))
Resumed id s (sends _) t = ⊥

set_queued : (now : ℕ) (job : Job) → set_status queued now job ≡ record job { status = queued }
unfolding set_status
set_queued now job = refl

unfolding_id : (now : ℕ) (job : Job) → (set_status queued now job).id ≡ job.id
unfolding_id now job = ap (λ j. j.id) (set_queued now job)

requeue_found :
    (site : Site) (id : String) (p : ℕ) (job : Job) (s : Server)
    → IsValid s.world.jobs
    → Bound s id p job
    → is_resumable job ≡ true
    → Post (λ _. ⊥) (λ t. Resumed id s (sends (job_resumed id))) (requeue site id p s)
unfolding requeue update_status clock enqueue ignore on_service on_world on_jobs time ask ◌>>=◌
requeue_found site id p job s v (look, at) again =
    let now = site.env.now s.world.tick in
    let (old, at', named) = v.bound id p look in
    let same = some-injective _ _ (sym at' ∙ at) in
    rw
      (edit_found s.world.jobs id (set_status queued now) p job (unfolding_id now) look at
        (ap (λ j. j.id) (sym same) ∙ named))
      (
        p,
        job,
        (look, at),
        again,
        refl,
        rw
            (get_elem?-set s.world.jobs.heap p p (set_status queued now job)
              (lt_of_get_elem? _ p job at))
            (rw (==_refl p) (ap some (set_queued now job))),
      )

refused :
    (site : Site) (id : String) (p : ℕ) (job : Job) (s t : Server)
    → t.queue ≡ s.queue
    → t.world.jobs ≡ s.world.jobs
    → Bound s id p job
    → is_resumable job ≡ false
    → Resumed id s (sends_error 400 "ERR_INVALID_REQUEST") t
refused site id p job s t queue jobs bound never = (queue, jobs, inr (p, job, bound, never))

resume_found_job :
    (site : Site) (id : String) (p : ℕ) (job : Job) (s : Server)
    → IsValid s.world.jobs
    → Bound s id p job
    → Post (λ _. ⊥) (Resumed id s) (resume_loaded site id p job s)
unfolding resume_loaded ◌>>=◌ pure
resume_found_job site id p job s v bound = elim (Bool-cases (is_resumable job)) [
  | inr never ↦ rw never (refused site id p job s s refl refl bound never)
  | inl again ↦ rw again (
      next-Post (λ _. pure _) (requeue site id p s) (λ a. Ensures-pure _ (λ t h. h))
        (requeue_found site id p job s v bound again))
]

-- ResumeJob always responds, where the repository is well formed. It accepts exactly the jobs that
-- it finds with status FAILED or INTERRUPTED: the job is then QUEUED, otherwise as it was, and its
-- pointer at the end of the job queue. Where it sends an error, the queue and the repository are as
-- they were.
pub handle_resume-Resumed :
    (site : Site) (id : String) (s : Server)
    → IsValid s.world.jobs
    → Post (λ _. ⊥) (Resumed id s) (handle_resume site id s)
unfolding handle_resume resume_found on_service on_world on_jobs ◌>>=◌ try get_job get load pure
    fail
handle_resume-Resumed site id s v = elim (Option-cases (Dict.lookup id s.world.jobs.index)) [
  | inl missing ↦ rw missing (refl, refl, inl missing)
  | inr (p, look) ↦
      let (job, at, named) = v.bound id p look in
      rw (look, at) (resume_found_job site id p job s v (look, at))
]
