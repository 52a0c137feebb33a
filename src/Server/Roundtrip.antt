-- ===== src/Server/Roundtrip.antt =====
-- GetJob of job_handler.go after CreateJob and after DeleteJob.
use video_encoder_service.Prelude.{
  ◌⊎◌, inl, inr, ℕ, String, ◌≡◌, refl, subst, Option, none, some, get_elem?, Option-cases,
}
use video_encoder_service.Prelude.Dict
use video_encoder_service.Types.Error.{Error, ok, ◌>>=◌, pure, try, fail}
use video_encoder_service.Types.Job.{Job, queued}
use video_encoder_service.Types.Triple.{Post, Ensures, Ensures-pure, Ensures-bind, Ensures-try}
use video_encoder_service.Jobs.Repository.{load, get}
use video_encoder_service.Jobs.Service.{get_job, delete_job}
use video_encoder_service.Jobs.Valid.{delete_job_found, delete_job_missing}
use video_encoder_service.Transcode.World.{on_jobs}
use video_encoder_service.Server.State.{Server, Site, on_world, on_service}
use video_encoder_service.Server.Handlers.{
  TranscodeRequest, Response, sends, job_created, job_found, job_deleted, not_found, get_found,
  handle_get, handle_create, removed, files_removed, delete_found, handle_delete,
}
use video_encoder_service.Server.Sound.{IsSound, Knows}
use video_encoder_service.Server.Rules.{Ensures-world}
use video_encoder_service.Server.Serves.{Nothing, Ensures-get}
use video_encoder_service.Server.Answers.{Keeps-files}
use video_encoder_service.Server.Creation.{Created, handle_create-Created}

get_bound :
    (id : String) (p : ℕ) (job : Job) (s : Server)
    → Dict.lookup id s.world.jobs.index ≡ some p
    → get_elem? s.world.jobs.heap p ≡ some job
    → handle_get id s ≡ (ok (sends (job_found job)), s)
unfolding handle_get get_found on_service on_world on_jobs get_job get load try ◌>>=◌ pure
get_bound id p job s look at = rw (look, handle_get) (rw (at, handle_get) refl)

get_unbound :
    (id : String) (s : Server)
    → Dict.lookup id s.world.jobs.index ≡ none
    → handle_get id s ≡ (ok not_found, s)
unfolding handle_get get_found on_service on_world on_jobs get_job get load try ◌>>=◌ pure fail
get_unbound id s missing = rw (missing, handle_get) refl

-- Where CreateJob sends an ID, GetJob with that ID then sends a job of that ID with the status
-- QUEUED, and changes nothing.
pub handle_get-handle_create :
    (site : Site) (body : Option TranscodeRequest) (s t : Server) (id status : String)
    → handle_create site body s ≡ (ok (sends (job_created id status)), t)
    → (job : Job) × (job.id ≡ id)
      × (job.status ≡ queued)
      × (handle_get id t ≡ (ok (sends (job_found job)), t))
handle_get-handle_create site body s t id status made =
    let (p, job, queue, look, at, named, fresh, free, text) =
      subst (Post (λ _. ⊥) (Created s)) made (handle_create-Created site body s) in
    (job, named, fresh, get_bound id p job t look at)

-- A response of DeleteJob.
abbrev Deleted : String → Response → Server → Type 0
Deleted id (sends (job_deleted id')) t = Dict.lookup id t.world.jobs.index ≡ none
Deleted id _ t = Unit

last_deleted :
    (id : String)
    → Ensures
        (λ _. ⊥)
        (Knows Nothing)
        (Deleted id)
        (do r ← try (on_service (delete_job id)); removed id r)
unfolding on_service on_world on_jobs try removed ◌>>=◌ pure
last_deleted id = record {
  at = λ s k. elim (Option-cases (Dict.lookup id s.world.jobs.index)) [
    | inl missing ↦ rw (delete_job_missing s.world.jobs id missing) tt
    | inr (p, look) ↦
        rw (delete_job_found s.world.jobs id p look) (Dict.lookup-delete_self id s.world.jobs.index)
  ];
}

files_deleted :
    (id : String) (r : Error ⊎ Unit {0})
    → Ensures (λ _. ⊥) (Knows Nothing) (Deleted id) (files_removed id r)
unfolding files_removed
files_deleted id (inl e) = Ensures-pure _ (λ s k. tt)
files_deleted id (inr t) = last_deleted id

found_deleted :
    (site : Site) (id : String) (r : Error ⊎ ℕ)
    → Ensures (λ _. ⊥) (Knows Nothing) (Deleted id) (delete_found site id r)
unfolding delete_found
found_deleted site id (inl e) = Ensures-pure _ (λ s k. tt)
found_deleted site id (inr p) =
    Ensures-bind (λ _. Knows Nothing) _ _
      (Ensures-try _ (Ensures-world _ (Keeps-files site id)) (λ e s k. k) (λ a s k. k))
      (files_deleted id)

deleted :
    (site : Site) (id : String)
    → Ensures (λ _. ⊥) (Knows Nothing) (Deleted id) (handle_delete site id)
unfolding handle_delete
deleted site id =
    Ensures-bind (λ _. Knows Nothing) _ _
      (Ensures-try _ (Ensures-get id) (λ e s k. k)
        (λ p s k. record { sound = k.sound; known = tt }))
      (found_deleted site id)

-- In a sound state, where DeleteJob reports a job as deleted, GetJob with its ID then answers that
-- there is no such job, and changes nothing.
pub handle_get-handle_delete :
    (site : Site) (s t : Server) (id id' : String)
    → IsSound s
    → handle_delete site id s ≡ (ok (sends (job_deleted id')), t)
    → handle_get id t ≡ (ok not_found, t)
handle_get-handle_delete site s t id id' sound gone = get_unbound id t (
    subst (Post (λ _. ⊥) (Deleted id)) gone
      ((deleted site id).at s (record { sound = sound; known = tt })))
