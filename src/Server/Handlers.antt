-- ===== src/Server/Handlers.antt =====
-- The handlers of job_handler.go on single jobs, and ScheduleJob. A request body is decoded JSON,
-- or none where the decoder fails. A response is told by its status and code, or by its body; texts
-- and details are left out. The fields of a request that no handler reads are left out too.
use video_encoder_service.Prelude.{
  ◌⊎◌, inl, inr, ℕ, suc, String, Bool, false, ◌||◌, List, [], ◌∷◌, Option, none, some,
  if◌then◌else◌, ltb, str_eq, length,
}
use video_encoder_service.Types.Error.{Error, M, ◌>>=◌, ◌>>◌, pure, try, ignore, reads}
use video_encoder_service.Types.Job.{
  Job, JobStatus, status_text, queued, running, completed, failed, partial_success, interrupted,
  scheduled, is_failed, is_interrupted,
}
use video_encoder_service.Jobs.Repository.{load, change}
use video_encoder_service.Jobs.Service.{create_job, get_job, list_jobs, delete_job, update_status}
use video_encoder_service.Batches.Service.{BatchStats, BatchStatus}
use video_encoder_service.Transcode.Limits.{delete_job_files}
use video_encoder_service.Validator.Check.{ValidationError, validate_file}
use video_encoder_service.Server.State.{
  Server, Site, on_world, on_service, enqueue, clock, ask_site,
}
use video_encoder_service.Server.Scheduler.{schedule_job}

pub record TranscodeRequest : Type 0 where
  pub input_path : String
  pub chunk_duration : ℕ
  pub scheduled_at : Option ℕ

pub record Counts : Type 0 where
  pub queued_count : ℕ
  pub running_count : ℕ
  pub completed_count : ℕ
  pub failed_count : ℕ

pub data Body : Type 0 where
  job_created : (job_id status : String) → Body
  job_found : Job → Body
  jobs_listed : List Job → Body
  job_deleted : (job_id : String) → Body
  job_resumed : (job_id : String) → Body
  job_scheduled : (job_id status : String) (at : ℕ) → Body
  batch_created : (batch_id : String) (jobs : List Job) (status : BatchStatus) → Body
  batch_found :
      (batch_id : String) (status : BatchStatus) (completed_at : Option ℕ)
      (stats : Option BatchStats) (jobs : List Job)
      → Body
  healthy : (active queue_size total : ℕ) (counts : Counts) → Body

pub data Response : Type 0 where
  sends_error : (status : ℕ) (code : String) → Response
  sends : Body → Response

abbrev pub not_found : Response
not_found = sends_error 404 "ERR_JOB_NOT_FOUND"

-- CanAcceptNewJob of internal/application/services/disk_service.go, without its reason.
unfoldable pub can_accept_new_job : ℕ → Option ℕ → Bool
can_accept_new_job threshold none = false
can_accept_new_job threshold (some usage) = ltb usage threshold

unfoldable pub get_found : Error ⊎ ℕ → M Server Response
get_found (inl e) = pure not_found
get_found (inr p) = do job ← on_service (load p); pure (sends (job_found job))

-- GetJob
unfoldable pub handle_get : String → M Server Response
handle_get id = do r ← try (on_service (get_job id)); get_found r

-- The jobs behind pointers.
unfoldable pub load_all : List ℕ → M Server (List Job)
load_all [] = pure []
load_all (p ∷ ps) = do job ← on_service (load p); jobs ← load_all ps; pure (job ∷ jobs)

-- ListJobs; the error of the service is always nil.
unfoldable pub handle_list : M Server Response
handle_list = do ps ← on_service list_jobs; jobs ← load_all ps; pure (sends (jobs_listed jobs))

unfoldable pub removed : String → Error ⊎ Unit {0} → M Server Response
removed id (inl e) = pure (sends_error 500 "ERR_DELETE_FAILED")
removed id (inr t) = pure (sends (job_deleted id))

unfoldable pub files_removed : String → Error ⊎ Unit {0} → M Server Response
files_removed id (inl e) = pure (sends_error 500 "ERR_DELETE_FAILED")
files_removed id (inr t) = do r ← try (on_service (delete_job id)); removed id r

abbrev pub no_counts : Counts
no_counts = record { queued_count = 0; running_count = 0; completed_count = 0; failed_count = 0 }

abbrev pub count_job : JobStatus → Counts → Counts
count_job queued c = record c { queued_count = suc c.queued_count }
count_job running c = record c { running_count = suc c.running_count }
count_job completed c = record c { completed_count = suc c.completed_count }
count_job failed c = record c { failed_count = suc c.failed_count }
count_job partial_success c = c
count_job interrupted c = c
count_job scheduled c = c

unfoldable pub count_jobs : List Job → Counts → Counts
count_jobs [] c = c
count_jobs (job ∷ jobs) c = count_jobs jobs (count_job job.status c)

-- Health, without the versions and the sizes of the disk.
unfoldable pub handle_health : M Server Response
handle_health = do
  ps ← on_service list_jobs
  jobs ← load_all ps
  active ← reads (λ s. s.active_workers)
  size ← reads (λ s. length s.queue)
  pure (sends (healthy active size (length jobs) (count_jobs jobs no_counts)))

module _ (site : Site) where
  -- The call of CreateJob, and the time it reads.
  unfoldable pub make_job : String → ℕ → M Server ℕ
  make_job path chunk = do now ← clock site; on_service (create_job site.config path chunk now)

  unfoldable pub validate : String → M Server (Option ValidationError)
  validate path = do m ← ask_site (λ n. site.media n path); pure (validate_file path m)

  unfoldable pub create_made : Error ⊎ ℕ → M Server Response
  create_made (inl e) = pure (sends_error 500 "ERR_INTERNAL_ERROR")
  create_made (inr p) = do
    enqueue p
    job ← on_service (load p)
    pure (sends (job_created job.id (status_text job.status)))

  unfoldable pub create_valid : TranscodeRequest → Option ValidationError → M Server Response
  create_valid req (some e) = pure (sends_error 400 e.code)
  create_valid req none = do r ← try (make_job req.input_path req.chunk_duration); create_made r

  unfoldable pub create_decoded : Option TranscodeRequest → M Server Response
  create_decoded none = pure (sends_error 400 "ERR_INVALID_REQUEST")
  create_decoded (some req) =
      if str_eq req.input_path ""
      then pure (sends_error 400 "ERR_MISSING_FIELD")
      else (do e ← validate req.input_path; create_valid req e)

  -- CreateJob
  unfoldable pub handle_create : Option TranscodeRequest → M Server Response
  handle_create body = do
    usage ← ask_site site.usage
    if can_accept_new_job site.threshold_percent usage
        then create_decoded body
        else pure (sends_error 503 "ERR_DISK_FULL")

  unfoldable pub delete_found : String → Error ⊎ ℕ → M Server Response
  delete_found id (inl e) = pure not_found
  delete_found id (inr p) = do
    r ← try (on_world (delete_job_files site.env site.settings id))
    files_removed id r

  -- DeleteJob
  unfoldable pub handle_delete : String → M Server Response
  handle_delete id = do r ← try (on_service (get_job id)); delete_found id r

  -- "Reset status and requeue"
  unfoldable pub requeue : String → ℕ → M Server (Unit {0})
  requeue id p = do now ← clock site; ignore (on_service (update_status id queued now)); enqueue p

  unfoldable pub resume_loaded : String → ℕ → Job → M Server Response
  resume_loaded id p job =
      if is_failed job.status || is_interrupted job.status
      then (do requeue id p; pure (sends (job_resumed id)))
      else pure (sends_error 400 "ERR_INVALID_REQUEST")

  unfoldable pub resume_found : String → Error ⊎ ℕ → M Server Response
  resume_found id (inl e) = pure not_found
  resume_found id (inr p) = do job ← on_service (load p); resume_loaded id p job

  -- ResumeJob
  unfoldable pub handle_resume : String → M Server Response
  handle_resume id = do r ← try (on_service (get_job id)); resume_found id r

  -- "Set job status to scheduled", and the rest of ScheduleJob; the scheduler's error is always
  -- nil.
  unfoldable pub schedule_made : ℕ → Error ⊎ ℕ → M Server Response
  schedule_made at (inl e) = pure (sends_error 500 "ERR_INTERNAL_ERROR")
  schedule_made at (inr p) = do
    on_service (change p λ job. record job { status = scheduled })
    schedule_job site p at
    job ← on_service (load p)
    pure (sends (job_scheduled job.id (status_text job.status) at))

  unfoldable pub schedule_valid : TranscodeRequest → ℕ → Option ValidationError → M Server Response
  schedule_valid req at (some e) = pure (sends_error 400 "ERR_INVALID_VIDEO")
  schedule_valid req at none = do
    r ← try (make_job req.input_path req.chunk_duration)
    schedule_made at r

  unfoldable pub schedule_timed : TranscodeRequest → Option ℕ → M Server Response
  schedule_timed req none = pure (sends_error 400 "ERR_MISSING_FIELD")
  schedule_timed req (some at) = do e ← validate req.input_path; schedule_valid req at e

  -- ScheduleJob
  unfoldable pub handle_schedule : Option TranscodeRequest → M Server Response
  handle_schedule none = pure (sends_error 400 "ERR_INVALID_REQUEST")
  handle_schedule (some req) =
      if str_eq req.input_path ""
      then pure (sends_error 400 "ERR_MISSING_FIELD")
      else schedule_timed req req.scheduled_at
