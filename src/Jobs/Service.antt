-- ===== src/Jobs/Service.antt =====
-- job_service.go. `now` is what time.Now() returns in the call, in nanoseconds.
use video_encoder_service.Prelude.{
  ℕ, ◌+◌, ◌-◌, ◌/◌, String, ◌||◌, List, none, some, if◌then◌else◌, ◌==◌, str_append, decimal,
}
use video_encoder_service.Types.Error.{M, ◌>>=◌, ◌>>◌, pure, wrapping}
use video_encoder_service.Types.Job.{
  Job, JobStatus, JobError, VideoMetadata, OutputInfo, is_completed, is_failed, queued, failed,
}
use video_encoder_service.Jobs.Repository.{Jobs, alloc, change, create, get, update, delete, list}

pub record Config : Type 0 where
  pub default_chunk_duration : ℕ
  pub max_retries : ℕ

-- `fmt.Sprintf("job_%d", now.UnixMilli())`
unfoldable pub job_id : ℕ → String
job_id now = str_append "job_" (decimal (now / 1_000_000))

unfoldable pub new_job : Config → String → ℕ → ℕ → Job
unfolding job_id
new_job config input_path chunk_duration now = record {
  id = job_id now;
  status = queued;
  input_path = input_path;
  input_hash = "";
  chunk_duration = if chunk_duration == 0 then config.default_chunk_duration else chunk_duration;
  input = none;
  output = none;
  progress = none;
  meta = record { created_at = now; completed_at = none; processing_time = 0 };
  retries = 0;
  max_retries = config.max_retries;
  error = none;
  note = "Job created and queued for processing";
}

unfoldable pub create_job : Config → String → ℕ → ℕ → M Jobs ℕ
unfolding alloc create
create_job config input_path chunk_duration now = do
  p ← alloc (new_job config input_path chunk_duration now)
  wrapping "failed to create job: " (create p)
  pure p

unfoldable pub get_job : String → M Jobs ℕ
unfolding get
get_job id = get id

unfoldable pub list_jobs : M Jobs (List ℕ)
unfolding list
list_jobs = list

unfoldable pub delete_job : String → M Jobs (Unit {0})
unfolding delete
delete_job id = delete id

-- The frame that the methods below share: `job, err := s.repo.Get(id)`, writes through `job`, and
-- `s.repo.Update(job)`.
unfoldable pub edit : String → (Job → Job) → M Jobs (Unit {0})
unfolding get change update
edit id f = do p ← get id; change p f; update p

-- Meta.CompletedAt and Meta.ProcessingTimeSec. The clock is monotonic, so that `-` is exact.
unfoldable pub stamp : ℕ → Job → Job
stamp now job = record job {
  meta = record (job.meta) { completed_at = some now; processing_time = now - job.meta.created_at };
}

unfoldable pub set_status : JobStatus → ℕ → Job → Job
unfolding stamp
set_status status now job =
    let j = record job { status = status } in
    if is_completed status || is_failed status then stamp now j else j

unfoldable pub update_status : String → JobStatus → ℕ → M Jobs (Unit {0})
update_status id status now = edit id (set_status status now)

unfoldable pub update_progress : String → ℕ → String → M Jobs (Unit {0})
update_progress id percentage step =
    edit id λ job. record job {
      progress = some (record { percentage = percentage; current_step = step });
    }

unfoldable pub set_failed : JobError → ℕ → Job → Job
unfolding stamp
set_failed e now job = stamp now (record job { error = some e; status = failed })

unfoldable pub set_error : String → JobError → ℕ → M Jobs (Unit {0})
set_error id e now = edit id (set_failed e now)

unfoldable pub set_metadata : String → VideoMetadata → OutputInfo → M Jobs (Unit {0})
set_metadata id input output =
    edit id λ job. record job { input = some input; output = some output }

unfoldable pub set_hash : String → String → M Jobs (Unit {0})
set_hash id hash = edit id λ job. record job { input_hash = hash }

unfoldable pub increment_retry : String → M Jobs (Unit {0})
increment_retry id = edit id λ job. record job { retries = job.retries + 1 }
