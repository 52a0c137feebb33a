-- ===== src/Transcode/Limits.antt =====
-- The limit on the size of a job, and the removal of its files:
-- internal/application/services/disk_service.go, and checkJobDiskLimit of
-- internal/application/usecases/transcode_usecase.go.
use video_encoder_service.Prelude.{
  ◌⊎◌, inl, inr, ℕ, ◌*◌, ◌/◌, String, Bool, if◌then◌else◌, leb, str_append, decimal, [],
}
use video_encoder_service.Prelude.Dict
use video_encoder_service.Types.Error.{
  try, Error, message, new_error, M, ◌>>=◌, ◌>>◌, pure, fail, wrapping, ignore,
}
use video_encoder_service.Types.Job.{JobError, failed}
use video_encoder_service.Types.Retry.{code_job_size_exceeded}
use video_encoder_service.Jobs.Service.{update_status, set_error}
use video_encoder_service.Transcode.World.{
  World, Disk, Env, ask, set_disk, or_fail, external, on_jobs, time,
}

pub record Settings : Type 0 where
  pub outputs_dir : String
  pub max_job_size_mb : ℕ
  pub max_retries : ℕ

abbrev pub megabyte : ℕ
megabyte = 1024 * 1024

-- os.RemoveAll of the directory of a job under the outputs directory.
abbrev pub remove_outputs : String → Disk → Disk
remove_outputs id d = record {
  states = Dict.delete id d.states;
  temps = Dict.delete id d.temps;
  quality_dirs = Dict.delete id d.quality_dirs;
}

pub record SizeCheck : Type 0 where
  pub within : Bool
  pub size_mb : ℕ

unfoldable pub size_limit_text : ℕ → ℕ → Error
size_limit_text size limit = message (
    str_append "job size limit exceeded: "
      (str_append (decimal size) (str_append " MB / " (str_append (decimal limit) " MB"))))

unfoldable pub job_size_error : ℕ → JobError
job_size_error size = record {
  code = code_job_size_exceeded;
  stage = "encoding";
  text = str_append "Job size exceeded maximum allowed: " (str_append (decimal size) " MB");
  logs_path = "";
  failed_resolutions = [];
}

module _ (env : Env) (u : Settings) where
  unfoldable pub delete_job_files : String → M World (Unit {0})
  delete_job_files id = do
    wrapping "failed to delete output dir: " (external env)
    set_disk (remove_outputs id)
    wrapping "failed to delete chunk dir: " (external env)

  unfoldable pub check_job_size_limit : String → M World SizeCheck
  check_job_size_limit id = do
    answer ← ask env.job_size
    size ← or_fail (new_error "failed to get output dir size") answer
    pure (record { within = leb size (u.max_job_size_mb * megabyte); size_mb = size / megabyte })

  -- The branch of EnforceJobSizeLimit, and of checkJobDiskLimit, behind the check.
  unfoldable pub enforce_outcome : String → SizeCheck → M World (Unit {0})
  enforce_outcome id c =
      if c.within
      then pure tt
      else (do ignore (delete_job_files id); fail (size_limit_text c.size_mb u.max_job_size_mb))

  unfoldable pub enforce_job_size_limit : String → M World (Unit {0})
  enforce_job_size_limit id = do
    c ← wrapping "failed to check job size: " (check_job_size_limit id)
    enforce_outcome id c

  unfoldable pub limit_outcome : String → SizeCheck → M World (Unit {0})
  limit_outcome id c = if c.within then pure tt else (do
    now ← time env
    ignore (on_jobs (update_status id failed now))
    later ← time env
    ignore (on_jobs (set_error id (job_size_error c.size_mb) later))
    ignore (delete_job_files id)
    fail (message (str_append "job size limit exceeded: " (str_append (decimal c.size_mb) " MB"))))

  -- "Don't fail job if we can't check size"
  unfoldable pub limit_answer : String → Error ⊎ SizeCheck → M World (Unit {0})
  limit_answer id (inr c) = limit_outcome id c
  limit_answer id (inl e) = pure tt

  unfoldable pub check_job_disk_limit : String → M World (Unit {0})
  check_job_disk_limit id = do r ← try (check_job_size_limit id); limit_answer id r
