-- ===== src/Samples.antt =====
-- A job, its world and its surroundings, for the tests of the other modules: a video of 1280 by 720
-- with no audio.
use video_encoder_service.Prelude.{zero, suc, ◌%◌, ◌≡◌, refl, true, false, [], none, some, decimal}
use video_encoder_service.Prelude.Dict
use video_encoder_service.Types.Error.{◌>>=◌, wrapping, pure}
use video_encoder_service.Types.Job.{Job}
use video_encoder_service.Types.State.{JobState}
use video_encoder_service.Types.Encoding.{VideoInfo}
use video_encoder_service.Jobs.Repository.{Jobs, new_repository}
use video_encoder_service.Jobs.Service.{Config, new_job, create_job}
use video_encoder_service.Jobs.Valid.{IsValid, new_repository-IsValid}
use video_encoder_service.Jobs.View.{find, creates, perform}
use video_encoder_service.Jobs.History.{perform-IsValid}
use video_encoder_service.Transcode.World.{World, Env}
use video_encoder_service.Transcode.Limits.{Settings}

abbrev pub config : Config
config = record { default_chunk_duration = 6; max_retries = 3 }

abbrev pub settings : Settings
settings = record { outputs_dir = "outputs"; max_job_size_mb = 500; max_retries = 3 }

abbrev pub info : VideoInfo
info = record { width = 1280; height = 720; duration = 60; has_audio = false }

-- Every fortieth call fails.
abbrev pub env : Env
env = record {
  now = λ n. n;
  run = λ n. elim (n % 40) [ zero ↦ some "io failure" | suc m ↦ none ];
  hash = λ n path. some "abc";
  video_info = λ n path. some info;
  job_size = λ n. some 4096;
  chunks = λ n. 2;
  previews = λ n. none;
}

abbrev pub job : Job
job = new_job config "a.mp4" 0 5_000_000

abbrev pub jobs : Jobs
jobs = (perform config (creates "a.mp4" 0 5_000_000) new_repository).1

abbrev pub no_state : JobState
no_state = record {
  job_id = "job_5";
  status = "processing";
  current_step = "validation";
  steps_completed = [];
  qualities_complete = [];
  qualities_failed = [];
  chunks_completed = 0;
  total_chunks = 0;
  last_heartbeat = 0;
  created_at = 0;
  updated_at = 0;
  resume_supported = true;
  input_path = "a.mp4";
  chunk_duration = 6;
}

abbrev pub world : World
world = record {
  tick = 1;
  jobs = jobs;
  disk = record { states = []; temps = []; quality_dirs = [] };
  current = no_state;
  cache = [];
  dlq = [];
  log = [];
}

pub jobs-IsValid : IsValid jobs
jobs-IsValid =
    perform-IsValid config (creates "a.mp4" 0 5_000_000) new_repository new_repository-IsValid

pub jobs_hold : find jobs job.id ≡ some job
unfolding find perform create_job new_repository new_job Dict.lookup ◌>>=◌ wrapping pure Dict.insert
    decimal
jobs_hold = refl
