-- ===== src/Metrics/Service.antt =====
-- internal/application/services/metrics_service.go: the metrics of each job, in memory and in a file
-- that is written when the job ends. Sizes are in bytes, where the source divides by a power of 2.
use video_encoder_service.Prelude.{
  ℕ, suc, ◌-◌, String, Option, none, some, str_append, if◌then◌else◌, ltb,
}
use video_encoder_service.Prelude.Dict
use video_encoder_service.Prelude.Dict.{Dict}
use video_encoder_service.Types.Error.{
  Error, message, ok, M, ◌>>=◌, ◌>>◌, pure, fail, wrapping, reads,
}

pub record JobMetrics : Type 0 where
  pub job_id : String
  pub start_time : ℕ
  pub end_time : Option ℕ
  pub duration : ℕ
  -- the goroutines and the processors, of which the source keeps ten times the quotient
  pub cpu_usage : ℕ × ℕ
  pub memory_usage : ℕ
  pub peak_memory : ℕ
  pub disk_used : ℕ
  pub input_size : ℕ
  pub output_size : ℕ
  pub qualities_generated : ℕ
  pub chunks_generated : ℕ
  pub status : String

pub record WorkerMetrics : Type 0 where
  pub worker_id : String
  pub last_updated : ℕ
  pub jobs_processed : ℕ
  pub jobs_succeeded : ℕ
  pub jobs_failed : ℕ
  pub total_cpu_percent : ℕ
  pub total_memory : ℕ
  pub uptime : String

-- What MemStats, NumGoroutine and NumCPU say.
pub record Sample : Type 0 where
  pub alloc : ℕ
  pub goroutines : ℕ
  pub cpus : ℕ

pub record Metrics : Type 0 where
  pub tick : ℕ
  pub job_metrics : Dict JobMetrics
  -- the files job_<id>.json and worker_<id>.json, whole
  pub job_files : Dict JobMetrics
  pub worker_files : Dict WorkerMetrics

-- An answer of `some text` of `write` and `read` is an error, and one of `none` of `dir_size`.
pub record Host : Type 0 where
  pub now : ℕ → ℕ
  pub file_size : ℕ → String → ℕ
  pub dir_size : ℕ → String → Option ℕ
  pub write : ℕ → Option String
  pub read : ℕ → Option String

unfoldable pub inquire : {A : Type 0} → (ℕ → A) → M Metrics A
inquire f s = (ok (f s.tick), record s { tick = suc s.tick })

unfoldable pub put_metrics : String → JobMetrics → M Metrics (Unit {0})
put_metrics id m s = (ok tt, record s { job_metrics = Dict.insert id m s.job_metrics })

unfoldable pub put_job_file : String → JobMetrics → M Metrics (Unit {0})
put_job_file id m s = (ok tt, record s { job_files = Dict.insert id m s.job_files })

unfoldable pub put_worker_file : String → WorkerMetrics → M Metrics (Unit {0})
put_worker_file id m s = (ok tt, record s { worker_files = Dict.insert id m s.worker_files })

unfoldable pub answered : Option String → M Metrics (Unit {0})
answered none = pure tt
answered (some text) = fail (message text)

unfoldable pub started : String → ℕ → ℕ → JobMetrics
started id now size = record {
  job_id = id;
  start_time = now;
  end_time = none;
  duration = 0;
  cpu_usage = (0, 1);
  memory_usage = 0;
  peak_memory = 0;
  disk_used = 0;
  input_size = size;
  output_size = 0;
  qualities_generated = 0;
  chunks_generated = 0;
  status = "running";
}

unfoldable pub sampled : Sample → JobMetrics → JobMetrics
sampled x m = record m {
  memory_usage = x.alloc;
  peak_memory = if ltb m.peak_memory x.alloc then x.alloc else m.peak_memory;
  cpu_usage = (x.goroutines, x.cpus);
}

unfoldable pub update_found : String → Sample → Option JobMetrics → M Metrics (Unit {0})
update_found id x none = pure tt
update_found id x (some m) = put_metrics id (sampled x m)

unfoldable pub metrics_missing : String → Error
metrics_missing id = message (str_append "metrics not found for job " id)

-- "Calculate output size": where it cannot be found, it stays.
unfoldable pub with_output_size : Option ℕ → JobMetrics → JobMetrics
with_output_size none m = m
with_output_size (some size) m = record m { output_size = size }

unfoldable pub ended : ℕ → String → ℕ → ℕ → Option ℕ → JobMetrics → JobMetrics
ended now status qualities chunks size m =
    let m' = with_output_size size (record m {
      end_time = some now;
      duration = now - m.start_time;
      status = status;
      qualities_generated = qualities;
      chunks_generated = chunks;
    }) in
    record m' { disk_used = m'.output_size }

unfoldable pub read_outcome : Option String → JobMetrics → M Metrics JobMetrics
read_outcome none m = pure m
read_outcome (some text) m = fail (message (str_append "failed to read metrics: " text))

unfoldable pub file_missing : String → Error
file_missing id = message (str_append "metrics file not found for job " id)

module _ (h : Host) where
  unfoldable pub start_job_metrics : String → String → M Metrics (Unit {0})
  start_job_metrics id input_path = do
    size ← inquire (λ n. h.file_size n input_path)
    now ← inquire h.now
    put_metrics id (started id now size)

  -- UpdateJobMetrics; what the runtime says is an argument.
  unfoldable pub update_job_metrics : String → Sample → M Metrics (Unit {0})
  update_job_metrics id x = do
    found ← reads (λ s. Dict.lookup id s.job_metrics)
    update_found id x found

  unfoldable pub save_metrics : String → JobMetrics → M Metrics (Unit {0})
  save_metrics id m = do
    r ← inquire h.write
    wrapping "failed to write metrics: " (answered r)
    put_job_file id m

  unfoldable pub end_found : String → String → ℕ → ℕ → Option JobMetrics → M Metrics (Unit {0})
  end_found id status qualities chunks none = fail (metrics_missing id)
  end_found id status qualities chunks (some m) = do
    now ← inquire h.now
    size ← inquire (λ n. h.dir_size n id)
    let m' = ended now status qualities chunks size m
    put_metrics id m'
    save_metrics id m'

  unfoldable pub end_job_metrics : String → String → ℕ → ℕ → M Metrics (Unit {0})
  end_job_metrics id status qualities chunks = do
    found ← reads (λ s. Dict.lookup id s.job_metrics)
    end_found id status qualities chunks found

  unfoldable pub load_found : String → Option JobMetrics → M Metrics JobMetrics
  load_found id none = fail (file_missing id)
  load_found id (some m) = do r ← inquire h.read; read_outcome r m

  unfoldable pub load_metrics : String → M Metrics JobMetrics
  load_metrics id = do f ← reads (λ s. Dict.lookup id s.job_files); load_found id f

  unfoldable pub or_loaded : String → Option JobMetrics → M Metrics JobMetrics
  or_loaded id none = load_metrics id
  or_loaded id (some m) = pure m

  unfoldable pub get_job_metrics : String → M Metrics JobMetrics
  get_job_metrics id = do found ← reads (λ s. Dict.lookup id s.job_metrics); or_loaded id found

  unfoldable pub save_worker_metrics : String → WorkerMetrics → M Metrics (Unit {0})
  save_worker_metrics id m = do
    r ← inquire h.write
    wrapping "failed to write worker metrics: " (answered r)
    put_worker_file id m
