-- ===== src/Metrics/Tests.antt =====
-- The peak of a job that is sampled three times, beside another job, and a job that ends.
use video_encoder_service.Prelude.{◌≡◌, refl, List, [], ◌∷◌, none, some}
use video_encoder_service.Prelude.Dict
use video_encoder_service.Types.Error.{ok, reads, wrapping, pure, ◌>>=◌}
use video_encoder_service.Metrics.Service.{
  Metrics, Host, start_job_metrics, end_job_metrics, end_found, inquire, put_metrics, ended,
  with_output_size, save_metrics, answered, put_job_file,
}
use video_encoder_service.Metrics.Reloaded.{Reloaded, get_job_metrics-end_job_metrics}
use video_encoder_service.Metrics.Peaks.{
  Call, starts, updates, ends, asks, invoke_all, history, Peaks, invoke_all-Peaks,
}

-- Every write fails.
abbrev host : Host
host = record {
  now = λ n. n;
  file_size = λ n path. 4096;
  dir_size = λ n id. some 8192;
  write = λ n. some "disk full";
  read = λ n. none;
}

abbrev new_service : Metrics
new_service = record { tick = 0; job_metrics = []; job_files = []; worker_files = [] }

abbrev taken : List Call
taken =
    starts "job_5" "a.mp4"
    ∷ updates "job_5" (record { alloc = 700; goroutines = 9; cpus = 4 })
    ∷ starts "job_6" "b.mp4"
    ∷ updates "job_6" (record { alloc = 900; goroutines = 12; cpus = 4 })
    ∷ updates "job_5" (record { alloc = 800; goroutines = 9; cpus = 4 })
    ∷ updates "job_5" (record { alloc = 300; goroutines = 8; cpus = 4 })
    ∷ ends "job_5" "completed" 3 40
    ∷ asks "job_5"
    ∷ []

invoke_all-Peaks_example :
    Peaks
      (Dict.lookup "job_5" (invoke_all host taken new_service).job_metrics)
      (history "job_5" taken none)
unfolding Dict.lookup
invoke_all-Peaks_example = invoke_all-Peaks host "job_5" taken new_service none tt

taken-history : history "job_5" taken none ≡ some (300 ∷ 800 ∷ 700 ∷ [])
unfolding history
taken-history = refl

-- A job that ends where writes succeed.
abbrev good_host : Host
good_host = record host { write = λ n. none }

abbrev running : Metrics
running = (start_job_metrics good_host "job_5" "a.mp4" new_service).1

ends_well : (end_job_metrics good_host "job_5" "completed" 3 40 running).0 ≡ ok tt
unfolding end_job_metrics start_job_metrics reads end_found inquire put_metrics ended
    with_output_size save_metrics answered wrapping put_job_file Dict.lookup Dict.insert pure ◌>>=◌
ends_well = refl

get_job_metrics-end_job_metrics_example :
    Reloaded good_host "job_5" "completed" 3 40
      (end_job_metrics good_host "job_5" "completed" 3 40 running).1
get_job_metrics-end_job_metrics_example =
    get_job_metrics-end_job_metrics good_host "job_5" "completed" 3 40 running ends_well refl
