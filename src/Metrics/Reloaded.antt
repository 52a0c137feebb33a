-- ===== src/Metrics/Reloaded.antt =====
-- The file of the metrics of a job that has ended, as a service that is started anew reads it.
use video_encoder_service.Prelude.{
  ℕ, suc, inl, inr, ◌≡◌, refl, String, Option, none, some, [], Option-cases,
}
use video_encoder_service.Prelude.Dict
use video_encoder_service.Types.Error.{ok, wrapping, reads, ◌>>=◌, pure, fail}
use video_encoder_service.Metrics.Service.{
  JobMetrics, Metrics, Host, inquire, put_metrics, put_job_file, answered, with_output_size, ended,
  read_outcome, save_metrics, end_found, end_job_metrics, load_found, load_metrics, or_loaded,
  get_job_metrics,
}

-- The service started anew: what it has in memory is gone.
abbrev pub restarted : Metrics → Metrics
restarted s = record s { job_metrics = [] }

pub record Reloaded (h : Host) (id status : String) (qualities chunks : ℕ) (s : Metrics)
    : Type 0 where
  pub metrics : JobMetrics
  pub kept : Dict.lookup id s.job_metrics ≡ some metrics
  pub counts :
      (metrics.status ≡ status)
      × (metrics.qualities_generated ≡ qualities)
      × (metrics.chunks_generated ≡ chunks)
      × (metrics.disk_used ≡ metrics.output_size)
  pub got : (get_job_metrics h id (restarted s)).0 ≡ ok metrics

abbrev Counts : String → ℕ → ℕ → JobMetrics → Type 0
Counts status qualities chunks m =
    (m.status ≡ status)
    × (m.qualities_generated ≡ qualities)
    × (m.chunks_generated ≡ chunks)
    × (m.disk_used ≡ m.output_size)

ended-Counts :
    (now : ℕ) (status : String) (a b : ℕ) (size : Option ℕ) (m : JobMetrics)
    → Counts status a b (ended now status a b size m)
unfolding ended with_output_size
ended-Counts now status a b none m = (refl, refl, refl, refl)
ended-Counts now status a b (some size) m = (refl, refl, refl, refl)

loads_file :
    (h : Host) (id : String) (m : JobMetrics) (s : Metrics)
    → Dict.lookup id s.job_files ≡ some m
    → h.read s.tick ≡ none
    → (get_job_metrics h id (restarted s)).0 ≡ ok m
unfolding get_job_metrics or_loaded load_metrics load_found inquire read_outcome reads pure ◌>>=◌
    Dict.lookup
loads_file h id m s filed fine = rw filed (rw fine refl)

saved :
    (h : Host) (id status : String) (a b : ℕ) (m : JobMetrics) (s : Metrics)
    → Dict.lookup id s.job_metrics ≡ some m
    → Counts status a b m
    → (save_metrics h id m s).0 ≡ ok tt
    → h.read (save_metrics h id m s).1.tick ≡ none
    → Reloaded h id status a b (save_metrics h id m s).1
unfolding save_metrics inquire answered wrapping put_job_file pure fail ◌>>=◌
saved h id status a b m s kept counts done fine = elim (Option-cases (h.write s.tick)) [
  | inl whole ↦ rw whole (record {
    metrics = m;
    kept = kept;
    counts = counts;
    got =
        loads_file h id m (record s { tick = suc s.tick; job_files = Dict.insert id m s.job_files })
          (Dict.lookup-insert_self id m s.job_files) (rw whole at fine);
  })
  | inr (text, broken) ↦ absurd (cc)
]

-- Where EndJobMetrics returns no error, the job's metrics in memory have the status and the counts
-- that it was given, and the size of the output as the used disk; and a service that is started anew
-- gets exactly these metrics from GetJobMetrics, when the file can be read.
pub get_job_metrics-end_job_metrics :
    (h : Host) (id status : String) (qualities chunks : ℕ) (s : Metrics)
    → (end_job_metrics h id status qualities chunks s).0 ≡ ok tt
    → h.read (end_job_metrics h id status qualities chunks s).1.tick ≡ none
    → Reloaded h id status qualities chunks (end_job_metrics h id status qualities chunks s).1
unfolding end_job_metrics reads end_found inquire put_metrics fail ◌>>=◌
get_job_metrics-end_job_metrics h id status a b s done fine =
    elim (Option-cases (Dict.lookup id s.job_metrics)) [
      | inl missing ↦ absurd (cc)
      | inr (m, found) ↦
          let m' = ended (h.now s.tick) status a b (h.dir_size (suc s.tick) id) m in
          rw found (
            saved h id status a b m' _ (Dict.lookup-insert_self id m' s.job_metrics)
              (ended-Counts _ status a b _ m) (rw found at done) (rw found at fine))
    ]
