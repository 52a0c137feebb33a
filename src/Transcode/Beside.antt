-- ===== src/Transcode/Beside.antt =====
-- process of internal/application/usecases/transcode_usecase.go and the three goroutines beside it:
-- StartMetricsMonitoring of internal/application/services/metrics_service.go, startHeartbeat and
-- checkJobDiskLimitPeriodically. Each has a channel with no buffer, on which a deferred call of
-- process sends; a send waits until the goroutine receives, and one that has returned never does.
use video_encoder_service.Prelude.{◌≡◌, Bool, true, false, List, [], ◌∷◌}
use video_encoder_service.Types.Error.{Error, ok, err}
use video_encoder_service.Types.Job.{Job}
use video_encoder_service.Types.State.{JobState}
use video_encoder_service.Transcode.World.{World, Env}
use video_encoder_service.Transcode.Store.{heartbeat}
use video_encoder_service.Transcode.Limits.{Settings, check_job_disk_limit}
use video_encoder_service.Transcode.Execute.{get_or_create_state}

pub data Helper : Type 0 where
  monitor heart disk_checker : Helper

pub data Stage : Type 0 where
  fresh loads works returns returned : Stage

pub record Process : Type 0 where
  pub stage : Stage
  -- the deferred sends, the last one first
  pub deferred : List Helper
  -- the goroutines that are in their loops
  pub monitors : Bool
  pub beats : Bool
  pub checks : Bool

abbrev pub new_process : Process
new_process = record {
  stage = fresh;
  deferred = [];
  monitors = false;
  beats = false;
  checks = false;
}

abbrev pub receives : Helper → Process → Bool
receives monitor p = p.monitors
receives heart p = p.beats
receives disk_checker p = p.checks

abbrev pub silence : Helper → Process → Process
silence monitor p = record p { monitors = false }
silence heart p = record p { beats = false }
silence disk_checker p = record p { checks = false }

-- One act of process or of a goroutine. The updates of the metrics touch nothing of the world, and
-- UpdateStatus with executeSteps is any number of acts that change the world in any way.
pub data Step (env : Env) (u : Settings) (job : Job)
    : Process → World → Process → World → Type 0 where
  starts_monitor :
      {p : Process} {w : World}
      → p.stage ≡ fresh
      → Step env u job p w
          (record p { stage = loads; deferred = monitor ∷ p.deferred; monitors = true })
          w
  has_state :
      {p : Process} {w w' : World} {s : JobState}
      → p.stage ≡ loads
      → get_or_create_state env job w ≡ (ok s, w')
      → Step env u job p w
          (record p {
            stage = works;
            deferred = disk_checker ∷ heart ∷ p.deferred;
            beats = true;
            checks = true;
          })
          w'
  has_no_state :
      {p : Process} {w w' : World} {e : Error}
      → p.stage ≡ loads
      → get_or_create_state env job w ≡ (err e, w')
      → Step env u job p w (record p { stage = returns }) w'
  acts : {p : Process} {w w' : World} → p.stage ≡ works → Step env u job p w p w'
  finishes :
      {p : Process} {w : World}
      → p.stage ≡ works
      → Step env u job p w (record p { stage = returns }) w
  measures : {p : Process} {w : World} → p.monitors ≡ true → Step env u job p w p w
  pulses :
      {p : Process} {w : World} → p.beats ≡ true → Step env u job p w p (heartbeat env job.id w).1
  within_limit :
      {p : Process} {w w' : World}
      → p.checks ≡ true
      → check_job_disk_limit env u job.id w ≡ (ok tt, w')
      → Step env u job p w p w'
  over_limit :
      {p : Process} {w w' : World} {e : Error}
      → p.checks ≡ true
      → check_job_disk_limit env u job.id w ≡ (err e, w')
      → Step env u job p w (record p { checks = false }) w'
  sends :
      {p : Process} {w : World} (h : Helper) (hs : List Helper)
      → p.stage ≡ returns
      → p.deferred ≡ h ∷ hs
      → receives h p ≡ true
      → Step env u job p w (record (silence h p) { deferred = hs }) w
  ends :
      {p : Process} {w : World}
      → p.stage ≡ returns
      → p.deferred ≡ []
      → Step env u job p w (record p { stage = returned }) w

pub data Reach (env : Env) (u : Settings) (job : Job) (p : Process) (w : World)
    : Process → World → Type 0 where
  here : Reach env u job p w p w
  later :
      {q r : Process} {v x : World}
      → Reach env u job p w q v
      → Step env u job q v r x
      → Reach env u job p w r x
