-- ===== src/Transcode/Settled.antt =====
-- How a job stands when an attempt on it has ended.
use video_encoder_service.Prelude.{ℕ, suc, String, List, [], ◌∷◌, ◌≡◌, refl, ◌∙◌, some, str_eq_refl}
use video_encoder_service.Types.Error.{Result, ok, err, panic, ignore, drop_error}
use video_encoder_service.Types.Job.{Job, JobStatus, completed, failed, JobError}
use video_encoder_service.Types.Job as JobTypes
use video_encoder_service.Jobs.Service.{update_status, set_error, set_status, set_failed, stamp}
use video_encoder_service.Jobs.View.{find, Op, sets_status, sets_error, perform, write, spec}
use video_encoder_service.Jobs.Refines.{IsEditOp, perform-refines}
use video_encoder_service.Transcode.World.{
  World, Event, starts, sleeps, encodes, broadcasts, on_jobs,
}
use video_encoder_service.Transcode.Framed.{IsQuiet}
use video_encoder_service.Transcode.Safe.{Holds, Safe, edit-Safe, any_config}
use video_encoder_service.Transcode.Yields.{Yields, Given}

abbrev pub IsDone : JobStatus → Type 0
IsDone completed = Unit
IsDone JobTypes.partial_success = Unit
IsDone _ = ⊥

abbrev pub HasFailed : Job → Type 0
HasFailed job = (job.status ≡ failed) × ((e : JobError) × (job.error ≡ some e))

-- The attempts in a log.
abbrev pub starts_in : List Event → ℕ
starts_in [] = 0
starts_in (starts id ∷ log) = suc (starts_in log)
starts_in (e ∷ log) = starts_in log

abbrev pub Ran : ℕ → List Event → Type 0
Ran n log = starts_in log ≡ n

pub Ran-quiet : (n : ℕ) (e : Event) (l : List Event) → IsQuiet e → Ran n l → Ran n (e ∷ l)
Ran-quiet n (starts id) l q h = absurd q
Ran-quiet n (sleeps s) l q h = h
Ran-quiet n (encodes id s) l q h = h
Ran-quiet n (broadcasts id s p t) l q h = h

abbrev pub Done : String → ℕ → World → Type 0
Done id n = Holds id (λ job. IsDone job.status) (Ran n)

abbrev pub Failed : String → ℕ → World → Type 0
Failed id n = Holds id HasFailed (Ran n)

IsDone-after :
    (status : JobStatus) (now : ℕ) (job : Job)
    → IsDone status
    → IsDone (set_status status now job).status
unfolding set_status stamp
IsDone-after completed now job h = tt
IsDone-after JobTypes.partial_success now job h = tt
IsDone-after _ now job h = absurd h

HasFailed-after : (e : JobError) (now : ℕ) (job : Job) → HasFailed (set_failed e now job)
unfolding set_failed stamp
HasFailed-after e now job = (refl, (e, refl))

module _ (id : String) (n : ℕ) where
  -- A write to the job leaves what was written.
  edit-Holds :
      (op : Op) (H : Job → Type 0) (w : World) (e : IsEditOp op)
      → ((job : Job)
          → find w.jobs id ≡ some job
          → (spec any_config op (find w.jobs) id ≡ some (write op job)) × H (write op job))
      → Safe id (Ran n) w
      → Holds id H (Ran n) (on_jobs (perform any_config op) w).1
  unfolding on_jobs
  edit-Holds op H w e h s =
      let (job, at, _) = s.held in
      let kept = (edit-Safe id (Ran n) (Ran-quiet n) op w e s).0 in
      let table = (perform-refines w.jobs any_config op s.valid).1 id in
      record {
        valid = kept.valid;
        held = (write op job, table ∙ (h job at).0, (h job at).1);
        logged = s.logged;
      }

  ignore_sets :
      (op : Op) (H : Job → Type 0)
      → ((w : World) → Safe id (Ran n) w → Holds id H (Ran n) (on_jobs (perform any_config op) w).1)
      → Yields
          (Safe id (Ran n))
          (λ _. Holds id H (Ran n))
          (ignore (on_jobs (perform any_config op)))
  unfolding ignore
  ignore_sets op H h = record { at = λ w s. drop_given (on_jobs (perform any_config op) w) (h w s) }
    where
      drop_given :
          (r : Result (Unit {0}) × World)
          → Holds id H (Ran n) r.1
          → Given (λ _. Holds id H (Ran n)) (drop_error r)
      drop_given (ok a, w) h = h
      drop_given (err x, w) h = h
      drop_given (panic, w) h = tt

  pub Yields-Done :
      (status : JobStatus) (now : ℕ)
      → IsDone status
      → Yields (Safe id (Ran n)) (λ _. Done id n) (ignore (on_jobs (update_status id status now)))
  unfolding perform
  Yields-Done status now d = ignore_sets (sets_status id status now) _ λ w.
      edit-Holds (sets_status id status now) _ w tt
        λ job at. (rw (str_eq_refl id, at) refl, IsDone-after status now job d)

  pub Yields-Failed :
      (e : JobError) (now : ℕ)
      → Yields (Safe id (Ran n)) (λ _. Failed id n) (ignore (on_jobs (set_error id e now)))
  unfolding perform
  Yields-Failed e now = ignore_sets (sets_error id e now) _ λ w.
      edit-Holds (sets_error id e now) _ w tt
        λ job at. (rw (str_eq_refl id, at) refl, HasFailed-after e now job)
