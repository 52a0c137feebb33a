-- ===== src/Transcode/Safe.antt =====
-- What holds between the calls of the use case on a job: the repository is well formed, it has the
-- job, and the log satisfies a predicate that only the start of an attempt can break.
use video_encoder_service.Prelude.{
  ℕ, ◌≡◌, refl, sym, ◌∙◌, String, List, ◌∷◌, Option, none, some, str_eq, Bool-cases, inl, inr,
  get_elem?, Option-cases,
}
use video_encoder_service.Prelude.Dict
use video_encoder_service.Types.Error.{ok, pure}
use video_encoder_service.Types.Job.{Job, JobStatus, JobError, VideoMetadata, OutputInfo}
use video_encoder_service.Jobs.Repository.{Jobs, load, get}
use video_encoder_service.Jobs.Service.{
  Config, update_status, update_progress, set_error, set_metadata, set_hash, increment_retry,
  get_job,
}
use video_encoder_service.Jobs.Valid.{IsValid}
use video_encoder_service.Jobs.View.{
  find, find_bound, find_unbound, Op, creates, deletes, sets_status, sets_progress, sets_error,
  sets_metadata, sets_hash, increments_retry, perform, target, effect, answer, spec, write,
}
use video_encoder_service.Jobs.Refines.{IsEditOp, perform-refines}
use video_encoder_service.Jobs.History.{perform-IsValid}
use video_encoder_service.Transcode.World.{World, Event, on_jobs}
use video_encoder_service.Transcode.Steps.{job_data, data_case}
use video_encoder_service.Transcode.Framed.{IsQuiet, Framed, frame_rules}
use video_encoder_service.Transcode.Keeps.{Keeps, IsCalm}

-- The repository is well formed and holds a job of the ID, of which `H` holds.
pub record Holds (id : String) (H : Job → Type 0) (Q : List Event → Type 0) (w : World)
    : Type 0 where
  pub valid : IsValid w.jobs
  pub held : (job : Job) × (find w.jobs id ≡ some job) × H job
  pub logged : Q w.log

abbrev pub Safe : String → (List Event → Type 0) → World → Type 0
Safe id Q = Holds id (λ _. Unit) Q

-- The configuration plays no part but in CreateJob.
abbrev pub any_config : Config
any_config = record { default_chunk_duration = 0; max_retries = 0 }

effect-held :
    (op : Op) (o : Option Job) (j : Job)
    → IsEditOp op
    → o ≡ some j
    → (j' : Job) × (effect any_config op o ≡ some j')
effect-held (creates input chunk now) o j e h = absurd e
effect-held (deletes id) o j e h = absurd e
effect-held op o j e h = (write op j, rw h)

pub answer-IsCalm : (op : Op) (o : Option Job) → IsEditOp op → IsCalm (answer any_config op o)
answer-IsCalm (creates input chunk now) o e = absurd e
answer-IsCalm (deletes id) o e = absurd e
answer-IsCalm op none e = tt
answer-IsCalm op (some job) e = tt

pub pointer_found :
    (s : Jobs) (id : String) (job : Job)
    → find s id ≡ some job
    → (p : ℕ) × (get_job id s ≡ (ok p, s)) × (load p s ≡ (ok job, s))
unfolding load get_job get pure
pointer_found s id job h = elim (Option-cases (Dict.lookup id s.index)) [
  | inl missing ↦ let gone : none ≡ some job = sym (find_unbound s id missing) ∙ h in cc
  | inr (p, look) ↦
      let at : get_elem? s.heap p ≡ some job = sym (find_bound s id p look) ∙ h in
      (p, rw look refl, rw at refl)
]

-- A job that is in the repository is read with no panic.
pub job_data_found :
    (s : Jobs) (id : String) (job : Job) → find s id ≡ some job → job_data id s ≡ (ok job, s)
unfolding job_data data_case load get_job get pure
job_data_found s id job h = elim (Option-cases (Dict.lookup id s.index)) [
  | inl missing ↦ let gone : none ≡ some job = sym (find_unbound s id missing) ∙ h in cc
  | inr (p, look) ↦
      let at : get_elem? s.heap p ≡ some job = sym (find_bound s id p look) ∙ h in
      rw (look, job_data) (rw (at, job_data))
]

module _ (id : String) (Q : List Event → Type 0)
    (quiet : (e : Event) (l : List Event) → IsQuiet e → Q l → Q (e ∷ l)) where
  spec_held :
      (op : Op) (t : String → Option Job) (job : Job)
      → IsEditOp op
      → t id ≡ some job
      → {o : Option Job} → o ≡ spec any_config op t id
      → (job' : Job) × (o ≡ some job')
  spec_held op t job e at {o} h = elim (Bool-cases (str_eq (target any_config op) id)) [
    | inl same ↦ let (job', now_at) = effect-held op (t id) job e at in (job', h ∙ rw same now_at)
    | inr other ↦ (job, h ∙ rw other at)
  ]

  pub edit-Safe :
      (op : Op) (w : World)
      → IsEditOp op
      → Safe id Q w
      → Safe id Q (on_jobs (perform any_config op) w).1
        × IsCalm (on_jobs (perform any_config op) w).0
  unfolding on_jobs
  edit-Safe op w e s =
      let (answered, table) = perform-refines w.jobs any_config op s.valid in
      let (job, at, _) = s.held in
      (
        record {
          valid = perform-IsValid any_config op w.jobs s.valid;
          held =
              let (job', now_at) = spec_held op (find w.jobs) job e at (table id) in
              (job', now_at, tt);
          logged = s.logged;
        },
        rw answered (answer-IsCalm op (find w.jobs (target any_config op)) e),
      )

  pub Framed-Holds : (H : Job → Type 0) → Framed (Holds id H Q)
  Framed-Holds H = record {
    ticks = λ w n s. record { valid = s.valid; held = s.held; logged = s.logged };
    states = λ w n s. record { valid = s.valid; held = s.held; logged = s.logged };
    disks = λ w n s. record { valid = s.valid; held = s.held; logged = s.logged };
    logs = λ w e h s. record { valid = s.valid; held = s.held; logged = quiet e w.log h s.logged };
  }

  pub Framed-Safe : Framed (Safe id Q)
  Framed-Safe = Framed-Holds λ _. Unit

  pub Keeps-edit : (op : Op) → IsEditOp op → Keeps (Safe id Q) (on_jobs (perform any_config op))
  Keeps-edit op e = record { at = λ w s. edit-Safe op w e s }

  pub Keeps-job_data : {H : Job → Type 0} → Keeps (Holds id H Q) (on_jobs (job_data id))
  unfolding on_jobs
  Keeps-job_data = record { at = λ w s. rw (job_data_found w.jobs id s.held.0 s.held.1) (s, tt) }

  -- The methods of the JobService that the use case calls.
  pub Keeps-update_status :
      (j : String) (status : JobStatus) (now : ℕ)
      → Keeps (Safe id Q) (on_jobs (update_status j status now))
  unfolding perform
  Keeps-update_status j status now = Keeps-edit (sets_status j status now) tt

  pub Keeps-update_progress :
      (j : String) (n : ℕ) (step : String) → Keeps (Safe id Q) (on_jobs (update_progress j n step))
  unfolding perform
  Keeps-update_progress j n step = Keeps-edit (sets_progress j n step) tt

  pub Keeps-set_error :
      (j : String) (e : JobError) (now : ℕ) → Keeps (Safe id Q) (on_jobs (set_error j e now))
  unfolding perform
  Keeps-set_error j e now = Keeps-edit (sets_error j e now) tt

  pub Keeps-set_metadata :
      (j : String) (input : VideoMetadata) (output : OutputInfo)
      → Keeps (Safe id Q) (on_jobs (set_metadata j input output))
  unfolding perform
  Keeps-set_metadata j input output = Keeps-edit (sets_metadata j input output) tt

  pub Keeps-set_hash : (j hash : String) → Keeps (Safe id Q) (on_jobs (set_hash j hash))
  unfolding perform
  Keeps-set_hash j hash = Keeps-edit (sets_hash j hash) tt

  pub Keeps-increment_retry : (j : String) → Keeps (Safe id Q) (on_jobs (increment_retry j))
  unfolding perform
  Keeps-increment_retry j = Keeps-edit (increments_retry j) tt

pub ruleset safe_rules = (
  frame_rules, Framed-Safe, Keeps-job_data, Keeps-update_status, Keeps-update_progress,
  Keeps-set_error, Keeps-set_metadata, Keeps-set_hash, Keeps-increment_retry,
)
