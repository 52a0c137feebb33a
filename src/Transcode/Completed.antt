-- ===== src/Transcode/Completed.antt =====
-- A quality that the state of a job has as complete stays so, and ffmpeg is not started on it.
use video_encoder_service.Prelude.{
  ℕ, suc, ◌≡◌, refl, String, true, false, List, [], ◌∷◌, ◌++◌, inl, inr, if◌then◌else◌, str_eq,
  one_of, Bool-cases,
}
use video_encoder_service.Types.Job.{JobStatus}
use video_encoder_service.Types.State.{
  JobState, is_quality_completed, mark_quality_completed, mark_quality_failed, mark_step_completed,
}
use video_encoder_service.Jobs.Service.{update_status}
use video_encoder_service.Jobs.Valid.{IsValid}
use video_encoder_service.Jobs.View.{find, sets_status, perform}
use video_encoder_service.Jobs.Refines.{perform-refines}
use video_encoder_service.Jobs.History.{perform-IsValid}
use video_encoder_service.Transcode.World.{
  World, Event, starts, sleeps, encodes, broadcasts, log_event, change_state, on_jobs,
}
use video_encoder_service.Transcode.Store.{touch}
use video_encoder_service.Transcode.Qualities.{set_status_text, set_current}
use video_encoder_service.Transcode.Keeps.{Keeps}
use video_encoder_service.Transcode.Safe.{any_config, answer-IsCalm}
use video_encoder_service.Transcode.Steady.{
  Steady, steady_rules, steady_write_files, steady_enforce,
}

-- How often ffmpeg was started on a quality.
abbrev pub encodings : String → List Event → ℕ
encodings q [] = 0
encodings q (encodes id name ∷ es) =
    let rest = encodings q es in if str_eq name q then suc rest else rest
encodings q (starts id ∷ es) = encodings q es
encodings q (sleeps n ∷ es) = encodings q es
encodings q (broadcasts id status n step ∷ es) = encodings q es

-- The state has the quality as complete, and ffmpeg was started on it `n` times.
pub record Done (q : String) (n : ℕ) (w : World) : Type 0 where
  pub valid : IsValid w.jobs
  pub complete : is_quality_completed w.current q ≡ true
  pub started : encodings q w.log ≡ n

pub one_of-append :
    (q : String) (xs ys : List String) → one_of q xs ≡ true → one_of q (xs ++ ys) ≡ true
one_of-append q [] ys h = cc
one_of-append q (x ∷ xs) ys h = elim (Bool-cases (str_eq x q)) [
  | inl same ↦ rw same refl
  | inr other ↦ rw other (one_of-append q xs ys (rw other at h))
]

module _ (q : String) (n : ℕ) where
  pub Steady-Done : Steady (Done q n)
  Steady-Done = record {
    ticks = λ w t d. record { valid = d.valid; complete = d.complete; started = d.started };
    disks = λ w t d. record { valid = d.valid; complete = d.complete; started = d.started };
  }

  -- A change of the state keeps the qualities that are complete.
  abbrev pub Grows : (JobState → JobState) → Type 0
  Grows f = (s : JobState) → is_quality_completed s q ≡ true → is_quality_completed (f s) q ≡ true

  pub Keeps-change : (f : JobState → JobState) → Grows f → Keeps (Done q n) (change_state f)
  unfolding change_state
  Keeps-change f g = record {
    at = λ w d.
        (record { valid = d.valid; complete = g w.current d.complete; started = d.started }, tt);
  }

  pub Grows-completed : (name : String) (now : ℕ) → Grows (mark_quality_completed name now)
  unfolding mark_quality_completed is_quality_completed
  Grows-completed name now s h = elim (Bool-cases (one_of name s.qualities_complete)) [
    | inl there ↦ rw there h
    | inr new ↦ rw new (one_of-append q s.qualities_complete (name ∷ []) h)
  ]

  Grows-same :
      (f : JobState → JobState)
      → ((s : JobState) → (f s).qualities_complete ≡ s.qualities_complete)
      → Grows f
  unfolding is_quality_completed
  Grows-same f e s h = rw (e s) h

  pub Keeps-status :
      (id : String) (status : JobStatus) (now : ℕ)
      → Keeps (Done q n) (on_jobs (update_status id status now))
  unfolding on_jobs perform
  Keeps-status id status now = record {
    at = λ w d.
        let op = sets_status id status now in
        let (answered, table) = perform-refines w.jobs any_config op d.valid in
        (
          record {
            valid = perform-IsValid any_config op w.jobs d.valid;
            complete = d.complete;
            started = d.started;
          },
          rw answered (answer-IsCalm op (find w.jobs id) tt),
        );
  }

  -- ffmpeg is started on another quality.
  pub Keeps-started :
      (id name : String) → str_eq name q ≡ false → Keeps (Done q n) (log_event (encodes id name))
  unfolding log_event
  Keeps-started id name other = record {
    at = λ w d.
        (record { valid = d.valid; complete = d.complete; started = rw other d.started }, tt);
  }

  pub Grows-touch : (now : ℕ) → Grows (touch now)
  Grows-touch now = Grows-same (touch now) λ s. refl

  pub Grows-failed : (name : String) (now : ℕ) → Grows (mark_quality_failed name now)
  unfolding mark_quality_failed
  Grows-failed name now = Grows-same (mark_quality_failed name now) λ s. refl

  pub Grows-step : (step : String) (now : ℕ) → Grows (mark_step_completed step now)
  unfolding mark_step_completed
  Grows-step step now = Grows-same (mark_step_completed step now) λ s. refl

  pub Grows-status : (status : String) → Grows (set_status_text status)
  Grows-status status = Grows-same (set_status_text status) λ s. refl

  pub Grows-current : (step : String) → Grows (set_current step)
  Grows-current step = Grows-same (set_current step) λ s. refl

pub ruleset done_rules = (
  steady_rules, Steady-Done, steady_write_files, steady_enforce, Keeps-change, Keeps-status,
  Keeps-started, Grows-completed, Grows-touch, Grows-failed, Grows-step, Grows-status,
  Grows-current,
)
