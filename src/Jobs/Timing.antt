-- ===== src/Jobs/Timing.antt =====
-- When jobs are stamped as finished (UpdateStatus and SetError of job_service.go).
use video_encoder_service.Prelude.{
  ℕ, ◌-◌, ◌≡◌, ◌≢◌, refl, sym, ◌∙◌, String, true, ◌||◌, List, [], ◌∷◌, Option, none, some, arith,
  str_eq, Bool-cases, inl, inr,
}
use video_encoder_service.Prelude.Dict
use video_encoder_service.Types.Job.{Job, is_completed, is_failed}
use video_encoder_service.Jobs.Repository.{new_repository}
use video_encoder_service.Jobs.Service.{Config, new_job, set_status, set_failed}
use video_encoder_service.Jobs.Valid.{new_repository-IsValid}
use video_encoder_service.Jobs.View.{
  Table, find, Op, creates, sets_status, sets_error, deletes, target, write, effect, spec,
}
use video_encoder_service.Jobs.History.{run, run_table, find-run}

pub record IsTimed (job : Job) : Type 0 where
  pub stamped :
      (is_completed job.status || is_failed job.status) ≡ true → job.meta.completed_at ≢ none
  pub span :
      (t : ℕ) → job.meta.completed_at ≡ some t → job.meta.processing_time ≡ t - job.meta.created_at

abbrev AllTimed : Option Job → Type 0
AllTimed none = Unit
AllTimed (some job) = IsTimed job

new_job-IsTimed :
    (c : Config) (input : String) (chunk now : ℕ) → IsTimed (new_job c input chunk now)
unfolding new_job
new_job-IsTimed c input chunk now = record { stamped = λ h. cc; span = λ t h. cc }

write-IsTimed : (op : Op) (job : Job) → IsTimed job → IsTimed (write op job)
unfolding set_status set_failed
write-IsTimed (sets_status id status now) job h = record {
  stamped = λ e n. ground (arith, h.stamped);
  span = λ t e. ground (arith, h.span t);
}
write-IsTimed (sets_error id err now) job h = record {
  stamped = λ e n. cc;
  span = λ t e. ground arith;
}
write-IsTimed _ job h = record { stamped = h.stamped; span = h.span }

effect-AllTimed : (c : Config) (op : Op) (o : Option Job) → AllTimed o → AllTimed (effect c op o)
effect-AllTimed c (creates input chunk now) none h = new_job-IsTimed c input chunk now
effect-AllTimed c (deletes id) (some job) h = tt
effect-AllTimed c op (some job) h = write-IsTimed op job h
effect-AllTimed c _ none h = tt

run_table-AllTimed :
    (c : Config) (ops : List Op) (t : Table)
    → ((j : String) → AllTimed (t j))
    → (j : String) → AllTimed (run_table c ops t j)
unfolding run_table
run_table-AllTimed c [] t h j = h j
run_table-AllTimed c (op ∷ ops) t h j =
    run_table-AllTimed c ops (spec c op t)
      (λ i. elim (Bool-cases (str_eq (target c op) i)) [
        | inl same ↦ rw same (effect-AllTimed c op (t i) (h i))
        | inr other ↦ rw other (h i)
      ])
      j

find-empty : (j : String) → find new_repository j ≡ none
unfolding find new_repository Dict.lookup
find-empty j = refl

-- After any history of calls on a new repository, a job whose status is COMPLETED or FAILED has a
-- completion time, and the processing time of a job that has one is the time from its creation to
-- its completion.
pub find-IsTimed :
    (c : Config) (ops : List Op) (id : String) (job : Job)
    → find (run c ops new_repository) id ≡ some job
    → IsTimed job
find-IsTimed c ops id job h =
    rw (sym (find-run c ops new_repository new_repository-IsValid id) ∙ h) at
      (run_table-AllTimed c ops (find new_repository) (λ j. rw (find-empty j) tt) id)
