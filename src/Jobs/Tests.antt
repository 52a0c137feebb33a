-- ===== src/Jobs/Tests.antt =====
-- Tests of the JobService, and its theorems at a short history of calls.
use video_encoder_service.Prelude.{◌≡◌, refl, List, [], ◌∷◌, some, decimal}
use video_encoder_service.Types.Job.{Job, completed, running}
use video_encoder_service.Jobs.Repository.{new_repository}
use video_encoder_service.Jobs.Service.{Config, new_job, edit, create_job, set_status}
use video_encoder_service.Types.Error.{◌>>=◌, wrapping, pure, fail}
use video_encoder_service.Prelude.Dict
use video_encoder_service.Jobs.Valid.{IsValid, new_repository-IsValid}
use video_encoder_service.Jobs.View.{find, Op, creates, sets_status, perform}
use video_encoder_service.Jobs.Refines.{Refined, perform-refines}
use video_encoder_service.Jobs.History.{run, run_table, run-IsValid, find-run}
use video_encoder_service.Jobs.Timing.{IsTimed, find-IsTimed}

abbrev pub test_config : Config
test_config = record { default_chunk_duration = 6; max_retries = 3 }

-- A second job is created in the millisecond of the first.
abbrev pub test_history : List Op
test_history =
    creates "a.mp4" 0 5_000_000
    ∷ creates "b.mp4" 4 5_400_000
    ∷ sets_status "job_5" running 6_000_000
    ∷ sets_status "job_5" completed 9_000_000
    ∷ []

abbrev finished_job : Job
finished_job = record (new_job test_config "a.mp4" 0 5_000_000) {
  status = completed;
  meta = record {
    created_at = 5_000_000;
    completed_at = some 9_000_000;
    processing_time = 4_000_000;
  };
}

history_example : find (run test_config test_history new_repository) "job_5" ≡ some finished_job
unfolding find Dict.lookup run perform edit ◌>>=◌ create_job wrapping new_repository pure
    Dict.insert new_job decimal fail set_status
history_example = refl

perform-refines_example : Refined new_repository test_config (creates "a.mp4" 0 5_000_000)
perform-refines_example =
    perform-refines new_repository test_config (creates "a.mp4" 0 5_000_000) new_repository-IsValid

run-IsValid_example : IsValid (run test_config test_history new_repository)
run-IsValid_example = run-IsValid test_config test_history new_repository new_repository-IsValid

find-run_example :
    find (run test_config test_history new_repository) "job_5"
    ≡ run_table test_config test_history (find new_repository) "job_5"
find-run_example = find-run test_config test_history new_repository new_repository-IsValid "job_5"

find-IsTimed_example : IsTimed finished_job
find-IsTimed_example = find-IsTimed test_config test_history "job_5" finished_job history_example
