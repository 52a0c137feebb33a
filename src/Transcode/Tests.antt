-- ===== src/Transcode/Tests.antt =====
-- The theorems on the use case at one job, of a video of 1280 by 720 with no audio.
use video_encoder_service.Prelude.{ℕ, ◌↔◌, some, ◌+◌, ◌≤◌, ◌≡◌, refl, true, false, [], ◌∷◌}
use video_encoder_service.Types.Error.{ok, message, ◌>>=◌, wrapping, pure}
use video_encoder_service.Types.State.{is_quality_completed}
use video_encoder_service.Types.Encoding.{quality_ladder}
use video_encoder_service.Transcode.World.{
  World, Env, time, or_fail, external, ask, answer_of, set_disk,
}
use video_encoder_service.Transcode.Store.{
  write_files, load_state, load_file, write_temp, write_outcome, rename, rename_outcome,
  create_state, save,
}
use video_encoder_service.Transcode.Qualities.{encode_with_resume}
use video_encoder_service.Transcode.Errors.{extract_error_code}
use video_encoder_service.Transcode.Encoder.{select_variants, select_qualities, all_qualities}
use video_encoder_service.Transcode.Execute.{execute, get_or_create_state, load_or_create}
use video_encoder_service.Transcode.Attempt.{Ended}
use video_encoder_service.Transcode.Attempts.{execute-Ended}
use video_encoder_service.Transcode.Atomic.{Replaced, write_files-Replaced}
use video_encoder_service.Transcode.Codes.{IsCoded, extract_error_code-IsCoded}
use video_encoder_service.Transcode.Completed.{encodings}
use video_encoder_service.Transcode.Once.{encode_with_resume-skips}
use video_encoder_service.Transcode.Keeps.{IsCalm}
use video_encoder_service.Transcode.Yields.{Given}
use video_encoder_service.Transcode.Whole.{step_encoding-IsWhole}
use video_encoder_service.Transcode.Steps.{step_encoding}
use video_encoder_service.Transcode.Beside.{
  Process, new_process, works, monitor, heart, disk_checker, Reach, here, later, starts_monitor,
  has_state, over_limit,
}
use video_encoder_service.Transcode.Returns.{Abandoned, CanReturn, Reach-CanReturn_iff}
use video_encoder_service.Transcode.Limits.{
  check_job_disk_limit, check_job_size_limit, limit_answer, limit_outcome, delete_job_files,
  job_size_error,
}
use video_encoder_service.Jobs.Repository.{change, get, load, update}
use video_encoder_service.Jobs.Service.{
  update_status, edit, set_error, set_failed, set_status, stamp,
}
use video_encoder_service.Transcode.World.{on_jobs}
use video_encoder_service.Transcode.Store.{rename_file, rename_temp}
use video_encoder_service.Prelude.{decimal, one_of, none}
use video_encoder_service.Transcode.Found.{names}
use video_encoder_service.Jobs.View.{perform}
use video_encoder_service.Jobs.Repository.{new_repository}
use video_encoder_service.Jobs.Service.{create_job, new_job}
use video_encoder_service.Types.State.{JobState}
use video_encoder_service.Prelude.Dict
use video_encoder_service.Types.Error.{Error, err, try, reads, fail, ignore}
use video_encoder_service.Samples.{
  settings, info, env, job, no_state, world, jobs-IsValid, jobs_hold,
}

execute-Ended_example :
    (k : ℕ) × (1 ≤ k)
    × (k ≤ 3 + 1)
    × (k ≤ 4)
    × Ended job.id (0 + k) (execute env settings (λ path. path) job world)
execute-Ended_example =
    execute-Ended env settings (λ path. path) job job world jobs-IsValid jobs_hold

write_files-Replaced_example : Replaced no_state world (write_files env no_state world)
write_files-Replaced_example = write_files-Replaced env no_state world

-- A portrait video of 406 by 720 gets no quality.
portrait : select_qualities 406 720 ≡ []
unfolding select_qualities all_qualities
portrait = refl

-- The word stands in the middle of the text.
extract_error_code-IsCoded_example :
    IsCoded
      (message "write: disk quota exceeded")
      (extract_error_code (message "write: disk quota exceeded"))
extract_error_code-IsCoded_example =
    extract_error_code-IsCoded (message "write: disk quota exceeded")

abbrev lowest_done : World
lowest_done = record world { current = record no_state { qualities_complete = "240p" ∷ [] } }

lowest_complete : is_quality_completed lowest_done.current "240p" ≡ true
unfolding is_quality_completed
lowest_complete = refl

encode_with_resume-skips_example :
    IsCalm (encode_with_resume env settings job info lowest_done).0
    × (encodings "240p" (encode_with_resume env settings job info lowest_done).1.log ≡ 0)
    × (is_quality_completed (encode_with_resume env settings job info lowest_done).1.current "240p"
        ≡ true)
encode_with_resume-skips_example =
    encode_with_resume-skips env settings job info "240p" lowest_done jobs-IsValid lowest_complete

-- No call of the surroundings fails.
abbrev calm_env : Env
calm_env = record env { run = λ n. none }

chosen : one_of "240p" (names (select_variants info.width info.height)) ≡ true
unfolding select_variants quality_ladder
chosen = refl

step_encoding-IsWhole_example :
    IsCalm (step_encoding calm_env settings job info world).0
    × Given
        (λ enc w'. is_quality_completed w'.current "240p" ≡ true)
        (step_encoding calm_env settings job info world)
step_encoding-IsWhole_example =
    step_encoding-IsWhole calm_env settings job job info "240p" world jobs-IsValid jobs_hold refl
      chosen

-- A run of process whose disk check finds the job over its limit, once the state is made.
abbrev big_env : Env
big_env = record env { job_size = λ n. some 1_000_000_000 }

abbrev loaded_world : World
loaded_world = (get_or_create_state big_env job world).1

state_made : (s : JobState) × (get_or_create_state big_env job world ≡ (ok s, loaded_world))
unfolding get_or_create_state load_or_create load_state load_file create_state save write_files
    write_temp write_outcome rename rename_outcome external ask answer_of set_disk ◌>>=◌ pure try
    wrapping reads fail time Dict.lookup
state_made = (_, refl)

abbrev limited_world : World
limited_world = (check_job_disk_limit big_env settings job.id loaded_world).1

limit_found :
    (e : Error) × (check_job_disk_limit big_env settings job.id loaded_world
      ≡ (err e, limited_world))
unfolding check_job_disk_limit check_job_size_limit limit_answer limit_outcome try ask or_fail ◌>>=◌
    pure fail ignore time on_jobs update_status edit Dict.lookup get_or_create_state load_state
    reads load_file load_or_create create_state wrapping save write_files external answer_of
    write_temp change get load update set_error set_failed set_status stamp Dict.delete Dict.insert
    decimal delete_job_files job_size_error rename rename_file rename_outcome rename_temp
    write_outcome set_disk perform create_job new_repository new_job
limit_found = (_, refl)

abbrev unchecked : Process
unchecked = record {
  stage = works;
  deferred = disk_checker ∷ heart ∷ monitor ∷ [];
  monitors = true;
  beats = true;
  checks = false;
}

limit_reached : Reach big_env settings job new_process world unchecked limited_world
limit_reached =
    later (later (later here (starts_monitor refl)) (has_state refl state_made.1))
      (over_limit refl limit_found.1)

Reach-CanReturn_iff_example :
    CanReturn big_env settings job unchecked limited_world ↔ ¬ (Abandoned unchecked)
Reach-CanReturn_iff_example = Reach-CanReturn_iff big_env settings job limit_reached
