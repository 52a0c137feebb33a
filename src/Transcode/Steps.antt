-- ===== src/Transcode/Steps.antt =====
-- The steps of internal/application/usecases/transcode_usecase.go: stepHashComputation,
-- stepDeduplication, stepAnalysis, stepEncoding, stepFinalization and executeSteps. The ID, the
-- input path and the chunk duration of a job never change, so that the steps take the job as it
-- was.
use video_encoder_service.Prelude.{
  ℕ, String, Bool, true, false, List, [], ◌∷◌, Option, none, some, if◌then◌else◌, str_append,
  str_eq,
}
use video_encoder_service.Prelude.Dict
use video_encoder_service.Types.Error.{
  reads, Error, message, partial_success, new_error, Result, ok, err, panic, M, ◌>>=◌, ◌>>◌, pure,
  fail, wrapping, ignore,
}
use video_encoder_service.Types.Job.{Job, completed}
use video_encoder_service.Types.State.{
  JobState, step_text, hash_computation, deduplication, analysis, encoding_720p, master_playlist,
  cleanup, mark_step_completed, mark_quality_failed,
}
use video_encoder_service.Types.Encoding.{VideoInfo}
use video_encoder_service.Jobs.Repository.{Jobs, load}
use video_encoder_service.Jobs.Service.{get_job, update_status, update_progress, set_hash}
use video_encoder_service.Transcode.World.{
  World, Env, ask, log_event, broadcasts, change_state, or_fail, on_jobs, time,
}
use video_encoder_service.Transcode.Store.{save_state}
use video_encoder_service.Transcode.Limits.{Settings, check_job_disk_limit}
use video_encoder_service.Transcode.Qualities.{
  Encoded, stamped, set_current, encode_with_resume, encode_separate_av,
}

-- `jobData, _ := uc.jobService.GetJob(id)`: the nil of a missing job is read through.
unfoldable pub data_case : Result ℕ × Jobs → Result Job × Jobs
data_case (ok p, s) = load p s
data_case (err e, s) = (panic, s)
data_case (panic, s) = (panic, s)

unfoldable pub job_data : String → M Jobs Job
job_data id s = data_case (get_job id s)

abbrev pub report : String → ℕ → String → M World (Unit {0})
report id percentage step = ignore (on_jobs (update_progress id percentage step))

abbrev pub set_status_text : String → JobState → JobState
set_status_text status s = record s { status = status }

unfoldable pub hash_or_fail : String → Option String → M World String
hash_or_fail path = or_fail (message (str_append "failed to open file: open " path))

module _ (env : Env) (u : Settings) where
  -- `state.MarkStepCompleted(done); state.CurrentStep = next`
  abbrev pub finish_step : String → String → M World (Unit {0})
  finish_step done following = do
    stamped env (mark_step_completed done)
    change_state (set_current following)

  unfoldable pub step_hash_computation : Job → M World (Unit {0})
  step_hash_computation job = do
    report job.id 5 "Computing file hash"
    log_event (broadcasts job.id "RUNNING" 5 "Computing file hash")
    answer ← ask (λ n. env.hash n job.input_path)
    hash ← wrapping "failed to compute hash: " (hash_or_fail job.input_path answer)
    on_jobs (set_hash job.id hash)
    finish_step (step_text hash_computation) (step_text deduplication)
    save_state env

  unfoldable pub duplicate_found : Job → M World Bool
  duplicate_found job = do
    report job.id 100 "Completed (duplicate)"
    now ← time env
    ignore (on_jobs (update_status job.id completed now))
    change_state (set_status_text "completed")
    stamped env (mark_step_completed (step_text deduplication))
    ignore (save_state env)
    pure true

  unfoldable pub no_duplicate : M World Bool
  no_duplicate = do
    finish_step (step_text deduplication) (step_text analysis)
    save_state env
    pure false

  unfoldable pub check_duplicate : Job → Option String → M World Bool
  check_duplicate job none = no_duplicate
  check_duplicate job (some existing) = duplicate_found job

  unfoldable pub look_up : Job → String → M World Bool
  look_up job hash = do
    duplicate ← reads (λ w. Dict.lookup hash w.cache)
    check_duplicate job duplicate

  unfoldable pub step_deduplication : Job → M World Bool
  step_deduplication job = do
    report job.id 10 "Checking for duplicates"
    found ← on_jobs (job_data job.id)
    if str_eq found.input_hash ""
        then fail (new_error "hash not computed")
        else look_up job found.input_hash

  unfoldable pub step_analysis : Job → M World VideoInfo
  step_analysis job = do
    report job.id 15 "Analyzing input video"
    log_event (broadcasts job.id "RUNNING" 15 "Analyzing input video")
    answer ← ask (λ n. env.video_info n job.input_path)
    info ← wrapping "failed to analyze video: " (or_fail (new_error "ffprobe failed") answer)
    finish_step (step_text analysis) (step_text encoding_720p)
    ignore (save_state env)
    pure info

  unfoldable pub mark_failures : List String → M World (Unit {0})
  mark_failures [] = pure tt
  mark_failures (q ∷ qs) = do stamped env (mark_quality_failed q); mark_failures qs

  unfoldable pub note_failures : Option Error → M World (Unit {0})
  note_failures (some (partial_success failed n total)) = do
    mark_failures failed
    ignore (save_state env)
  note_failures _ = pure tt

  -- `return result, variants, err`, of which the caller reads the error first.
  unfoldable pub with_error : Encoded → Option Error → M World Encoded
  with_error enc none = pure enc
  with_error enc (some e) = fail e

  unfoldable pub encode_combined : Job → VideoInfo → M World Encoded
  encode_combined job info = do
    enc ← wrapping "encoding failed: " (encode_with_resume env u job info)
    note_failures enc.partial
    finish_step (step_text master_playlist) (step_text cleanup)
    ignore (save_state env)
    with_error enc enc.partial

  unfoldable pub step_encoding : Job → VideoInfo → M World Encoded
  step_encoding job info = do
    report job.id 30 "Starting multi-quality encoding"
    log_event (broadcasts job.id "RUNNING" 30 "Starting multi-quality encoding")
    check_job_disk_limit env u job.id
    if info.has_audio then encode_separate_av env u job info else encode_combined job info
