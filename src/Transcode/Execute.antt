-- ===== src/Transcode/Execute.antt =====
-- Execute, process, getOrCreateState and handleError of
-- internal/application/usecases/transcode_usecase.go, and MoveToDLQ of
-- internal/application/services/dlq_service.go.
use video_encoder_service.Prelude.{
  ◌⊎◌, inl, inr, ℕ, zero, suc, ◌+◌, ◌-◌, String, [], Option, none, some, if◌then◌else◌, str_append,
  decimal, length, get_elem?, ltb,
}
use video_encoder_service.Prelude.Dict
use video_encoder_service.Types.Error.{
  try, Error, message, error_text, ok, panic, M, ◌>>=◌, ◌>>◌, pure, fail, wrapping, ignore,
}
use video_encoder_service.Types.Job.{Job, JobError, running, status_text}
use video_encoder_service.Types.State.{JobState}
use video_encoder_service.Types.Retry.{RetryStrategy, get_retry_strategy}
use video_encoder_service.Jobs.Repository.{load}
use video_encoder_service.Jobs.Service.{get_job, update_status, set_error, increment_retry}
use video_encoder_service.Transcode.World.{
  World, DlqEntry, Env, ask, log_event, starts, sleeps, change_state, on_jobs, time,
}
use video_encoder_service.Transcode.Store.{load_state, create_state}
use video_encoder_service.Transcode.Limits.{Settings}
use video_encoder_service.Transcode.Errors.{extract_error_code}
use video_encoder_service.Transcode.Finish.{execute_steps}

unfoldable pub stage_error : String → String → String → String → JobError
stage_error id stage code text = record {
  code = code;
  stage = stage;
  text = text;
  logs_path = str_append "logs/" (str_append id (str_append "/" (str_append stage ".log")));
  failed_resolutions = [];
}

unfoldable pub new_entry : String → ℕ → Job → DlqEntry
new_entry reason now job = record {
  job_id = job.id;
  input_path = job.input_path;
  status = status_text job.status;
  error = job.error;
  retries = job.retries;
  max_retries = job.max_retries;
  reason = reason;
  moved_at = now;
  original_job = job;
}

unfoldable pub put_entry : DlqEntry → M World (Unit {0})
put_entry e w = (ok tt, record w { dlq = Dict.insert e.job_id e w.dlq })

-- The entry is written, or the write fails.
unfoldable pub dlq_outcome : DlqEntry → Option String → M World (Unit {0})
dlq_outcome e (some text) = fail (message (str_append "failed to write DLQ entry: " text))
dlq_outcome e none = put_entry e

module _ (env : Env) where
  unfoldable pub handle_error : String → String → String → String → M World (Unit {0})
  handle_error id stage code text = do
    now ← time env
    ignore (on_jobs (set_error id (stage_error id stage code text) now))

  unfoldable pub move_to_dlq : String → String → M World (Unit {0})
  move_to_dlq id reason = do
    p ← on_jobs (get_job id)
    job ← on_jobs (load p)
    now ← time env
    r ← ask env.run
    dlq_outcome (new_entry reason now job) r

  -- `state, err := LoadState(id); if err == nil { return state }; return CreateState(...)`
  unfoldable pub load_or_create : Job → Error ⊎ JobState → M World JobState
  load_or_create job (inr s) = pure s
  load_or_create job (inl e) = create_state env job.id job.input_path job.chunk_duration

  unfoldable pub get_or_create_state : Job → M World JobState
  get_or_create_state job = do r ← try (load_state env job.id); load_or_create job r

module _ (env : Env) (u : Settings) where
  -- process, but for the metrics and for the two goroutines that it starts.
  unfoldable pub process : (String → String) → Job → M World (Unit {0})
  process base job = do
    log_event (starts job.id)
    s ← wrapping "failed to get/create state: " (get_or_create_state env job)
    change_state (λ _. s)
    now ← time env
    wrapping "failed to update status: " (on_jobs (update_status job.id running now))
    execute_steps env u base job

module _ (env : Env) where
  -- The wait for a retry: IncrementRetry's error is dropped.
  unfoldable pub retry_after : String → Error → Option ℕ → M World (Unit {0})
  retry_after id last none w = (panic, w)
  retry_after id last (some seconds) w =
      (do log_event (sleeps seconds); ignore (on_jobs (increment_retry id))) w

  -- What stands before attempts but the first: the retry is refused, or waited for. Failing with
  -- `last` is Execute's early return.
  unfoldable pub before_retry : String → ℕ → Error → String → RetryStrategy → M World (Unit {0})
  before_retry id attempt last code strategy =
      if strategy.should_retry
      then (if ltb (length strategy.backoff) attempt
          then (do
            handle_error env id "retry" code (str_append "Max retries exceeded: " (error_text last))
            fail last)
          else retry_after id last (get_elem? strategy.backoff (attempt - 1)))
      else (do
        handle_error env id "validation" code (str_append "Non-retryable error: " (error_text last))
        fail last)

  unfoldable pub gate : String → ℕ → Error → String → M World (Unit {0})
  gate id zero last code = pure tt
  gate id (suc n) last code = before_retry id (suc n) last code (get_retry_strategy code)

module _ (env : Env) (u : Settings) where
  -- "Final failure - move to DLQ"
  unfoldable pub give_up : String → Error → String → M World (Unit {0})
  give_up id last code = do
    handle_error env id "retry" code (str_append "Max retries exceeded: " (error_text last))
    ignore (
        move_to_dlq env id (
          str_append "Max retries exceeded ("
            (str_append (decimal (u.max_retries + 1)) " attempts)")))
    fail last

module _ (env : Env) (u : Settings) (id : String) (attempt_once : M World (Unit {0})) where
  -- The loop of Execute, with the rounds that are left, over what one attempt does.
  unfoldable pub attempts : ℕ → ℕ → Error → String → M World (Unit {0})
  attempts zero attempt last code = give_up env u id last code
  attempts (suc left) attempt last code = do
    gate env id attempt last code
    r ← try attempt_once
    elim r [ inr t ↦ pure t | inl e ↦ attempts left (suc attempt) e (extract_error_code e) ]

-- Execute. The first round runs whatever the error in hand is, so that the initial one, nil in the
-- source, is never returned.
unfoldable pub execute : Env → Settings → (String → String) → Job → M World (Unit {0})
execute env u base job =
    attempts env u job.id (process env u base job) (suc u.max_retries) 0 (message "") ""
