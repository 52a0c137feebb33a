-- ===== src/Transcode/Finish.antt =====
-- stepFinalization and executeSteps of internal/application/usecases/transcode_usecase.go, with
-- buildInputMetadata and buildOutputInfo, and the Store of
-- internal/infrastructure/cache/deduplication.go that the former calls.
use video_encoder_service.Prelude.{
  String, Bool, true, false, List, [], ◌∷◌, Option, none, some, if◌then◌else◌, str_append, str_eq,
  decimal, map, not,
}
use video_encoder_service.Prelude.Dict
use video_encoder_service.Types.Error.{
  reads, new_error, list_text, Result, ok, M, ◌>>=◌, ◌>>◌, pure, wrapping, ignore,
}
use video_encoder_service.Types.Job.{
  Job, JobStatus, completed, JobError, VideoMetadata, OutputInfo, QualityMetadata, QualityOutput,
}
use video_encoder_service.Types.Job as JobTypes
use video_encoder_service.Types.State.{
  step_text, hash_computation, deduplication, analysis, cleanup, finalization, is_step_completed,
  mark_step_completed,
}
use video_encoder_service.Types.Encoding.{
  QualityVariant, QualityOutputInfo, EncodeResult, VideoInfo,
}
use video_encoder_service.Jobs.Service.{update_status, set_error, set_metadata}
use video_encoder_service.Transcode.World.{
  World, Env, PreviewData, ask, log_event, broadcasts, change_state, or_fail, external, on_jobs,
  time, join,
}
use video_encoder_service.Transcode.Store.{save_state}
use video_encoder_service.Transcode.Limits.{Settings}
use video_encoder_service.Transcode.Qualities.{Encoded, stamped}
use video_encoder_service.Transcode.Steps.{
  job_data, report, set_status_text, step_hash_computation, step_deduplication, step_analysis,
  step_encoding,
}

unfoldable pub quality_metadata : QualityVariant → QualityMetadata
quality_metadata v = record {
  quality = v.name;
  resolution = str_append (decimal v.width) (str_append "x" (decimal v.height));
  bitrate = v.bitrate;
}

-- filepath.Base is left to the caller.
unfoldable pub build_input_metadata :
    String → String → VideoInfo → List QualityVariant → VideoMetadata
build_input_metadata base input_path info variants = record {
  file_name = base;
  source_path = input_path;
  resolution = str_append (decimal info.width) (str_append "x" (decimal info.height));
  duration = info.duration;
  generated_qualities = map quality_metadata variants;
}

unfoldable pub quality_output : QualityOutputInfo → QualityOutput
quality_output q = record {
  quality = q.quality;
  playlist = q.playlist;
  chunks_dir = q.chunks_dir;
  chunk_count = q.chunk_count;
}

-- The directory of the master playlist is that of the job under the outputs directory.
unfoldable pub build_output_info : String → EncodeResult → OutputInfo
build_output_info dir r = record {
  output_dir = dir;
  master_playlist = r.master_playlist;
  qualities = map quality_output r.quality_outputs;
  thumbnails = [];
  sprite_sheet = "";
  preview_clip = "";
  preview_gif = "";
  audio = none;
}

unfoldable pub add_previews : Option PreviewData → OutputInfo → OutputInfo
add_previews none out = out
add_previews (some p) out = record out {
  thumbnails = p.thumbnails;
  sprite_sheet = p.sprite_sheet;
  preview_clip = p.preview_clip;
  preview_gif = p.preview_gif;
  audio = p.audio;
}

unfoldable pub partial_error : String → List String → JobError
partial_error id failed = record {
  code = "ERR_PARTIAL_ENCODING";
  stage = "encoding";
  text = str_append "Some qualities failed to encode: " (list_text failed);
  logs_path = str_append "outputs/" (str_append id "/logs");
  failed_resolutions = failed;
}

abbrev pub is_nil : List String → Bool
is_nil [] = true
is_nil (q ∷ qs) = false

-- DeduplicationCache.Store: the map is changed, and then written to a file.
unfoldable pub cache_store : String → String → World → Result (Unit {0}) × World
cache_store hash id w = (ok tt, record w { cache = Dict.insert hash id w.cache })

module _ (env : Env) (u : Settings) where
  -- "Set error info if partial success"
  unfoldable pub note_partial : String → Bool → List String → M World (Unit {0})
  note_partial id false failed = pure tt
  note_partial id true failed = do
    now ← time env
    ignore (on_jobs (set_error id (partial_error id failed) now))

  -- CleanupIntermediateFiles removes two directories; what it answers is only logged.
  unfoldable pub clean_up : Bool → M World (Unit {0})
  clean_up true = pure tt
  clean_up false = do
    ignore (external env)
    stamped env (mark_step_completed (step_text cleanup))
    ignore (save_state env)

  unfoldable pub final_status : String → JobStatus → String → String → String → M World (Unit {0})
  final_status id status name note state_status = do
    report id 100 note
    now ← time env
    ignore (on_jobs (update_status id status now))
    log_event (broadcasts id name 100 note)
    change_state (set_status_text state_status)

  unfoldable pub set_final_status : String → Bool → M World (Unit {0})
  set_final_status id true =
      final_status id JobTypes.partial_success "PARTIAL_SUCCESS" "Completed with partial success"
        "partial_success"
  set_final_status id false = final_status id completed "COMPLETED" "Completed" "completed"

  unfoldable pub store_hash : String → String → M World (Unit {0})
  store_hash hash id =
      if str_eq hash "" then pure tt else (do cache_store hash id; ignore (external env))

  -- stepFinalization, but for the metrics.
  unfoldable pub step_finalization :
      (String → String) → Job → Encoded → VideoInfo → M World (Unit {0})
  step_finalization base job enc info = do
    report job.id 85 "Generating previews and thumbnails"
    previews ← ask env.previews
    report job.id 90 "Finalizing outputs"
    let input = build_input_metadata (base job.input_path) job.input_path info enc.variants
    let output =
        add_previews previews
          (build_output_info (join (join u.outputs_dir job.id) "hls") enc.result)
    on_jobs (set_metadata job.id input output)
    state ← reads (λ w. w.current)
    let partial = not (is_nil state.qualities_failed)
    note_partial job.id partial state.qualities_failed
    clean_up (is_step_completed state (step_text cleanup))
    set_final_status job.id partial
    found ← on_jobs (job_data job.id)
    store_hash found.input_hash job.id
    stamped env (mark_step_completed (step_text finalization))
    ignore (save_state env)

  -- A step is run unless the state says that it is complete.
  unfoldable pub unless : {A : Type 0} → String → M World A → M World A → M World A
  unless step done m = do
    state ← reads (λ w. w.current)
    if is_step_completed state step then done else m

  unfoldable pub reload_info : Job → M World VideoInfo
  reload_info job = do
    answer ← ask (λ n. env.video_info n job.input_path)
    wrapping "failed to reload video info: " (or_fail (new_error "ffprobe failed") answer)

  -- Steps 3 to 5.
  unfoldable pub after_deduplication : (String → String) → Job → Bool → M World (Unit {0})
  after_deduplication base job true = pure tt
  after_deduplication base job false = do
    info ← unless (step_text analysis) (reload_info job) (step_analysis env u job)
    enc ← step_encoding env u job info
    step_finalization base job enc info

  unfoldable pub execute_steps : (String → String) → Job → M World (Unit {0})
  execute_steps base job = do
    unless (step_text hash_computation) (pure tt) (step_hash_computation env u job)
    duplicate ← unless (step_text deduplication) (pure false) (step_deduplication env u job)
    after_deduplication base job duplicate
