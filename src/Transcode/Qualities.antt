-- ===== src/Transcode/Qualities.antt =====
-- encodeWithResume, loadExistingQuality and encodeSeparateAV of
-- internal/application/usecases/transcode_usecase.go, and EncodeSeparateAV of
-- separate_av_encoder.go beside it. The extraction and processing of the audio and each video-only
-- track are one external command each.
use video_encoder_service.Prelude.{
  ◌⊎◌, inl, inr, ℕ, String, List, [], ◌∷◌, ◌++◌, Option, none, some, if◌then◌else◌, length,
  str_append, decimal, map,
}
use video_encoder_service.Types.Error.{
  try, reads, Error, partial_success, new_error, wrap, M, ◌>>=◌, ◌>>◌, pure, fail, wrapping, ignore,
}
use video_encoder_service.Types.Job.{Job, failed}
use video_encoder_service.Types.State.{
  JobState, step_text, master_playlist, cleanup, is_quality_completed, mark_quality_completed,
  mark_quality_failed, mark_step_completed,
}
use video_encoder_service.Types.Encoding.{
  QualityVariant, QualityOutputInfo, EncodeResult, VideoInfo,
}
use video_encoder_service.Types.Retry.{code_job_size_exceeded}
use video_encoder_service.Jobs.Service.{update_status}
use video_encoder_service.Transcode.World.{
  World, Env, ask, log_event, encodes, change_state, external, on_jobs, time, join,
}
use video_encoder_service.Transcode.Store.{save_state}
use video_encoder_service.Transcode.Encoder.{
  QualityEncodingResult, QualitySpec, select_variants, select_qualities, encode_quality, has_dir,
  quality_dir,
}
use video_encoder_service.Transcode.Limits.{Settings, enforce_job_size_limit}

-- The variables of the loop.
pub record Progress : Type 0 where
  pub outputs : List QualityOutputInfo
  pub successful : List QualityVariant
  pub failed_qualities : List String

pub record Encoded : Type 0 where
  pub result : EncodeResult
  pub variants : List QualityVariant
  -- the *PartialSuccessError that goes with the result
  pub partial : Option Error

abbrev pub add_success : QualityVariant → QualityOutputInfo → Progress → Progress
add_success v out acc = record acc {
  outputs = acc.outputs ++ out ∷ [];
  successful = acc.successful ++ v ∷ [];
}

abbrev pub add_failure : String → Progress → Progress
add_failure name acc = record acc { failed_qualities = acc.failed_qualities ++ name ∷ [] }

abbrev pub output_of : QualityEncodingResult → QualityOutputInfo
output_of r = record {
  quality = r.quality;
  playlist = r.playlist;
  chunks_dir = r.chunks_dir;
  chunk_count = r.chunk_count;
}

abbrev pub set_status_text : String → JobState → JobState
set_status_text status s = record s { status = status }

abbrev pub set_current : String → JobState → JobState
set_current step s = record s { current_step = step }

-- `time.Now()` in a method of the state.
abbrev pub stamped : Env → (ℕ → JobState → JobState) → M World (Unit {0})
stamped env f = do now ← time env; change_state (f now)

unfoldable pub partial_or_not : List String → ℕ → ℕ → Option Error
partial_or_not [] n total = none
partial_or_not (f ∷ fs) n total = some (partial_success (f ∷ fs) n total)

unfoldable pub encoded_of : String → ℕ → Progress → List QualityVariant → M World Encoded
encoded_of playlist total acc [] = fail (new_error "all quality encodings failed")
encoded_of playlist total acc (v ∷ vs) = pure (record {
  result = record { master_playlist = playlist; quality_outputs = acc.outputs };
  variants = v ∷ vs;
  partial = partial_or_not acc.failed_qualities (length (v ∷ vs)) total;
})

module _ (env : Env) (u : Settings) where
  -- loadExistingQuality, for a directory that is there.
  unfoldable pub load_existing : Job → QualityVariant → Progress → M World Progress
  load_existing job v acc = do
    n ← ask env.chunks
    let dir = quality_dir u.outputs_dir job.id v.name
    pure (
        add_success v
          (record {
            quality = v.name;
            playlist = join dir "main.m3u8";
            chunks_dir = dir;
            chunk_count = n;
          })
          acc)

  -- "Skip if already completed"
  unfoldable pub resume_quality : Job → QualityVariant → Progress → M World Progress
  resume_quality job v acc = do
    there ← reads (λ w. has_dir job.id v.name w.disk)
    if there then load_existing job v acc else pure acc

  -- What follows a success: the size limit is enforced, and a job over it fails.
  unfoldable pub size_outcome : Job → Progress → Error ⊎ Unit {0} → M World Progress
  size_outcome job acc (inr t) = do ignore (save_state env); pure acc
  size_outcome job acc (inl e) = do
    now ← time env
    ignore (on_jobs (update_status job.id failed now))
    change_state (set_status_text "failed")
    ignore (save_state env)
    fail (wrap (str_append code_job_size_exceeded ": ") e)

  unfoldable pub encode_outcome :
      Job → QualityVariant → Progress → QualityEncodingResult → M World Progress
  encode_outcome job v acc r =
      if r.success
      then (do
        stamped env (mark_quality_completed v.name)
        limit ← try (enforce_job_size_limit env u job.id)
        size_outcome job (add_success v (output_of r) acc) limit)
      else (do
        stamped env (mark_quality_failed v.name)
        ignore (save_state env)
        pure (add_failure v.name acc))

  unfoldable pub encode_new : Job → QualityVariant → Progress → M World Progress
  encode_new job v acc = do
    change_state (set_current (str_append "encoding_" v.name))
    ignore (save_state env)
    r ← encode_quality env u.outputs_dir job.id job.input_path v.name
    encode_outcome job v acc r

  unfoldable pub encode_one : Job → QualityVariant → Progress → M World Progress
  encode_one job v acc = do
    state ← reads (λ w. w.current)
    if is_quality_completed state v.name then resume_quality job v acc else encode_new job v acc

  unfoldable pub encode_loop : Job → List QualityVariant → Progress → M World Progress
  encode_loop job [] acc = pure acc
  encode_loop job (v ∷ vs) acc = do acc' ← encode_one job v acc; encode_loop job vs acc'

  unfoldable pub playlist_written : List QualityVariant → M World (Unit {0})
  playlist_written [] = pure tt
  playlist_written (v ∷ vs) = wrapping "failed to generate master playlist: " (external env)

  unfoldable pub encode_with_resume : Job → VideoInfo → M World Encoded
  encode_with_resume job info = do
    let variants = select_variants info.width info.height
    acc ← encode_loop job variants (record { outputs = []; successful = []; failed_qualities = [] })
    playlist_written acc.successful
    let playlist = join (join (join u.outputs_dir job.id) "hls") "master.m3u8"
    encoded_of playlist (length variants) acc acc.successful

abbrev pub keep_track : Option String → QualitySpec → List QualitySpec → List QualitySpec
keep_track none q tracks = q ∷ tracks
keep_track (some text) q tracks = tracks

-- parseWidth and parseHeight read back the numbers of a resolution that has just been printed.
abbrev pub track_variant : QualitySpec → QualityVariant
track_variant q = record {
  name = q.name;
  width = q.width;
  height = q.height;
  bitrate = str_append (decimal q.bandwidth_kbps) "k";
  max_rate = "";
  buf_size = "";
}

abbrev pub track_output : QualitySpec → QualityOutputInfo
track_output q = record {
  quality = q.name;
  playlist = join (join "video" q.name) "main.m3u8";
  chunks_dir = join "video" q.name;
  chunk_count = 0;
}

module _ (env : Env) (u : Settings) where
  -- The loop over the video-only tracks: one that cannot be encoded is left out.
  unfoldable pub encode_tracks : Job → List QualitySpec → M World (List QualitySpec)
  encode_tracks job [] = pure []
  encode_tracks job (q ∷ qs) = do
    external env
    log_event (encodes job.id q.name)
    r ← ask env.run
    tracks ← encode_tracks job qs
    pure (keep_track r q tracks)

  unfoldable pub encode_separate : Job → VideoInfo → M World (List QualitySpec)
  encode_separate job info = do
    wrapping "failed to extract audio: " (external env)
    wrapping "failed to process audio: " (external env)
    wrapping "failed to generate audio HLS: " (external env)
    tracks ← encode_tracks job (select_qualities info.width info.height)
    wrapping "failed to generate master playlist: " (external env)
    pure tracks

  unfoldable pub mark_tracks : List QualitySpec → M World (Unit {0})
  mark_tracks [] = pure tt
  mark_tracks (q ∷ qs) = do stamped env (mark_quality_completed q.name); mark_tracks qs

  unfoldable pub encode_separate_av : Job → VideoInfo → M World Encoded
  encode_separate_av job info = do
    tracks ← wrapping "separate A/V encoding failed: " (encode_separate job info)
    mark_tracks tracks
    stamped env (mark_step_completed (step_text master_playlist))
    change_state (set_current (step_text cleanup))
    ignore (save_state env)
    pure (record {
      result = record {
        master_playlist = join (join (join u.outputs_dir job.id) "hls") "master.m3u8";
        quality_outputs = map track_output tracks;
      };
      variants = map track_variant tracks;
      partial = none;
    })
