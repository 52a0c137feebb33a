-- ===== src/Ffmpeg/Quality.antt =====
-- EncodeQuality of internal/infrastructure/ffmpeg/quality_encoder.go with its commands, and the
-- watchdog of pkg/utils/watchdog.go. Times are in microseconds.
use video_encoder_service.Prelude.{
  ◌⊎◌, inl, inr, ℕ, ◌+◌, ◌*◌, ◌/◌, String, Bool, true, false, ◌∷◌, Option, none, some, str_append,
  decimal, if◌then◌else◌, ltb, ◌==◌,
}
use video_encoder_service.Types.Error.{
  Error, message, new_error, M, ◌>>=◌, ◌>>◌, pure, fail, wrapping, ignore, try,
}
use video_encoder_service.Types.Encoding.{QualityVariant}
use video_encoder_service.Transcode.World.{join}
use video_encoder_service.Transcode.Encoder.{QualityEncodingResult, quality_dir, to_result}
use video_encoder_service.Ffmpeg.Shell.{
  Shell, Tools, query, given, run_command, make_dir, write_file, no_error,
}
use video_encoder_service.Ffmpeg.Arguments.{build_single_quality_args}
use video_encoder_service.Ffmpeg.Probe.{get_video_info}

abbrev pub second : ℕ
second = 1_000_000

-- NewWatchdog: `time.Duration(videoDuration*2)` is cut to whole seconds.
unfoldable pub watchdog_timeout : ℕ → ℕ
watchdog_timeout duration =
    let timeout = duration * 2 / second * second + 60 * second in
    if ltb timeout (120 * second) then 120 * second else timeout

-- `%v` of the duration is taken to be its seconds.
abbrev pub timeout_error : ℕ → Error
timeout_error timeout =
    message (str_append "operation timed out after " (str_append (decimal (timeout / second)) "s"))

unfoldable pub chunks_found : ℕ → M Shell ℕ
chunks_found n = if n == 0 then fail (new_error "no chunks generated") else pure n

module _ (t : Tools) where
  unfoldable pub write_logs : String → Option String → M Shell (Unit {0})
  write_logs path none = pure tt
  write_logs path (some text) = ignore (write_file t path text)

  -- saveFFmpegLogs: its errors are only logged.
  unfoldable pub save_ffmpeg_logs : String → String → M Shell (Unit {0})
  save_ffmpeg_logs dir path = do
    ignore (make_dir t dir)
    text ← query t.stderr
    write_logs path text

  unfoldable pub execute_ffmpeg_encoding :
      String → String → String → QualityVariant → ℕ → Bool → String → M Shell (Unit {0})
  execute_ffmpeg_encoding id input_path variant_dir v chunk_duration has_audio outputs = do
    piped ← query (λ n. t.file n "stderr")
    wrapping "failed to create stderr pipe: " (no_error piped)
    let cmd = "ffmpeg" ∷ build_single_quality_args input_path variant_dir v chunk_duration has_audio
    wrapping "failed to start ffmpeg: " (run_command t cmd)
    let logs = join (join outputs id) "logs"
    ignore (make_dir t logs)
    save_ffmpeg_logs logs (join logs (str_append v.name ".log"))
    ended ← query (λ n. t.run n cmd)
    wrapping "ffmpeg encoding failed: " (no_error ended)

  unfoldable pub late : ℕ → Bool → Error ⊎ Unit {0} → M Shell (Unit {0})
  late timeout true r = fail (timeout_error timeout)
  late timeout false (inl e) = fail e
  late timeout false (inr u) = pure tt

  -- Watch. A function that is late goes on; what it does then comes before the error here.
  unfoldable pub watch : ℕ → M Shell (Unit {0}) → M Shell (Unit {0})
  watch timeout fn = do r ← try fn; timed_out ← query t.times_out; late timeout timed_out r

  -- The calls of EncodeQuality, up to the first that fails.
  unfoldable pub count_chunks : String → String → QualityVariant → ℕ → String → Bool → M Shell ℕ
  count_chunks id input_path v chunk_duration outputs has_audio = do
    let variant_dir = quality_dir outputs id v.name
    wrapping "failed to create variant dir: " (make_dir t variant_dir)
    info ← wrapping "failed to get video info: " (get_video_info t input_path)
    watch (watchdog_timeout info.duration)
        (execute_ffmpeg_encoding id input_path variant_dir v chunk_duration has_audio outputs)
    found ← query (λ n. t.glob n (join variant_dir "chunk_*.ts"))
    n ← wrapping "failed to list chunks: " (given (new_error "syntax error in pattern") found)
    chunks_found n

  -- EncodeQuality: an error of a call is a field of the result.
  unfoldable pub encode_quality :
      String → String → QualityVariant → ℕ → String → Bool → M Shell QualityEncodingResult
  encode_quality id input_path v chunk_duration outputs has_audio = do
    r ← try (count_chunks id input_path v chunk_duration outputs has_audio)
    pure (to_result v.name (quality_dir outputs id v.name) r)
