-- ===== src/Ffmpeg/Audio.antt =====
-- Tracks of audio and of video alone: audio_processor.go, audio_normalizer.go and
-- video_only_encoder.go of internal/infrastructure/ffmpeg.
use video_encoder_service.Prelude.{
  ℕ, ◌*◌, String, List, [], ◌∷◌, ◌++◌, Option, none, some, codes, str_append, decimal, ◌==◌,
  if◌then◌else◌,
}
use video_encoder_service.Types.Error.{new_error, M, ◌>>=◌, ◌>>◌, pure, wrapping}
use video_encoder_service.Transcode.World.{join}
use video_encoder_service.Ffmpeg.Shell.{
  Shell, Tools, LoudnessMetrics, given, run_command, output_of_command,
}
use video_encoder_service.Ffmpeg.Arguments.{scale}
use video_encoder_service.Ffmpeg.Playlist.{scan_number}

pub record AudioQuality : Type 0 where
  pub bitrate : String
  pub playlist : String

-- The name and the bitrate of each quality.
abbrev pub audio_qualities : List (String × String)
audio_qualities = ("192k", "192k") ∷ ("128k", "128k") ∷ ("96k", "96k") ∷ []

-- parseInt: digits before a "k", and a default for 0.
unfoldable pub or_default : ℕ → ℕ
or_default n = if n == 0 then 2500 else n

unfoldable pub parse_int : String → ℕ
parse_int bitrate = or_default (scan_number 0 (codes bitrate))

-- The part of a text from its first `{` on.
unfoldable pub from_brace : List ℕ → Option (List ℕ)
from_brace [] = none
from_brace (c ∷ s) = let rest = from_brace s in if c == b'{' then some (c ∷ s) else rest

-- The filter of NormalizeAudio.
unfoldable pub loudnorm : LoudnessMetrics → String
loudnorm m = str_append "loudnorm=I=-16:TP=-1.5:LRA=11:measured_I=" (
    str_append m.input_i (
      str_append ":measured_TP=" (
        str_append m.input_tp (
          str_append ":measured_LRA=" (
            str_append m.input_lra (
              str_append ":measured_thresh=" (
                str_append m.input_thresh (
                  str_append ":offset="
                    (str_append m.offset ":linear=true:print_format=summary")))))))))

module _ (t : Tools) where
  unfoldable pub ensure_dir : String → M Shell (Unit {0})
  ensure_dir path = run_command t ("mkdir" ∷ "-p" ∷ path ∷ [])

  -- ExtractAudio, to a file of a directory.
  unfoldable pub extract_audio : String → String → String → M Shell (Unit {0})
  extract_audio input_path output_dir name = do
    wrapping "failed to create output directory: " (ensure_dir output_dir)
    wrapping "failed to extract audio: " (
        run_command t (
          "ffmpeg"
          ∷ "-i"
          ∷ input_path
          ∷ "-vn"
          ∷ "-acodec"
          ∷ "copy"
          ∷ "-y"
          ∷ join output_dir name
          ∷ []))

  unfoldable pub process_audio : String → String → String → M Shell (Unit {0})
  process_audio input_path output_path bitrate = wrapping "failed to process audio: " (
      run_command t (
        "ffmpeg" ∷ "-i" ∷ input_path ∷ "-af"
        ∷ "loudnorm=I=-16:TP=-1.5:LRA=11,silenceremove=1:0:-50dB" ∷ "-c:a" ∷ "aac" ∷ "-b:a"
        ∷ bitrate ∷ "-ac" ∷ "2" ∷ "-y" ∷ output_path ∷ []))

  unfoldable pub generate_audio_hls : String → String → String → ℕ → M Shell (Unit {0})
  generate_audio_hls input_path output_dir bitrate segment_duration =
      wrapping "failed to generate audio HLS: " (
        run_command t (
          "ffmpeg"
          ∷ "-i"
          ∷ input_path
          ∷ "-c:a"
          ∷ "aac"
          ∷ "-b:a"
          ∷ bitrate
          ∷ "-ac"
          ∷ "2"
          ∷ "-threads"
          ∷ "0"
          ∷ "-f"
          ∷ "hls"
          ∷ "-hls_time"
          ∷ decimal segment_duration
          ∷ "-hls_segment_type"
          ∷ "fmp4"
          ∷ "-hls_segment_filename"
          ∷ join output_dir "segment_%03d.aac"
          ∷ "-hls_playlist_type"
          ∷ "vod"
          ∷ "-y"
          ∷ join output_dir "main.m3u8"
          ∷ []))

  -- The loop of GenerateMultiQualityAudio.
  unfoldable pub generate_audio_qualities :
      String → String → ℕ → List (String × String) → List AudioQuality → M Shell (List AudioQuality)
  generate_audio_qualities input_path base segment_duration [] done = pure done
  generate_audio_qualities input_path base segment_duration ((name, bitrate) ∷ qs) done = do
    let dir = join base name
    ensure_dir dir
    wrapping (str_append "failed to generate " (str_append name " audio: "))
        (generate_audio_hls input_path dir bitrate segment_duration)
    generate_audio_qualities input_path base segment_duration qs
        (done ++ record { bitrate = bitrate; playlist = join dir "main.m3u8" } ∷ [])

  unfoldable pub generate_multi_quality_audio : String → String → ℕ → M Shell (List AudioQuality)
  generate_multi_quality_audio input_path base segment_duration =
      generate_audio_qualities input_path base segment_duration audio_qualities []

  unfoldable pub measure_loudness : String → M Shell LoudnessMetrics
  measure_loudness input_path = do
    text ← wrapping "failed to measure loudness: " (
        output_of_command t (
          "ffmpeg" ∷ "-i" ∷ input_path ∷ "-af" ∷ "loudnorm=I=-16:TP=-1.5:LRA=11:print_format=json"
          ∷ "-f" ∷ "null" ∷ "-" ∷ []))
    json ← given (new_error "no JSON found in loudness output") (from_brace (codes text))
    wrapping "failed to parse loudness metrics: "
        (given (new_error "invalid JSON") (t.loudness json))

  unfoldable pub normalize_audio : String → String → LoudnessMetrics → M Shell (Unit {0})
  normalize_audio input_path output_path metrics = wrapping "failed to normalize audio: " (
      run_command t (
        "ffmpeg"
        ∷ "-i"
        ∷ input_path
        ∷ "-af"
        ∷ loudnorm metrics
        ∷ "-c:v"
        ∷ "copy"
        ∷ "-c:a"
        ∷ "aac"
        ∷ "-b:a"
        ∷ "192k"
        ∷ "-y"
        ∷ output_path
        ∷ []))

  -- `base` is filepath.Base.
  unfoldable pub normalize_audio_in_place : (String → String) → String → String → M Shell String
  normalize_audio_in_place base input_path temp_dir = do
    metrics ← measure_loudness input_path
    let normalized = join temp_dir (str_append "normalized_" (base input_path))
    normalize_audio input_path normalized metrics
    pure normalized

  unfoldable pub encode_video_only : String → String → ℕ → ℕ → String → ℕ → M Shell (Unit {0})
  encode_video_only input_path output_dir width height bitrate segment_duration =
      wrapping "failed to encode video-only: " (
        run_command t (
          "ffmpeg"
          ∷ "-i"
          ∷ input_path
          ∷ "-an"
          ∷ "-c:v"
          ∷ "libx264"
          ∷ "-preset"
          ∷ "superfast"
          ∷ "-crf"
          ∷ "23"
          ∷ "-threads"
          ∷ "0"
          ∷ "-maxrate"
          ∷ bitrate
          ∷ "-bufsize"
          ∷ str_append (decimal (parse_int bitrate * 2)) "k"
          ∷ "-vf"
          ∷ scale width height
          ∷ "-g"
          ∷ "48"
          ∷ "-keyint_min"
          ∷ "48"
          ∷ "-sc_threshold"
          ∷ "0"
          ∷ "-f"
          ∷ "hls"
          ∷ "-hls_time"
          ∷ decimal segment_duration
          ∷ "-hls_segment_type"
          ∷ "fmp4"
          ∷ "-hls_segment_filename"
          ∷ join output_dir "segment_%03d.m4s"
          ∷ "-hls_playlist_type"
          ∷ "vod"
          ∷ "-y"
          ∷ join output_dir "main.m3u8"
          ∷ []))
