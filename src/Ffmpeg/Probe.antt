-- ===== src/Ffmpeg/Probe.antt =====
-- internal/infrastructure/ffmpeg/probe.go: what the service asks ffprobe and ffmpeg about a file.
-- Durations are in microseconds.
use video_encoder_service.Prelude.{
  ◌⊎◌, inl, inr, ℕ, String, Bool, true, false, List, [], ◌∷◌, Option, none, some, codes, str_eq,
  if◌then◌else◌, ◌==◌, ◌||◌, ◌&&◌, leb, reverse,
}
use video_encoder_service.Types.Error.{Error, new_error, M, ◌>>=◌, pure, fail, wrapping, try}
use video_encoder_service.Types.Encoding.{VideoInfo}
use video_encoder_service.Ffmpeg.Shell.{
  Shell, Tools, Stream, ProbeData, given, run_command, output_of_command,
}

-- `strings.HasPrefix` and `strings.Contains`, on bytes.
unfoldable pub has_prefix : List ℕ → List ℕ → Bool
has_prefix s [] = true
has_prefix [] (c ∷ p) = false
has_prefix (d ∷ s) (c ∷ p) = c == d && has_prefix s p

unfoldable pub has_infix : List ℕ → List ℕ → Bool
has_infix [] p = has_prefix [] p
has_infix (d ∷ s) p = has_prefix (d ∷ s) p || has_infix s p

-- `strings.TrimSpace`, of an ASCII text.
abbrev is_space : ℕ → Bool
is_space c = c == b' ' || (leb 9 c && leb c 13)

unfoldable pub trim_left : List ℕ → List ℕ
trim_left [] = []
trim_left (c ∷ s) = let rest = trim_left s in if is_space c then rest else c ∷ s

unfoldable pub trim_space : List ℕ → List ℕ
trim_space s = reverse (trim_left (reverse (trim_left s)))

abbrev entries : String → String → String → List String
entries streams shown path =
    "ffprobe" ∷ "-v" ∷ "quiet" ∷ "-select_streams" ∷ streams ∷ "-show_entries" ∷ shown ∷ "-of"
    ∷ "default=noprint_wrappers=1:nokey=1" ∷ path ∷ []

unfoldable pub audio_answer : Error ⊎ String → Bool
audio_answer (inl e) = false
audio_answer (inr text) = has_prefix (codes text) (codes "audio")

-- types.DetailedVideoInfo
pub record DetailedVideoInfo : Type 0 where
  pub width : ℕ
  pub height : ℕ
  pub duration : ℕ
  pub video_codec : String
  pub audio_codec : String
  pub bitrate : String
  pub video_bitrate : String
  pub frame_rate : String
  pub has_audio : Bool
  pub audio_channels : ℕ
  pub audio_sample_rate : String
  pub file_size : String

abbrev pub no_details : DetailedVideoInfo
no_details = record {
  width = 0;
  height = 0;
  duration = 0;
  video_codec = "";
  audio_codec = "";
  bitrate = "";
  video_bitrate = "";
  frame_rate = "";
  has_audio = false;
  audio_channels = 0;
  audio_sample_rate = "";
  file_size = "";
}

-- A round of the loop over the streams.
unfoldable pub add_stream : Stream → DetailedVideoInfo → DetailedVideoInfo
add_stream x info =
    if str_eq x.codec_type "video"
    then record info {
      width = x.width;
      height = x.height;
      video_codec = x.codec_name;
      video_bitrate = x.bit_rate;
      frame_rate = x.frame_rate;
    }
    else if str_eq x.codec_type "audio"
    then record info {
      has_audio = true;
      audio_codec = x.codec_name;
      audio_channels = x.channels;
      audio_sample_rate = x.sample_rate;
    }
    else info

unfoldable pub add_streams : List Stream → DetailedVideoInfo → DetailedVideoInfo
add_streams [] info = info
add_streams (x ∷ xs) info = add_streams xs (add_stream x info)

abbrev pub or_zero : Option ℕ → ℕ
or_zero none = 0
or_zero (some n) = n

unfoldable pub must : Bool → Error → M Shell (Unit {0})
must true e = pure tt
must false e = fail e

module _ (t : Tools) where
  unfoldable pub has_audio_stream : String → M Shell Bool
  has_audio_stream path = do
    r ← try (output_of_command t (entries "a:0" "stream=codec_type" path))
    pure (audio_answer r)

  unfoldable pub get_video_info : String → M Shell VideoInfo
  get_video_info path = do
    text ←
        wrapping "failed to get video info: "
          (output_of_command t (entries "v:0" "stream=width,height:format=duration" path))
    scanned ←
        wrapping "failed to parse video info: "
          (given (new_error "unexpected newline") (t.scan text))
    audio ← has_audio_stream path
    pure (record {
      width = scanned.width;
      height = scanned.height;
      duration = scanned.duration;
      has_audio = audio;
    })

  unfoldable pub detailed_of : ProbeData → DetailedVideoInfo
  detailed_of report = record (add_streams report.streams no_details) {
    duration = or_zero (t.seconds report.duration);
    bitrate = report.bit_rate;
    file_size = report.size;
  }

  unfoldable pub get_detailed_video_info : String → M Shell DetailedVideoInfo
  get_detailed_video_info path = do
    text ← wrapping "failed to get detailed video info: " (
        output_of_command t (
          "ffprobe" ∷ "-v" ∷ "quiet" ∷ "-print_format" ∷ "json" ∷ "-show_format" ∷ "-show_streams"
          ∷ path ∷ []))
    report ←
        wrapping "failed to parse probe data: " (given (new_error "invalid JSON") (t.report text))
    pure (detailed_of report)

  unfoldable pub validate_video_stream : String → M Shell (Unit {0})
  validate_video_stream path = do
    text ← wrapping "failed to analyze video file: " (
        output_of_command t (
          "ffprobe" ∷ "-v" ∷ "error" ∷ "-show_streams" ∷ "-show_format" ∷ "-of" ∷ "json" ∷ path
          ∷ []))
    must (has_infix (codes text) (codes "\"codec_type\": \"video\""))
        (new_error "file does not contain a valid video stream")

  unfoldable pub test_decode : String → M Shell (Unit {0})
  test_decode path = wrapping "decode test failed: " (
      run_command t
        ("ffmpeg" ∷ "-v" ∷ "error" ∷ "-i" ∷ path ∷ "-t" ∷ "1" ∷ "-f" ∷ "null" ∷ "-" ∷ []))

  unfoldable pub get_file_format : String → M Shell (List ℕ)
  get_file_format path = do
    text ← wrapping "failed to get file format: " (
        output_of_command t (
          "ffprobe" ∷ "-v" ∷ "quiet" ∷ "-show_entries" ∷ "format=format_name" ∷ "-of"
          ∷ "default=noprint_wrappers=1:nokey=1" ∷ path ∷ []))
    pure (trim_space (codes text))
