-- ===== src/Validator/Check.antt =====
-- ValidateFile of validator.go and the checks that it makes. The details of an error, a map for the
-- response, are left out. Every path is ASCII.
use video_encoder_service.Prelude.{
  ℕ, ◌+◌, ◌*◌, String, Bool, true, false, not, ◌&&◌, ◌||◌, List, [], ◌∷◌, Option, none, some, map,
  if◌then◌else◌, ltb, leb, ◌==◌, codes, one_of,
}
use video_encoder_service.Types.Encoding.{VideoInfo}
use video_encoder_service.Transcode.Errors.{bytes_eq}

pub record ValidationError : Type 0 where
  pub code : String
  pub message : String

-- What the calls about a file answer, in the order of ValidateFile: os.Stat twice, and ffprobe or
-- ffmpeg for the rest. A failed call has no answer.
pub record Media : Type 0 where
  pub exists : Bool
  pub size : Option ℕ
  pub format : Option String
  pub has_stream : Bool
  pub resolution : Option VideoInfo
  pub duration : Option VideoInfo
  pub decodes : Bool

abbrev pub max_file_size : ℕ
max_file_size = 2048 * (1024 * 1024)

abbrev pub max_width : ℕ
max_width = 3840

abbrev pub max_height : ℕ
max_height = 2160

-- A tenth of a second, in microseconds.
abbrev pub min_duration : ℕ
min_duration = 100_000

abbrev pub dot : ℕ
dot = 46

abbrev pub slash : ℕ
slash = 47

-- `strings.ToLower` on a byte.
abbrev pub lower : ℕ → ℕ
lower c = if leb 65 c && leb c 90 then c + 32 else c

-- Whether a dot or a slash stands in the text.
abbrev pub separates : List ℕ → Bool
separates [] = false
separates (c ∷ s) = (c == dot || c == slash) || separates s

-- `filepath.Ext`: from the last dot of the last element of the path on.
abbrev pub ext : List ℕ → List ℕ
ext [] = []
ext (c ∷ s) = let rest = ext s in if c == dot && not (separates s) then c ∷ s else rest

abbrev pub allowed_extensions : List String
allowed_extensions = ".mp4" ∷ ".mkv" ∷ ".mov" ∷ ".webm" ∷ ".avi" ∷ []

abbrev pub allowed_formats : List String
allowed_formats = "mov,mp4,m4a,3gp,3g2,mj2" ∷ "matroska,webm" ∷ "avi" ∷ []

abbrev pub is_listed : List ℕ → List String → Bool
is_listed s [] = false
is_listed s (e ∷ es) = bytes_eq s (codes e) || is_listed s es

abbrev pub failure : String → String → Option ValidationError
failure code message = some (record { code = code; message = message })

-- `if !test { return &ValidationError{...} }`
abbrev pub require : Bool → String → String → Option ValidationError
require true code message = none
require false code message = failure code message

-- `if err := a; err != nil { return err }; return b`
abbrev pub first : Option ValidationError → Option ValidationError → Option ValidationError
first (some e) b = some e
first none b = b

unfoldable pub validate_size : Option ℕ → Option ValidationError
validate_size none = failure "ERR_INVALID_VIDEO" "Failed to get file size"
validate_size (some size) =
    require (leb size max_file_size) "ERR_FILE_TOO_LARGE"
      "File size exceeds maximum allowed size of 2048MB"

unfoldable pub validate_extension : List ℕ → Option ValidationError
validate_extension path =
    require (is_listed (map lower (ext path)) allowed_extensions) "ERR_UNSUPPORTED_FORMAT"
      "File format not supported"

unfoldable pub validate_mime_type : Option String → Option ValidationError
validate_mime_type none = failure "ERR_INVALID_VIDEO" "Failed to detect file format"
validate_mime_type (some format) =
    require (one_of format allowed_formats) "ERR_UNSUPPORTED_FORMAT" "File format not supported"

unfoldable pub validate_video_stream : Bool → Option ValidationError
validate_video_stream has_stream =
    require has_stream "ERR_NO_VIDEO_STREAM" "File does not contain a valid video stream"

unfoldable pub validate_resolution : Option VideoInfo → Option ValidationError
validate_resolution none = failure "ERR_INVALID_VIDEO" "Failed to get video resolution"
validate_resolution (some info) =
    require (not (ltb max_width info.width || ltb max_height info.height)) "ERR_RESOLUTION_TOO_HIGH"
      "Video resolution exceeds maximum allowed (3840x2160)"

unfoldable pub validate_duration : Option VideoInfo → Option ValidationError
validate_duration none = failure "ERR_INVALID_VIDEO" "Failed to get video duration"
validate_duration (some info) =
    require (not (ltb info.duration min_duration)) "ERR_DURATION_TOO_SHORT"
      "Video duration must be at least 0.1 seconds"

unfoldable pub test_decode : Bool → Option ValidationError
test_decode decodes = require decodes "ERR_CORRUPTED_FILE" "Video file appears to be corrupted"

unfoldable pub validate_file : String → Media → Option ValidationError
unfolding validate_size validate_extension validate_mime_type validate_video_stream
    validate_resolution validate_duration test_decode
validate_file path m = first (require m.exists "ERR_FILE_NOT_FOUND" "File not found") (
    first (validate_size m.size) (
      first (validate_extension (codes path)) (
        first (validate_mime_type m.format) (
          first (validate_video_stream m.has_stream) (
            first (validate_resolution m.resolution)
              (first (validate_duration m.duration) (test_decode m.decodes)))))))
