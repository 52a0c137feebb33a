-- ===== src/Types/Retry.antt =====
-- pkg/types/retry.go, and the error codes of internal/core/domain/errors.go that it reads.
use video_encoder_service.Prelude.{
  ℕ, String, Bool, true, false, List, [], ◌∷◌, if◌then◌else◌, one_of,
}

pub record RetryStrategy : Type 0 where
  pub should_retry : Bool
  pub max_attempts : ℕ
  -- seconds
  pub backoff : List ℕ

abbrev pub code_ffmpeg_failed : String
code_ffmpeg_failed = "ERR_FFMPEG_FAILED"

abbrev pub code_io_error : String
code_io_error = "ERR_IO_ERROR"

abbrev pub code_disk_full : String
code_disk_full = "ERR_DISK_FULL"

abbrev pub code_permission_denied : String
code_permission_denied = "ERR_PERMISSION_DENIED"

abbrev pub code_resolution_detect_failed : String
code_resolution_detect_failed = "ERR_RESOLUTION_DETECT_FAILED"

abbrev pub code_job_size_exceeded : String
code_job_size_exceeded = "ERR_JOB_SIZE_EXCEEDED"

abbrev pub ffmpeg_codes : List String
ffmpeg_codes =
    code_ffmpeg_failed ∷ "ERR_ENCODING_240P_FAILED" ∷ "ERR_ENCODING_360P_FAILED"
    ∷ "ERR_ENCODING_480P_FAILED" ∷ "ERR_ENCODING_720P_FAILED" ∷ "ERR_ENCODING_1080P_FAILED"
    ∷ "ERR_ENCODING_1440P_FAILED" ∷ "ERR_ENCODING_4K_FAILED" ∷ []

abbrev pub invalid_codes : List String
invalid_codes =
    "ERR_INVALID_VIDEO" ∷ "ERR_UNSUPPORTED_FORMAT" ∷ "ERR_CORRUPTED_FILE" ∷ "ERR_NO_VIDEO_STREAM"
    ∷ "ERR_RESOLUTION_TOO_HIGH" ∷ "ERR_DURATION_TOO_SHORT" ∷ code_resolution_detect_failed ∷ []

abbrev pub full_codes : List String
full_codes = code_disk_full ∷ code_job_size_exceeded ∷ []

unfoldable pub get_retry_strategy : String → RetryStrategy
get_retry_strategy error_code =
    if one_of error_code ffmpeg_codes
    then record { should_retry = true; max_attempts = 3; backoff = 2 ∷ 5 ∷ 10 ∷ [] }
    else if one_of error_code (code_io_error ∷ [])
    then record { should_retry = true; max_attempts = 3; backoff = 3 ∷ 6 ∷ 15 ∷ [] }
    else if one_of error_code invalid_codes
    then record { should_retry = false; max_attempts = 0; backoff = [] }
    else if one_of error_code full_codes
    then record { should_retry = false; max_attempts = 0; backoff = [] }
    else record { should_retry = true; max_attempts = 2; backoff = 2 ∷ 5 ∷ [] }
