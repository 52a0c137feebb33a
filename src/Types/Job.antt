-- ===== src/Types/Job.antt =====
-- pkg/types/job.go. A pointer that may be nil is an Option; times are whole nanoseconds, and a
-- duration of media whole microseconds, as ffprobe prints it.
use video_encoder_service.Prelude.{ℕ, String, Bool, true, false, List, Option}

pub data JobStatus : Type 0 where
  queued running completed partial_success failed interrupted scheduled : JobStatus

-- `string(status)`
unfoldable pub status_text : JobStatus → String
status_text queued = "QUEUED"
status_text running = "RUNNING"
status_text completed = "COMPLETED"
status_text partial_success = "PARTIAL_SUCCESS"
status_text failed = "FAILED"
status_text interrupted = "INTERRUPTED"
status_text scheduled = "SCHEDULED"

abbrev pub is_completed : JobStatus → Bool
is_completed completed = true
is_completed _ = false

abbrev pub is_failed : JobStatus → Bool
is_failed failed = true
is_failed _ = false

abbrev pub is_interrupted : JobStatus → Bool
is_interrupted interrupted = true
is_interrupted _ = false

pub record QualityMetadata : Type 0 where
  pub quality : String
  pub resolution : String
  pub bitrate : String

pub record VideoMetadata : Type 0 where
  pub file_name : String
  pub source_path : String
  pub resolution : String
  pub duration : ℕ
  pub generated_qualities : List QualityMetadata

pub record AudioInfo : Type 0 where
  pub normalized : Bool
  pub standard : String

pub record QualityOutput : Type 0 where
  pub quality : String
  pub playlist : String
  pub chunks_dir : String
  pub chunk_count : ℕ

pub record OutputInfo : Type 0 where
  pub output_dir : String
  pub master_playlist : String
  pub qualities : List QualityOutput
  pub thumbnails : List String
  pub sprite_sheet : String
  pub preview_clip : String
  pub preview_gif : String
  pub audio : Option AudioInfo

pub record Progress : Type 0 where
  pub percentage : ℕ
  pub current_step : String

pub record Meta : Type 0 where
  pub created_at : ℕ
  pub completed_at : Option ℕ
  pub processing_time : ℕ

pub record JobError : Type 0 where
  pub code : String
  pub stage : String
  pub text : String
  pub logs_path : String
  pub failed_resolutions : List String

pub record Job : Type 0 where
  pub id : String
  pub status : JobStatus
  pub input_path : String
  pub input_hash : String
  pub chunk_duration : ℕ
  pub input : Option VideoMetadata
  pub output : Option OutputInfo
  pub progress : Option Progress
  pub meta : Meta
  pub retries : ℕ
  pub max_retries : ℕ
  pub error : Option JobError
  pub note : String
