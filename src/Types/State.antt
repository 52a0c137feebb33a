-- ===== src/Types/State.antt =====
-- pkg/types/state.go: the persistent state of a job. The time of a call is an argument.
use video_encoder_service.Prelude.{
  ℕ, ◌*◌, ◌-◌, String, Bool, List, [], ◌∷◌, ◌++◌, if◌then◌else◌, ltb, one_of,
}

pub record JobState : Type 0 where
  pub job_id : String
  pub status : String
  pub current_step : String
  pub steps_completed : List String
  pub qualities_complete : List String
  pub qualities_failed : List String
  pub chunks_completed : ℕ
  pub total_chunks : ℕ
  pub last_heartbeat : ℕ
  pub created_at : ℕ
  pub updated_at : ℕ
  pub resume_supported : Bool
  pub input_path : String
  pub chunk_duration : ℕ

pub data EncodingStep : Type 0 where
  validation analysis hash_computation deduplication encoding_240p encoding_360p encoding_480p
        encoding_720p encoding_1080p encoding_1440p encoding_4k master_playlist cleanup
        finalization :
      EncodingStep

abbrev pub step_text : EncodingStep → String
step_text validation = "validation"
step_text analysis = "analysis"
step_text hash_computation = "hash_computation"
step_text deduplication = "deduplication"
step_text encoding_240p = "encoding_240p"
step_text encoding_360p = "encoding_360p"
step_text encoding_480p = "encoding_480p"
step_text encoding_720p = "encoding_720p"
step_text encoding_1080p = "encoding_1080p"
step_text encoding_1440p = "encoding_1440p"
step_text encoding_4k = "encoding_4k"
step_text master_playlist = "master_playlist"
step_text cleanup = "cleanup"
step_text finalization = "finalization"

unfoldable pub is_step_completed : JobState → String → Bool
is_step_completed s step = one_of step s.steps_completed

unfoldable pub is_quality_completed : JobState → String → Bool
is_quality_completed s quality = one_of quality s.qualities_complete

unfoldable pub mark_step_completed : String → ℕ → JobState → JobState
unfolding is_step_completed
mark_step_completed step now s = record s {
  steps_completed =
      if is_step_completed s step then s.steps_completed else s.steps_completed ++ step ∷ [];
  updated_at = now;
}

unfoldable pub mark_quality_completed : String → ℕ → JobState → JobState
unfolding is_quality_completed
mark_quality_completed quality now s = record s {
  qualities_complete =
      if is_quality_completed s quality
      then s.qualities_complete
      else s.qualities_complete ++ quality ∷ [];
  updated_at = now;
}

unfoldable pub mark_quality_failed : String → ℕ → JobState → JobState
mark_quality_failed quality now s = record s {
  qualities_failed = s.qualities_failed ++ quality ∷ [];
  updated_at = now;
}

unfoldable pub update_heartbeat : ℕ → JobState → JobState
update_heartbeat now s = record s { last_heartbeat = now; updated_at = now }

-- 60 seconds, in nanoseconds.
abbrev pub orphan_timeout : ℕ
orphan_timeout = 60 * 1_000_000_000

-- `-` stops at 0, as a heartbeat in the future is no orphan's.
unfoldable pub is_orphaned : ℕ → JobState → Bool
is_orphaned now s = ltb orphan_timeout (now - s.last_heartbeat)
