-- ===== src/Transcode/Resume.antt =====
-- What an attempt does about the qualities that were encoded before it.
use video_encoder_service.Prelude.{inl, inr, ◌≡◌, refl, true, Bool-cases}
use video_encoder_service.Types.Error.{◌>>=◌, pure, reads}
use video_encoder_service.Types.Job.{Job}
use video_encoder_service.Types.State.{is_quality_completed}
use video_encoder_service.Types.Encoding.{QualityVariant}
use video_encoder_service.Transcode.World.{World, Env, ask}
use video_encoder_service.Transcode.Encoder.{has_dir}
use video_encoder_service.Transcode.Limits.{Settings}
use video_encoder_service.Transcode.Qualities.{Progress, resume_quality, load_existing, encode_one}

-- A quality that the state has as complete is not encoded again, and nothing of the jobs, the files
-- and the state changes: the round of the loop only looks for its directory.
encode_one-completed :
    (env : Env) (u : Settings) (job : Job) (v : QualityVariant) (acc : Progress) (w : World)
    → is_quality_completed w.current v.name ≡ true
    → ((encode_one env u job v acc w).1.log ≡ w.log)
      × ((encode_one env u job v acc w).1.disk ≡ w.disk)
      × ((encode_one env u job v acc w).1.current ≡ w.current)
      × ((encode_one env u job v acc w).1.jobs ≡ w.jobs)
unfolding encode_one resume_quality load_existing reads ask ◌>>=◌ pure
encode_one-completed env u job v acc w done =
    rw done (elim (Bool-cases (has_dir job.id v.name w.disk)) [
      | inl there ↦ rw there (refl, refl, refl, refl)
      | inr gone ↦ rw gone (refl, refl, refl, refl)
    ])
