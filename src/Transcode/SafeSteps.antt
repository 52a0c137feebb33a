-- ===== src/Transcode/SafeSteps.antt =====
-- The calls of the use case one by one: the states on disk, the limit on the size of a job, and the
-- encoding of its qualities.
use video_encoder_service.Prelude.{◌⊎◌, inl, inr, ℕ, String, List, [], ◌∷◌}
use video_encoder_service.Types.Error.{Error}
use video_encoder_service.Types.Job.{Job}
use video_encoder_service.Types.Encoding.{QualityVariant, VideoInfo}
use video_encoder_service.Transcode.World.{Env, Event}
use video_encoder_service.Transcode.Limits.{
  Settings, SizeCheck, delete_job_files, check_job_size_limit, enforce_outcome,
  enforce_job_size_limit, limit_outcome, limit_answer, check_job_disk_limit,
}
use video_encoder_service.Transcode.Encoder.{
  QualitySpec, chunks_or_fail, quality_chunks, encode_quality,
}
use video_encoder_service.Transcode.Qualities.{
  Progress, encoded_of, load_existing, resume_quality, size_outcome, encode_outcome, encode_new,
  encode_one, encode_loop, playlist_written, encode_with_resume, encode_tracks, encode_separate,
  mark_tracks, encode_separate_av,
}
use video_encoder_service.Transcode.Framed.{IsQuiet, Keeps-save_state, Keeps-external}
use video_encoder_service.Transcode.Keeps.{Keeps, Keeps-bind, keeps_rules}
use video_encoder_service.Transcode.Safe.{Safe, Framed-Safe, safe_rules}

module _ (id : String) (Q : List Event → Type 0)
    (quiet : (e : Event) (l : List Event) → IsQuiet e → Q l → Q (e ∷ l)) (env : Env)
    (u : Settings) where
  Keeps-delete_job_files : (j : String) → Keeps (Safe id Q) (delete_job_files env u j)
  unfolding delete_job_files
  Keeps-delete_job_files j = search (keeps_rules, safe_rules) depth 20

  Keeps-check_job_size_limit : (j : String) → Keeps (Safe id Q) (check_job_size_limit env u j)
  unfolding check_job_size_limit
  Keeps-check_job_size_limit j = search (keeps_rules, safe_rules) depth 20

  Keeps-enforce : (j : String) → Keeps (Safe id Q) (enforce_job_size_limit env u j)
  unfolding enforce_job_size_limit enforce_outcome
  Keeps-enforce j =
      search (keeps_rules, safe_rules, Keeps-check_job_size_limit, Keeps-delete_job_files) depth 20

  Keeps-limit_answer :
      (j : String) (r : Error ⊎ SizeCheck) → Keeps (Safe id Q) (limit_answer env u j r)
  unfolding limit_answer limit_outcome
  Keeps-limit_answer j (inr c) = search (keeps_rules, safe_rules, Keeps-delete_job_files) depth 20
  Keeps-limit_answer j (inl e) = search (keeps_rules) depth 20

  pub Keeps-check_job_disk_limit : (j : String) → Keeps (Safe id Q) (check_job_disk_limit env u j)
  unfolding check_job_disk_limit
  Keeps-check_job_disk_limit j =
      search (keeps_rules, safe_rules, Keeps-check_job_size_limit, Keeps-limit_answer) depth 20

  pub Keeps-encode_quality :
      (dir j path name : String) → Keeps (Safe id Q) (encode_quality env dir j path name)
  unfolding encode_quality quality_chunks chunks_or_fail
  Keeps-encode_quality dir j path name = search (keeps_rules, safe_rules) depth 20

  Keeps-resume_quality :
      (job : Job) (v : QualityVariant) (acc : Progress)
      → Keeps (Safe id Q) (resume_quality env u job v acc)
  unfolding resume_quality load_existing
  Keeps-resume_quality job v acc = search (keeps_rules, safe_rules) depth 20

  Keeps-size_outcome :
      (job : Job) (acc : Progress) (r : Error ⊎ Unit {0})
      → Keeps (Safe id Q) (size_outcome env u job acc r)
  unfolding size_outcome
  Keeps-size_outcome job acc (inr t) = search (keeps_rules, safe_rules, Keeps-save_state) depth 20
  Keeps-size_outcome job acc (inl e) = search (keeps_rules, safe_rules, Keeps-save_state) depth 20

  Keeps-encode_new :
      (job : Job) (v : QualityVariant) (acc : Progress)
      → Keeps (Safe id Q) (encode_new env u job v acc)
  unfolding encode_new encode_outcome
  Keeps-encode_new job v acc =
      search
        (
          keeps_rules, safe_rules, Keeps-save_state, Keeps-encode_quality, Keeps-enforce,
          Keeps-size_outcome,
        )
        depth 20

  pub Keeps-encode_one :
      (job : Job) (v : QualityVariant) (acc : Progress)
      → Keeps (Safe id Q) (encode_one env u job v acc)
  unfolding encode_one
  Keeps-encode_one job v acc = search (keeps_rules, Keeps-resume_quality, Keeps-encode_new) depth 20

  Keeps-encode_loop :
      (job : Job) (vs : List QualityVariant) (acc : Progress)
      → Keeps (Safe id Q) (encode_loop env u job vs acc)
  unfolding encode_loop
  Keeps-encode_loop job [] acc = search (keeps_rules) depth 20
  Keeps-encode_loop job (v ∷ vs) acc =
      search (keeps_rules, Keeps-encode_one, Keeps-encode_loop job vs) depth 20

  Keeps-playlist_written :
      (vs : List QualityVariant) → Keeps (Safe id Q) (playlist_written env u vs)
  unfolding playlist_written
  Keeps-playlist_written [] = search (keeps_rules) depth 20
  Keeps-playlist_written (v ∷ vs) = search (keeps_rules, safe_rules) depth 20

  Keeps-encoded_of :
      (p : String) (n : ℕ) (acc : Progress) (vs : List QualityVariant)
      → Keeps (Safe id Q) (encoded_of p n acc vs)
  unfolding encoded_of
  Keeps-encoded_of p n acc [] = search (keeps_rules) depth 20
  Keeps-encoded_of p n acc (v ∷ vs) = search (keeps_rules) depth 20

  pub Keeps-encode_with_resume :
      (job : Job) (info : VideoInfo) → Keeps (Safe id Q) (encode_with_resume env u job info)
  unfolding encode_with_resume
  Keeps-encode_with_resume job info =
      search (keeps_rules, Keeps-encode_loop, Keeps-playlist_written, Keeps-encoded_of) depth 20

  Keeps-encode_tracks :
      (job : Job) (qs : List QualitySpec) → Keeps (Safe id Q) (encode_tracks env u job qs)
  unfolding encode_tracks
  Keeps-encode_tracks job [] = search (keeps_rules) depth 20
  Keeps-encode_tracks job (q ∷ qs) =
      Keeps-bind _ _ (Keeps-external (Framed-Safe id Q quiet) env) λ _.
        Keeps-bind _ _ (search (safe_rules) depth 9) λ _.
          Keeps-bind _ _ (search (safe_rules) depth 9)
            λ r. Keeps-bind _ _ (Keeps-encode_tracks job qs) λ ts. search (keeps_rules)

  Keeps-mark_tracks : (qs : List QualitySpec) → Keeps (Safe id Q) (mark_tracks env u qs)
  unfolding mark_tracks
  Keeps-mark_tracks [] = search (keeps_rules) depth 20
  Keeps-mark_tracks (q ∷ qs) =
      Keeps-bind _ _ (search (keeps_rules, safe_rules) depth 20) λ _. Keeps-mark_tracks qs

  pub Keeps-encode_separate_av :
      (job : Job) (info : VideoInfo) → Keeps (Safe id Q) (encode_separate_av env u job info)
  unfolding encode_separate_av encode_separate
  Keeps-encode_separate_av job info =
      search (keeps_rules, safe_rules, Keeps-encode_tracks, Keeps-mark_tracks, Keeps-save_state)
        depth 20
