-- ===== src/Transcode/Once.antt =====
-- What encodeWithResume does to a quality that the state has as complete, over its whole loop.
use video_encoder_service.Prelude.{
  ℕ, ◌≡◌, refl, sym, ap, ◌∙◌, String, true, false, List, [], ◌∷◌, ◌⊎◌, inl, inr, str_eq, str_eq_iff,
  Bool-cases,
}
use video_encoder_service.Types.Error.{Error, ◌>>=◌, reads}
use video_encoder_service.Types.Job.{Job}
use video_encoder_service.Types.State.{JobState, is_quality_completed}
use video_encoder_service.Types.Encoding.{QualityVariant, VideoInfo}
use video_encoder_service.Jobs.Valid.{IsValid}
use video_encoder_service.Transcode.World.{World, Env}
use video_encoder_service.Transcode.Store.{save_state}
use video_encoder_service.Transcode.Encoder.{
  QualityEncodingResult, quality_chunks, encode_quality, chunks_or_fail,
}
use video_encoder_service.Transcode.Limits.{Settings}
use video_encoder_service.Transcode.Qualities.{
  Progress, resume_quality, load_existing, size_outcome, encode_outcome, encode_new, encode_one,
  encode_loop, playlist_written, encoded_of, encode_with_resume,
}
use video_encoder_service.Transcode.Keeps.{Keeps, IsCalm, Keeps-bind, keeps_rules}
use video_encoder_service.Transcode.Completed.{encodings, Done, done_rules}

module _ (q : String) (n : ℕ) (env : Env) (u : Settings) (job : Job) where
  pub Keeps-save_state : Keeps (Done q n) (save_state env)
  unfolding save_state
  Keeps-save_state = search (done_rules) depth 20

  pub Keeps-resume_quality :
      (v : QualityVariant) (acc : Progress) → Keeps (Done q n) (resume_quality env u job v acc)
  unfolding resume_quality load_existing
  Keeps-resume_quality v acc = search (done_rules) depth 20

  Keeps-quality_chunks :
      (name : String)
      → str_eq name q ≡ false
      → Keeps (Done q n) (quality_chunks env job.id job.input_path name)
  unfolding quality_chunks chunks_or_fail
  Keeps-quality_chunks name other = search (done_rules, other) depth 20

  Keeps-encode_quality :
      (name : String)
      → str_eq name q ≡ false
      → Keeps (Done q n) (encode_quality env u.outputs_dir job.id job.input_path name)
  unfolding encode_quality
  Keeps-encode_quality name other = search (done_rules, Keeps-quality_chunks, other) depth 20

  pub Keeps-size_outcome :
      (acc : Progress) (r : Error ⊎ Unit {0}) → Keeps (Done q n) (size_outcome env u job acc r)
  unfolding size_outcome
  Keeps-size_outcome acc (inr t) = search (done_rules, Keeps-save_state) depth 20
  Keeps-size_outcome acc (inl e) = search (done_rules, Keeps-save_state) depth 20

  Keeps-encode_outcome :
      (v : QualityVariant) (acc : Progress) (r : QualityEncodingResult)
      → Keeps (Done q n) (encode_outcome env u job v acc r)
  unfolding encode_outcome
  Keeps-encode_outcome v acc r = search (done_rules, Keeps-save_state, Keeps-size_outcome) depth 20

  Keeps-encode_new :
      (v : QualityVariant) (acc : Progress)
      → str_eq v.name q ≡ false
      → Keeps (Done q n) (encode_new env u job v acc)
  unfolding encode_new
  Keeps-encode_new v acc other =
      search (done_rules, Keeps-save_state, Keeps-encode_quality, Keeps-encode_outcome, other) depth
        20

  -- A quality that the state has not as complete is another one.
  differs :
      (name : String) (s : JobState)
      → is_quality_completed s q ≡ true
      → is_quality_completed s name ≡ false
      → str_eq name q ≡ false
  differs name s done new = elim (Bool-cases (str_eq name q)) [
    | inl same ↦
        let both : true ≡ false =
          sym done ∙ ap (is_quality_completed s) (sym ((str_eq_iff name q).0 same)) ∙ new in
        cc
    | inr other ↦ other
  ]

  Keeps-encode_one :
      (v : QualityVariant) (acc : Progress) → Keeps (Done q n) (encode_one env u job v acc)
  unfolding encode_one ◌>>=◌ reads
  Keeps-encode_one v acc = record {
    at = λ w d. elim (Bool-cases (is_quality_completed w.current v.name)) [
      | inl done ↦ rw done ((Keeps-resume_quality v acc).at w d)
      | inr new ↦ rw new ((Keeps-encode_new v acc (differs v.name w.current d.complete new)).at w d)
    ];
  }

  pub Keeps-encode_loop :
      (vs : List QualityVariant) (acc : Progress) → Keeps (Done q n) (encode_loop env u job vs acc)
  unfolding encode_loop
  Keeps-encode_loop [] acc = search (keeps_rules)
  Keeps-encode_loop (v ∷ vs) acc = Keeps-bind _ _ (Keeps-encode_one v acc) (Keeps-encode_loop vs)

  pub Keeps-playlist_written :
      (vs : List QualityVariant) → Keeps (Done q n) (playlist_written env u vs)
  unfolding playlist_written
  Keeps-playlist_written [] = search (keeps_rules)
  Keeps-playlist_written (v ∷ vs) = search (done_rules) depth 20

  Keeps-encoded_of :
      (path : String) (total : ℕ) (acc : Progress) (vs : List QualityVariant)
      → Keeps (Done q n) (encoded_of path total acc vs)
  unfolding encoded_of
  Keeps-encoded_of path total acc [] = search (keeps_rules)
  Keeps-encoded_of path total acc (v ∷ vs) = search (keeps_rules)

  Keeps-encode_with_resume :
      (info : VideoInfo) → Keeps (Done q n) (encode_with_resume env u job info)
  unfolding encode_with_resume
  Keeps-encode_with_resume info =
      search (keeps_rules, Keeps-encode_loop, Keeps-playlist_written, Keeps-encoded_of) depth 20

-- encodeWithResume never panics in a well-formed repository, never starts ffmpeg on a quality that
-- the state has as complete, and leaves the quality complete, whatever it comes to.
pub encode_with_resume-skips :
    (env : Env) (u : Settings) (job : Job) (info : VideoInfo) (q : String) (w : World)
    → IsValid w.jobs
    → is_quality_completed w.current q ≡ true
    → IsCalm (encode_with_resume env u job info w).0
      × (encodings q (encode_with_resume env u job info w).1.log ≡ encodings q w.log)
      × (is_quality_completed (encode_with_resume env u job info w).1.current q ≡ true)
encode_with_resume-skips env u job info q w valid done =
    let (d, calm) =
      (Keeps-encode_with_resume q (encodings q w.log) env u job info).at w
        (record { valid = valid; complete = done; started = refl }) in
    (calm, d.started, d.complete)
