-- ===== src/Transcode/Whole.antt =====
-- What a call of stepEncoding for a video without audio leaves behind.
use video_encoder_service.Prelude.{
  ◌≡◌, if◌then◌else◌, String, Bool, true, false, List, [], ◌∷◌, ◌⊎◌, inl, inr, ℕ, one_of, Option,
  none, some,
}
use video_encoder_service.Types.Error.{Error, message, partial_success, Result, ok, err, panic, M}
use video_encoder_service.Types.Job.{Job}
use video_encoder_service.Types.State.{is_quality_completed}
use video_encoder_service.Types.Encoding.{QualityVariant, VideoInfo}
use video_encoder_service.Transcode.World.{World, Env, Event}
use video_encoder_service.Transcode.Limits.{Settings}
use video_encoder_service.Transcode.Encoder.{select_variants}
use video_encoder_service.Transcode.Qualities.{
  Progress, Encoded, partial_or_not, encoded_of, encode_with_resume,
}
use video_encoder_service.Transcode.Framed.{IsQuiet}
use video_encoder_service.Transcode.Keeps.{IsCalm, Keeps, keeps_rules}
use video_encoder_service.Transcode.Safe.{Safe, safe_rules}
use video_encoder_service.Transcode.Completed.{Done, done_rules}
use video_encoder_service.Transcode.Once
use video_encoder_service.Transcode.Yields.{
  Yields, Yields-pure, Yields-fail, Yields-bind, Yields-Keeps, Yields-next, Given,
}
use video_encoder_service.Transcode.Lost.{Yields-last}
use video_encoder_service.Transcode.Found.{
  names, Known, Found, Keeps-Known, Given-map, Found-loop, Found-kept,
}
use video_encoder_service.Types.Error.{◌>>◌, wrapped, wrapping, ignore}
use video_encoder_service.Transcode.Store.{save_state}
use video_encoder_service.Jobs.View.{find}
use video_encoder_service.Jobs.Valid.{IsValid}
use video_encoder_service.Transcode.SafeRun.{Keeps-step_encoding}
use video_encoder_service.Transcode.SafeSteps.{Keeps-check_job_disk_limit}
use video_encoder_service.Transcode.Steps.{
  note_failures, finish_step, with_error, encode_combined, step_encoding,
}

-- The error of a partial success names the quality.
abbrev Names : String → Option Error → Type 0
Names q none = ⊥
Names q (some (partial_success failed n total)) = one_of q failed ≡ true
Names q (some (message text)) = ⊥

Names-partial :
    (q : String) (failed : List String) (n total : ℕ)
    → one_of q failed ≡ true
    → Names q (partial_or_not failed n total)
unfolding partial_or_not
Names-partial q [] n total h = cc
Names-partial q (f ∷ fs) n total h = h

module _ (Q : List Event → Type 0)
    (quiet : (e : Event) (l : List Event) → IsQuiet e → Q l → Q (e ∷ l)) (env : Env) (u : Settings)
    (job : Job) (q : String) where
  Covers-encoded_of :
      (path : String) (total : ℕ) (acc : Progress) (vs : List QualityVariant)
      → Yields
          (Found q acc)
          (λ enc w. Known q w ⊎ Names q enc.partial)
          (encoded_of path total acc vs)
  unfolding encoded_of
  Covers-encoded_of path total acc [] = Yields-fail _
  Covers-encoded_of path total acc (v ∷ vs) = Yields-pure _ λ w found. elim found [
    | inl known ↦ inl known
    | inr lost ↦ inr (Names-partial q acc.failed_qualities _ total lost)
  ]

  pub Covers-encode_with_resume :
      (info : VideoInfo)
      → one_of q (names (select_variants info.width info.height)) ≡ true
      → Yields
          (Safe job.id Q)
          (λ enc w. Known q w ⊎ Names q enc.partial)
          (encode_with_resume env u job info)
  unfolding encode_with_resume
  Covers-encode_with_resume info chosen =
      Yields-bind (Found q) _ _ (Found-loop Q quiet env u job q _ _ chosen) λ acc.
        Yields-bind (λ _. Found q acc) _ _
          (Found-kept Q quiet env u job q (one_of q acc.failed_qualities ≡ true) _
            λ n. Once.Keeps-playlist_written q n env u job acc.successful)
          λ t. Covers-encoded_of _ _ acc acc.successful

  Yields-either :
      {A : Type 0} (P : Type 0) (m : M World A)
      → ¬ P
      → ((n : ℕ) → Keeps (Done q n) m)
      → Yields (λ w. Known q w ⊎ P) (λ _. Known q) m
  Yields-either P m never k = record {
    at = λ w found. elim found [
      | inl known ↦ (Yields-Keeps m (Keeps-Known q m k)).at w known
      | inr p ↦ absurd (never p)
    ];
  }

  -- What follows encodeWithResume in stepEncoding returns a value only for a result without error.
  Known-returned :
      (enc : Encoded) (o : Option Error)
      → Yields
          (λ w. Known q w ⊎ Names q o)
          (λ _. Known q)
          (note_failures env u o
            >> (finish_step env u "master_playlist" "cleanup"
                >> (ignore (save_state env) >> with_error env u enc o)))
  unfolding note_failures with_error
  Known-returned enc none =
      Yields-either ⊥ _ (λ void. void) λ n. search (done_rules, Once.Keeps-save_state) depth 20
  Known-returned enc (some e) = record {
    at = λ w found.
        (Yields-last _ _ λ _. Yields-last _ _ λ _. Yields-last _ _ λ _. Yields-fail e).at w tt;
  }

  Given-wrapped :
      {A : Type 0} (R : A → World → Type 0) (prefix : String) (r : Result A × World)
      → Given R r
      → Given R (wrapped prefix r)
  Given-wrapped R prefix (ok a, w) h = h
  Given-wrapped R prefix (err e, w) h = tt
  Given-wrapped R prefix (panic, w) h = tt

  Known-combined :
      (info : VideoInfo)
      → one_of q (names (select_variants info.width info.height)) ≡ true
      → Yields (Safe job.id Q) (λ _. Known q) (encode_combined env u job info)
  unfolding encode_combined wrapping
  Known-combined info chosen =
      Yields-bind (λ enc w. Known q w ⊎ Names q enc.partial) _ _
        (record {
          at = λ w s.
              Given-wrapped _ "encoding failed: " (encode_with_resume env u job info w)
                ((Covers-encode_with_resume info chosen).at w s);
        })
        λ enc. Known-returned enc enc.partial

  Yields-else :
      {A : Type 0} {P : World → Type 0} {R : A → World → Type 0} (b : Bool) (m n : M World A)
      → b ≡ false
      → Yields P R n
      → Yields P R (if b then m else n)
  Yields-else b m n off y = rw off y

  pub Known-step_encoding :
      (info : VideoInfo)
      → info.has_audio ≡ false
      → one_of q (names (select_variants info.width info.height)) ≡ true
      → Yields (Safe job.id Q) (λ _. Known q) (step_encoding env u job info)
  unfolding step_encoding
  Known-step_encoding info silent chosen =
      search
        (
          Yields-next, Yields-else, Known-combined, keeps_rules, safe_rules,
          Keeps-check_job_disk_limit, chosen, silent,
        )
        depth 20

-- For a video without audio and a job that a well-formed repository has, stepEncoding never panics,
-- and where it returns no error the state has every quality that SelectVariants chooses for the
-- video as complete: a call that leaves one of them incomplete returns an error, whatever else it
-- has encoded.
pub step_encoding-IsWhole :
    (env : Env) (u : Settings) (job found : Job) (info : VideoInfo) (q : String) (w : World)
    → IsValid w.jobs
    → find w.jobs job.id ≡ some found
    → info.has_audio ≡ false
    → one_of q (names (select_variants info.width info.height)) ≡ true
    → IsCalm (step_encoding env u job info w).0
      × Given (λ enc w'. is_quality_completed w'.current q ≡ true) (step_encoding env u job info w)
step_encoding-IsWhole env u job found info q w valid there silent chosen =
    let s : Safe job.id (λ _. Unit) w = record {
      valid = valid;
      held = (found, there, tt);
      logged = tt;
    } in
    (
      ((Keeps-step_encoding (λ _. Unit) (λ e l i h. tt) env u (λ path. path) job info).at w s).1,
      Given-map (λ enc w' (n, d). d.complete) (step_encoding env u job info w)
          ((Known-step_encoding (λ _. Unit) (λ e l i h. tt) env u job q info silent chosen).at w s),
    )
