-- ===== src/Transcode/Lost.antt =====
-- The failures of the loop of encodeWithResume stay among its failures.
use video_encoder_service.Prelude.{◌≡◌, String, true, List, [], ◌∷◌, ◌⊎◌, inl, inr, one_of}
use video_encoder_service.Types.Error.{Error, Result, ok, err, panic, M, ◌>>=◌, pure}
use video_encoder_service.Types.Job.{Job}
use video_encoder_service.Types.Encoding.{QualityVariant}
use video_encoder_service.Transcode.World.{World, Env}
use video_encoder_service.Transcode.Limits.{Settings}
use video_encoder_service.Transcode.Encoder.{QualityEncodingResult}
use video_encoder_service.Transcode.Qualities.{
  Progress, add_failure, resume_quality, load_existing, size_outcome, encode_outcome, encode_new,
  encode_one, encode_loop,
}
use video_encoder_service.Transcode.Completed.{one_of-append}
use video_encoder_service.Transcode.Yields.{
  Yields, Yields-pure, Yields-fail, Yields-bind, Yields-if, Given,
}

abbrev pub Any : World → Type 0
Any w = Unit

abbrev pub Lost : String → Progress → World → Type 0
Lost q acc w = one_of q acc.failed_qualities ≡ true

pub Given-Any : {A : Type 0} (r : Result A × World) → Given (λ _. Any) r
Given-Any (ok a, w) = tt
Given-Any (err e, w) = tt
Given-Any (panic, w) = tt

-- Whatever the calls before it do, what the last one returns counts.
pub Yields-last :
    {A B : Type 0} {R : B → World → Type 0} (m : M World A) (f : A → M World B)
    → ((a : A) → Yields Any R (f a))
    → Yields Any R (m >>= f)
Yields-last m f h = Yields-bind (λ _. Any) m f (record { at = λ w _. Given-Any (m w) }) h

module _ (env : Env) (u : Settings) (job : Job) (q : String) where
  Lost-failed :
      (name : String) (acc : Progress)
      → one_of q acc.failed_qualities ≡ true
      → Yields Any (Lost q) (pure (add_failure name acc))
  Lost-failed name acc h = Yields-pure _ λ w t. one_of-append q acc.failed_qualities (name ∷ []) h

  Lost-size :
      (acc : Progress) (r : Error ⊎ Unit {0})
      → one_of q acc.failed_qualities ≡ true
      → Yields Any (Lost q) (size_outcome env u job acc r)
  unfolding size_outcome
  Lost-size acc (inr t) h = Yields-last _ _ λ _. Yields-pure _ λ w _. h
  Lost-size acc (inl e) h = search (Yields-last, Yields-fail) depth 20

  Lost-resume :
      (v : QualityVariant) (acc : Progress)
      → one_of q acc.failed_qualities ≡ true
      → Yields Any (Lost q) (resume_quality env u job v acc)
  unfolding resume_quality load_existing
  Lost-resume v acc h = Yields-last _ _ λ there.
      Yields-if there _ _ (Yields-last _ _ λ n. Yields-pure _ λ w _. h) (Yields-pure _ λ w _. h)

  Lost-outcome :
      (v : QualityVariant) (acc : Progress) (r : QualityEncodingResult)
      → one_of q acc.failed_qualities ≡ true
      → Yields Any (Lost q) (encode_outcome env u job v acc r)
  unfolding encode_outcome
  Lost-outcome v acc r h =
      Yields-if r.success _ _ (Yields-last _ _ λ _. Yields-last _ _ λ limit. Lost-size _ limit h)
        (Yields-last _ _ λ _. Yields-last _ _ λ _. Lost-failed v.name acc h)

  Lost-one :
      (v : QualityVariant) (acc : Progress)
      → one_of q acc.failed_qualities ≡ true
      → Yields Any (Lost q) (encode_one env u job v acc)
  unfolding encode_one encode_new
  Lost-one v acc h = search (Yields-last, Yields-if, Lost-resume, Lost-outcome) depth 20

  pub Lost-loop :
      (vs : List QualityVariant) (acc : Progress)
      → one_of q acc.failed_qualities ≡ true
      → Yields Any (Lost q) (encode_loop env u job vs acc)
  unfolding encode_loop
  Lost-loop [] acc h = Yields-pure _ λ w _. h
  Lost-loop (v ∷ vs) acc h =
      Yields-bind (Lost q) _ _ (Lost-one v acc h)
        λ acc'. record { at = λ w lost. (Lost-loop vs acc' lost).at w tt }
