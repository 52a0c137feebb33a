-- ===== src/Ffmpeg/Looped.antt =====
-- What the loop of EncodeHLSWithPartialSuccess adds to its variables.
use video_encoder_service.Prelude.{
  inl, inr, ℕ, ◌≤◌, ◌≡◌, refl, sym, ◌∙◌, String, Bool, true, List, [], ◌∷◌, ◌++◌, Bool-cases, ◌==◌,
  arith,
}
use mathlib.Core.List.{append_assoc, append-nil}
use video_encoder_service.Types.Encoding.{QualityVariant, QualityOutputInfo}
use video_encoder_service.Types.Triple.{
  Ensures, Ensures-pure, Ensures-bind, Ensures-fail, Ensures-weaken, Ensures-try,
}
use video_encoder_service.Transcode.Encoder.{QualityEncodingResult, quality_dir, to_result}
use video_encoder_service.Transcode.Qualities.{output_of}
use video_encoder_service.Ffmpeg.Shell.{Shell, Tools}
use video_encoder_service.Ffmpeg.Quality.{chunks_found, count_chunks, encode_quality}
use video_encoder_service.Ffmpeg.Hls.{Tally, count_result, encode_variants}
use video_encoder_service.Ffmpeg.Calm.{
  Calm-make_dir, Calm-get_video_info, Calm-watch, Calm-execute, Calm-query, Calm-given,
  Calm-wrapping, of_Calm,
}

-- The variants in order, parted into those that succeeded and the names of those that failed.
pub data Parts : List QualityVariant → List QualityVariant → List String → Type 0 where
  over : Parts [] [] []
  succeeds :
      {vs good : List QualityVariant} {bad : List String} (v : QualityVariant)
      → Parts vs good bad
      → Parts (v ∷ vs) (v ∷ good) bad
  fails :
      {vs good : List QualityVariant} {bad : List String} (v : QualityVariant)
      → Parts vs good bad
      → Parts (v ∷ vs) good (v.name ∷ bad)

-- The output of a variant has its name and at least one chunk.
abbrev pub Outputs : List QualityVariant → List QualityOutputInfo → Type 0
Outputs [] [] = Unit
Outputs (v ∷ vs) (o ∷ os) = (o.quality ≡ v.name) × (1 ≤ o.chunk_count) × Outputs vs os
Outputs [] (o ∷ os) = ⊥
Outputs (v ∷ vs) [] = ⊥

abbrev pub Free : Shell → Type 0
Free s = Unit

abbrev IsSound : QualityVariant → QualityEncodingResult → Type 0
IsSound v r = (r.success ≡ true) → (r.quality ≡ v.name) × (1 ≤ r.chunk_count)

module _ (t : Tools) where
  counted : (n : ℕ) → Ensures Free Free (λ k s. 1 ≤ k) (chunks_found n)
  unfolding chunks_found
  counted n = elim (Bool-cases (n == 0)) [
    | inl empty ↦ rw empty (Ensures-fail _ λ s h. tt)
    | inr chunks ↦ rw chunks (Ensures-pure n λ s h. ground arith)
  ]

  found :
      (id input : String) (v : QualityVariant) (n : ℕ) (outputs : String) (a : Bool)
      → Ensures Free Free (λ k s. 1 ≤ k) (count_chunks t id input v n outputs a)
  unfolding count_chunks
  found id input v n outputs a =
      Ensures-bind (λ _. Free) _ _ (of_Calm _ (Calm-wrapping _ _ (Calm-make_dir t _)))
        λ u.
          Ensures-bind (λ _. Free) _ _ (of_Calm _ (Calm-wrapping _ _ (Calm-get_video_info t input)))
            λ info.
              Ensures-bind (λ _. Free) _ _
                (of_Calm _ (Calm-watch t _ _ (Calm-execute t id input _ v n a outputs)))
                λ w.
                  Ensures-bind (λ _. Free) _ _ (of_Calm _ (Calm-query _))
                    λ glob.
                      Ensures-bind (λ _. Free) _ _
                        (of_Calm _ (Calm-wrapping _ _ (Calm-given _ glob))) λ k. counted k

  encoded :
      {I : Shell → Type 0} (id input : String) (v : QualityVariant) (n : ℕ) (outputs : String)
      (a : Bool)
      → Ensures I Free (λ r s. IsSound v r) (encode_quality t id input v n outputs a)
  unfolding encode_quality to_result
  encoded id input v n outputs a =
      Ensures-bind (λ r s. IsSound v (to_result v.name (quality_dir outputs id v.name) r)) _ _
        (Ensures-try _ (found id input v n outputs a) (λ e s h no. absurd (cc))
          (λ k s h good. (refl, h)))
        λ r. Ensures-pure _ λ s h. h

-- What the loop adds to its variables.
pub record Adds (vs : List QualityVariant) (acc acc' : Tally) : Type 0 where
  pub good : List QualityVariant
  pub bad : List String
  pub outs : List QualityOutputInfo
  pub parts : Parts vs good bad
  pub sound : Outputs good outs
  pub successful : acc'.successful ≡ acc.successful ++ good
  pub failures : acc'.failed ≡ acc.failed ++ bad
  pub outputs : acc'.outputs ≡ acc.outputs ++ outs

Adds-none : (acc : Tally) → Adds [] acc acc
Adds-none acc = record {
  good = [];
  bad = [];
  outs = [];
  parts = over;
  sound = tt;
  successful = sym (append-nil acc.successful);
  failures = sym (append-nil acc.failed);
  outputs = sym (append-nil acc.outputs);
}

Adds-result :
    (v : QualityVariant) (vs : List QualityVariant) (r : QualityEncodingResult) (acc acc' : Tally)
    → IsSound v r
    → Adds vs (count_result v r acc) acc'
    → Adds (v ∷ vs) acc acc'
unfolding count_result
Adds-result v vs r acc acc' sound d = elim (Bool-cases r.success) [
  | inl yes' ↦
      let (named, chunks) = sound yes' in
      record {
        good = v ∷ d.good;
        bad = d.bad;
        outs = output_of r ∷ d.outs;
        parts = succeeds v d.parts;
        sound = (named, chunks, d.sound);
        successful = rw yes' at d.successful ∙ append_assoc acc.successful (v ∷ []) d.good;
        failures = rw yes' at d.failures;
        outputs = rw yes' at d.outputs ∙ append_assoc acc.outputs (output_of r ∷ []) d.outs;
      }
  | inr no' ↦ record {
    good = d.good;
    bad = v.name ∷ d.bad;
    outs = d.outs;
    parts = fails v d.parts;
    sound = d.sound;
    successful = rw no' at d.successful;
    failures = rw no' at d.failures ∙ append_assoc acc.failed (v.name ∷ []) d.bad;
    outputs = rw no' at d.outputs;
  }
]

module _ (t : Tools) (outputs id input : String) (n : ℕ) (a : Bool) where
  pub looped :
      {I : Shell → Type 0} (vs : List QualityVariant) (acc : Tally)
      → Ensures I Free (λ acc' s. Adds vs acc acc') (encode_variants t outputs id input n vs a acc)
  unfolding encode_variants
  looped [] acc = Ensures-pure acc λ s h. Adds-none acc
  looped (v ∷ vs) acc =
      Ensures-bind (λ r s. IsSound v r) _ _ (encoded t id input v n outputs a)
        λ r. record {
          at = λ s sound.
              (Ensures-weaken _ (looped vs (count_result v r acc)) (λ w h. h) (λ w h. h)
                  (λ acc' w d. Adds-result v vs r acc acc' sound d)).at
                s tt;
        }
