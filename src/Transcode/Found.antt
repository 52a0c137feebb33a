-- ===== src/Transcode/Found.antt =====
-- What becomes of a quality in the loop of encodeWithResume.
use video_encoder_service.Prelude.{
  ◌≡◌, refl, sym, String, true, List, [], ◌∷◌, ◌++◌, ◌⊎◌, inl, inr, ℕ, str_eq, str_eq_iff, one_of,
  Bool-cases,
}
use video_encoder_service.Types.Error.{Result, ok, err, panic, M, ◌>>=◌, reads, pure}
use video_encoder_service.Types.Job.{Job}
use video_encoder_service.Types.State.{JobState, is_quality_completed, mark_quality_completed}
use video_encoder_service.Types.Encoding.{QualityVariant}
use video_encoder_service.Transcode.World.{World, Env, Event, change_state}
use video_encoder_service.Transcode.Limits.{Settings}
use video_encoder_service.Transcode.Encoder.{QualityEncodingResult}
use video_encoder_service.Transcode.Qualities.{
  Progress, add_failure, encode_outcome, encode_new, encode_one, encode_loop,
}
use video_encoder_service.Transcode.Framed.{IsQuiet, Keeps-save_state}
use video_encoder_service.Transcode.Keeps.{Keeps, keeps_rules}
use video_encoder_service.Transcode.Safe.{Safe, safe_rules}
use video_encoder_service.Transcode.SafeSteps.{Keeps-encode_quality, Keeps-encode_one}
use video_encoder_service.Transcode.Completed.{encodings, Done, done_rules}
use video_encoder_service.Transcode.Once
use video_encoder_service.Transcode.Yields.{
  Yields, Yields-pure, Yields-bind, Yields-Keeps, Yields-next, Yields-if, Given,
}
use video_encoder_service.Transcode.Lost.{Given-Any, Lost-loop}

abbrev pub names : List QualityVariant → List String
names [] = []
names (v ∷ vs) = v.name ∷ names vs

-- The state has the quality as complete.
abbrev pub Known : String → World → Type 0
Known q w = (n : ℕ) × Done q n w

-- The state has the quality as complete, or it is among the failures of the loop.
abbrev pub Found : String → Progress → World → Type 0
Found q acc w = Known q w ⊎ (one_of q acc.failed_qualities ≡ true)

pub Keeps-Known :
    {A : Type 0} (q : String) (m : M World A) → ((n : ℕ) → Keeps (Done q n) m) → Keeps (Known q) m
Keeps-Known q m k = record { at = λ w (n, d). let (d', calm) = (k n).at w d in ((n, d'), calm) }

one_of-last : (q : String) (xs : List String) → one_of q (xs ++ q ∷ []) ≡ true
one_of-last q [] = rw ((str_eq_iff q q).1 refl) refl
one_of-last q (x ∷ xs) = elim (Bool-cases (str_eq x q)) [
  | inl same ↦ rw same refl
  | inr other ↦ rw other (one_of-last q xs)
]

marks :
    (q : String) (now : ℕ) (s : JobState)
    → is_quality_completed (mark_quality_completed q now s) q ≡ true
unfolding mark_quality_completed is_quality_completed
marks q now s = elim (Bool-cases (one_of q s.qualities_complete)) [
  | inl there ↦ rw there there
  | inr new ↦ rw new (one_of-last q s.qualities_complete)
]

pub Given-map :
    {A : Type 0} {R S : A → World → Type 0}
    → ((a : A) (w : World) → R a w → S a w)
    → (r : Result A × World) → Given R r
    → Given S r
Given-map f (ok a, w) h = f a w h
Given-map f (err e, w) h = tt
Given-map f (panic, w) h = tt

module _ (Q : List Event → Type 0)
    (quiet : (e : Event) (l : List Event) → IsQuiet e → Q l → Q (e ∷ l)) (env : Env) (u : Settings)
    (job : Job) where
  Known-marked :
      (q : String) (now : ℕ)
      → Yields (Safe job.id Q) (λ _. Known q) (change_state (mark_quality_completed q now))
  unfolding change_state
  Known-marked q now = record {
    at = λ w s. (
      encodings q w.log,
      record { valid = s.valid; complete = marks q now w.current; started = refl },
    );
  }

  Yields-Found :
      (q : String) (m : M World Progress)
      → ((n : ℕ) → Keeps (Done q n) m)
      → Yields (Known q) (Found q) m
  Yields-Found q m k = record {
    at = λ w d.
        Given-map (λ acc w' known. inl known) (m w) ((Yields-Keeps m (Keeps-Known q m k)).at w d);
  }

  -- A quality that could not be encoded is among the failures.
  Found-failed :
      (q : String) (acc : Progress) → Yields (Safe job.id Q) (Found q) (pure (add_failure q acc))
  Found-failed q acc = Yields-pure _ λ w s. inr (one_of-last q acc.failed_qualities)

  Found-outcome :
      (v : QualityVariant) (acc : Progress) (r : QualityEncodingResult)
      → Yields (Safe job.id Q) (Found v.name) (encode_outcome env u job v acc r)
  unfolding encode_outcome
  Found-outcome v acc r =
      Yields-if r.success _ _
        (Yields-bind (λ _. Known v.name) _ _
          (search (Yields-next, Known-marked, keeps_rules, safe_rules) depth 20)
          λ t. Yields-Found v.name _ λ n. search (done_rules, Once.Keeps-size_outcome) depth 20)
        (search (Yields-next, Found-failed, keeps_rules, safe_rules, Keeps-save_state) depth 20)

  Found-new :
      (v : QualityVariant) (acc : Progress)
      → Yields (Safe job.id Q) (Found v.name) (encode_new env u job v acc)
  unfolding encode_new
  Found-new v acc =
      search
        (
          Yields-next, Found-outcome, keeps_rules, safe_rules, Keeps-save_state,
          Keeps-encode_quality,
        )
        depth 20

  Found-one :
      (v : QualityVariant) (acc : Progress)
      → Yields (Safe job.id Q) (Found v.name) (encode_one env u job v acc)
  unfolding encode_one ◌>>=◌ reads
  Found-one v acc = record {
    at = λ w s. elim (Bool-cases (is_quality_completed w.current v.name)) [
      | inl done ↦
          let d : Known v.name w =
            (encodings v.name w.log, record { valid = s.valid; complete = done; started = refl }) in
          rw done
            ((Yields-Found v.name _ λ n. Once.Keeps-resume_quality v.name n env u job v acc).at w d)
      | inr new ↦ rw new ((Found-new v acc).at w s)
    ];
  }

  module _ (q : String) where
    -- What is found stays found.
    Found-rest :
        (vs : List QualityVariant) (acc : Progress)
        → Yields (Found q acc) (Found q) (encode_loop env u job vs acc)
    Found-rest vs acc = record {
      at = λ w found. elim found [
        | inl known ↦ (Yields-Found q _ λ n. Once.Keeps-encode_loop q n env u job vs acc).at w known
        | inr lost ↦
            Given-map (λ acc' w' l. inr l) (encode_loop env u job vs acc w)
              ((Lost-loop env u job q vs acc lost).at w tt)
      ];
    }

    Found-here :
        (v : QualityVariant) (acc : Progress)
        → v.name ≡ q
        → Yields (Safe job.id Q) (Found q) (encode_one env u job v acc)
    Found-here v acc same = rw (sym same) (Found-one v acc)

    pub Found-loop :
        (vs : List QualityVariant) (acc : Progress)
        → one_of q (names vs) ≡ true
        → Yields (Safe job.id Q) (Found q) (encode_loop env u job vs acc)
    unfolding encode_loop
    Found-loop [] acc h = cc
    Found-loop (v ∷ vs) acc h = elim (Bool-cases (str_eq v.name q)) [
      | inl same ↦
          Yields-bind (Found q) _ _ (Found-here v acc ((str_eq_iff v.name q).0 same))
            (Found-rest vs)
      | inr other ↦
          Yields-next _ _ (Keeps-encode_one job.id Q quiet env u job v acc)
            λ acc'. Found-loop vs acc' (rw other at h)
    ]

    pub Found-kept :
        {A : Type 0} (P : Type 0) (m : M World A)
        → ((n : ℕ) → Keeps (Done q n) m)
        → Yields (λ w. Known q w ⊎ P) (λ _ w. Known q w ⊎ P) m
    Found-kept P m k = record {
      at = λ w found. elim found [
        | inl known ↦
            Given-map (λ a w' d. inl d) (m w) ((Yields-Keeps m (Keeps-Known q m k)).at w known)
        | inr p ↦ Given-map (λ a w' t. inr p) (m w) (Given-Any (m w))
      ];
    }
