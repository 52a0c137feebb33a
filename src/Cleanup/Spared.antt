-- ===== src/Cleanup/Spared.antt =====
-- What AutoCleanup leaves alone.
use video_encoder_service.Prelude.{
  inl, inr, ℕ, suc, ◌+◌, false, String, true, ◌≡◌, ◌≢◌, refl, ◌∙◌, ap, List, [], ◌∷◌, ◌++◌, ltb,
  Option-cases, Bool-cases, All,
}
use video_encoder_service.Prelude.Dict
use video_encoder_service.Types.Error.{
  Result, ok, err, panic, next, outcome, M, ◌>>=◌, pure, fail, try, wrapping,
}
use video_encoder_service.Types.Triple.{Post, Post-weaken, Ensures, Ensures-bind, Ensures-weaken}
use video_encoder_service.Transcode.World.{World, Env, ask, answer_of, external, set_disk}
use video_encoder_service.Transcode.Limits.{Settings, delete_job_files}
use video_encoder_service.Cleanup.Service.{JobInfo, Disks, or_zero, count_removed, clean_jobs}

-- The files of the jobs in `D` are as they were.
pub record IsUntouched (D : String → Type 0) (before now : World) : Type 0 where
  pub states : (j : String) → D j → Dict.lookup j now.disk.states ≡ Dict.lookup j before.disk.states
  pub dirs :
      (j : String)
      → D j
      → Dict.lookup j now.disk.quality_dirs ≡ Dict.lookup j before.disk.quality_dirs

abbrev pub Anything : String → Type 0
Anything j = Unit

module _ (w₀ : World) {D : String → Type 0} where
  pub asked :
      {A : Type 0} {I : World → Type 0} (f : ℕ → A)
      → Ensures I (IsUntouched D w₀) (λ _. IsUntouched D w₀) (ask f)
  unfolding ask
  asked f = record { at = λ w u. record { states = u.states; dirs = u.dirs } }

  called :
      (env : Env) (prefix : String)
      → Ensures
          (IsUntouched D w₀)
          (IsUntouched D w₀)
          (λ _. IsUntouched D w₀)
          (wrapping prefix (external env))
  unfolding external answer_of wrapping ask ◌>>=◌ pure fail
  called env prefix = record {
    at = λ w u. elim (Option-cases (env.run w.tick)) [
      | inl fine ↦ rw fine (record { states = u.states; dirs = u.dirs })
      | inr (text, failed) ↦ rw failed (record { states = u.states; dirs = u.dirs })
    ];
  }

removed_files :
    (w₀ : World) (D : String → Type 0) (env : Env) (settings : Settings) (id : String)
    → Ensures
        (IsUntouched (λ j. D j × (id ≢ j)) w₀)
        (IsUntouched D w₀)
        (λ _. IsUntouched (λ j. D j × (id ≢ j)) w₀)
        (delete_job_files env settings id)
unfolding delete_job_files set_disk
removed_files w₀ D env settings id =
    Ensures-bind (λ _. IsUntouched D w₀) _ _
      (Ensures-weaken _ (called w₀ env _)
        (λ w u. record { states = λ j (h, k). u.states j h; dirs = λ j (h, k). u.dirs j h })
        (λ w u. u) (λ a w u. u))
      λ _.
        Ensures-bind (λ _. IsUntouched (λ j. D j × (id ≢ j)) w₀) _ _
          (record {
            at = λ w u. record {
              states = λ j (h, k). Dict.lookup-delete_other id j w.disk.states k ∙ u.states j h;
              dirs = λ j (h, k). Dict.lookup-delete_other id j w.disk.quality_dirs k ∙ u.dirs j h;
            };
          })
          λ _. called w₀ env _

abbrev pub later : World → World
later w = record w { tick = suc w.tick }

-- A run of the loop: the jobs that it tries to remove, those that it leaves, and the worlds before
-- and after it. Before each job it finds a usage that is not below the target, and it ends at the end
-- of the jobs or at a usage below the target.
pub data Cleans (d : Disks) (target : ℕ)
    : List JobInfo → List JobInfo → World → World → Type 0 where
  ends : (w : World) → Cleans d target [] [] w w
  stops :
      (job : JobInfo) (jobs : List JobInfo) (w : World)
      → ltb (or_zero (d.usage w.tick)) target ≡ true
      → Cleans d target [] (job ∷ jobs) w (later w)
  removes :
      {gone left : List JobInfo} (job : JobInfo) (w v : World)
      → ltb (or_zero (d.usage w.tick)) target ≡ false
      → Cleans d target gone left (delete_job_files d.env d.settings job.job_id (later w)).1 v
      → Cleans d target (job ∷ gone) left w v

-- The jobs that the loop tried to remove, a first part of those given, and what it left.
pub record IsCleaned (d : Disks) (target : ℕ) (D : String → Type 0) (w₀ : World)
    (jobs : List JobInfo) (from w : World) : Type 0 where
  pub gone : List JobInfo
  pub left : List JobInfo
  pub parts : jobs ≡ gone ++ left
  pub cleans : Cleans d target gone left from w
  pub spared : IsUntouched (λ j. D j × All (λ g. g.job_id ≢ j) gone) w₀ w

module _ (d : Disks) (target : ℕ) (w₀ : World) where
  with_job :
      (D : String → Type 0) (job : JobInfo) (jobs : List JobInfo) (w v : World)
      → ltb (or_zero (d.usage w.tick)) target ≡ false
      → IsCleaned d target
          (λ j. D j × (job.job_id ≢ j))
          w₀
          jobs
          (delete_job_files d.env d.settings job.job_id (later w)).1
          v
      → IsCleaned d target D w₀ (job ∷ jobs) w v
  with_job D job jobs w v high c = record {
    gone = job ∷ c.gone;
    left = c.left;
    parts = ap (λ js. job ∷ js) c.parts;
    cleans = removes job w v high c.cleans;
    spared = record {
      states = λ j (h, (k, ks)). c.spared.states j ((h, k), ks);
      dirs = λ j (h, (k, ks)). c.spared.dirs j ((h, k), ks);
    };
  }

  at_end :
      (D : String → Type 0) (jobs : List JobInfo) (w v : World)
      → IsUntouched D w₀ v
      → Cleans d target [] jobs w v
      → IsCleaned d target D w₀ jobs w v
  at_end D jobs w v u run = record {
    gone = [];
    left = jobs;
    parts = refl;
    cleans = run;
    spared = record { states = λ j (h, k). u.states j h; dirs = λ j (h, k). u.dirs j h };
  }

  -- What follows the removal of a job.
  after :
      (I : World → Type 0) (R : World → World → Type 0) (T : World → Type 0) (cleaned : ℕ)
      (rest : ℕ → M World ℕ) (r : Result (Unit {0}) × World)
      → ((n : ℕ) (v : World) → I v → Post (λ _. ⊥) (λ _. R v) (rest n v))
      → ((x : World) → R r.1 x → T x)
      → Post I (λ _. I) r
      → Post (λ _. ⊥) (λ _. T) (next (λ q. rest (count_removed q cleaned)) (outcome r))
  after I R T cleaned rest (ok a, v) er wrap u =
      Post-weaken (rest (cleaned + 1) v) (λ x e. e) (λ n. wrap) (er (cleaned + 1) v u)
  after I R T cleaned rest (err e, v) er wrap u =
      Post-weaken (rest cleaned v) (λ x e. e) (λ n. wrap) (er cleaned v u)
  after I R T cleaned rest (panic, v) er wrap u = absurd u

  pub clean_jobs-IsCleaned :
      (D : String → Type 0) (jobs : List JobInfo) (cleaned : ℕ) (w : World)
      → IsUntouched D w₀ w
      → Post (λ _. ⊥) (λ _. IsCleaned d target D w₀ jobs w) (clean_jobs d target jobs cleaned w)
  unfolding clean_jobs ask ◌>>=◌ try pure
  clean_jobs-IsCleaned D [] cleaned w u = at_end D [] w w u (ends w)
  clean_jobs-IsCleaned D (job ∷ jobs) cleaned w u =
      let gone : String → Type 0 = λ j. D j × (job.job_id ≢ j) in
      let asked_usage : IsUntouched D w₀ (later w) = record { states = u.states; dirs = u.dirs } in
      elim (Bool-cases (ltb (or_zero (d.usage w.tick)) target)) [
        | inl low ↦ rw low (at_end D (job ∷ jobs) w (later w) asked_usage (stops job jobs w low))
        | inr high ↦ rw high (
            after (IsUntouched gone w₀) (IsCleaned d target gone w₀ jobs)
              (IsCleaned d target D w₀ (job ∷ jobs) w) cleaned (clean_jobs d target jobs)
              (delete_job_files d.env d.settings job.job_id (later w))
              (clean_jobs-IsCleaned gone jobs) (λ v. with_job D job jobs w v high)
              ((removed_files w₀ D d.env d.settings job.job_id).at (later w) asked_usage))
      ]
