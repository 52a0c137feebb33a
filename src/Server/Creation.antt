-- ===== src/Server/Creation.antt =====
-- What CreateJob of job_handler.go does to the queue and to the repository.
use video_encoder_service.Prelude.{
  ◌⊎◌, inl, inr, ℕ, String, ◌≡◌, refl, ap, [], ◌∷◌, ◌++◌, Option, none, some, get_elem?,
  get_elem?-append_self, Option-cases, subst,
}
use video_encoder_service.Prelude.Dict
use video_encoder_service.Types.Error.{Error, ◌>>=◌, pure, try}
use video_encoder_service.Types.Job.{Job, queued, status_text}
use video_encoder_service.Types.Triple.{Post, Ensures, Ensures-pure, Ensures-bind, Ensures-if}
use video_encoder_service.Jobs.Repository.{load}
use video_encoder_service.Jobs.Service.{new_job}
use video_encoder_service.Jobs.Valid.{create_job_free, create_job_taken}
use video_encoder_service.Transcode.World.{on_jobs, ask, time}
use video_encoder_service.Validator.Check.{ValidationError}
use video_encoder_service.Server.State.{
  Server, Site, on_world, on_service, enqueue, clock, ask_site,
}
use video_encoder_service.Server.Handlers.{
  TranscodeRequest, Response, sends_error, sends, job_created, make_job, validate, create_made,
  create_valid, create_decoded, handle_create,
}

-- The queue and the repository are as they were.
pub record IsAsBefore (before now : Server) : Type 0 where
  pub queue : now.queue ≡ before.queue
  pub jobs : now.world.jobs ≡ before.world.jobs

-- The outcome of CreateJob of the service: a queued job under an ID that was free, or nothing
-- bound.
abbrev pub Made : Server → Error ⊎ ℕ → Server → Type 0
Made s (inl e) t = (t.queue ≡ s.queue) × (t.world.jobs.index ≡ s.world.jobs.index)
Made s (inr p) t =
    (job : Job) × (t.queue ≡ s.queue)
    × (get_elem? t.world.jobs.heap p ≡ some job)
    × (job.status ≡ queued)
    × (Dict.lookup job.id t.world.jobs.index ≡ some p)
    × (Dict.lookup job.id s.world.jobs.index ≡ none)

-- A response of CreateJob, and the state it leaves: one pointer more in the queue, which the
-- response's ID leads to, or the queue and the IDs as they were.
abbrev pub Created : Server → Response → Server → Type 0
Created s (sends_error status code) t =
    (t.queue ≡ s.queue) × (t.world.jobs.index ≡ s.world.jobs.index)
Created s (sends (job_created id status)) t =
    (p : ℕ) × (job : Job) × (t.queue ≡ s.queue ++ p ∷ [])
    × (Dict.lookup id t.world.jobs.index ≡ some p)
    × (get_elem? t.world.jobs.heap p ≡ some job)
    × (job.id ≡ id)
    × (job.status ≡ queued)
    × (Dict.lookup id s.world.jobs.index ≡ none)
    × (status ≡ "QUEUED")
Created s (sends _) t = ⊥

module _ (site : Site) (s : Server) where
  made :
      (path : String) (chunk : ℕ)
      → Ensures (λ _. ⊥) (IsAsBefore s) (Made s) (try (make_job site path chunk))
  unfolding make_job clock on_service on_world on_jobs time ask ◌>>=◌ try new_job
  made path chunk = record {
    at = λ t same.
        let now = site.env.now t.world.tick in
        let job = new_job site.config path chunk now in
        elim (Option-cases (Dict.lookup job.id t.world.jobs.index)) [
          | inl free ↦ rw (create_job_free t.world.jobs site.config path chunk now free) (
            job,
            same.queue,
            get_elem?-append_self t.world.jobs.heap job,
            refl,
            Dict.lookup-insert_self job.id _ t.world.jobs.index,
            subst (λ j. Dict.lookup job.id j.index ≡ none) same.jobs free,
          )
          | inr (p, taken) ↦
              rw (create_job_taken t.world.jobs site.config path chunk now p taken)
                (same.queue, ap (λ j. j.index) same.jobs)
        ];
  }

  refused :
      (status : ℕ) (code : String)
      → Ensures (λ _. ⊥) (IsAsBefore s) (Created s) (pure (sends_error status code))
  refused status code = Ensures-pure _ (λ t same. (same.queue, ap (λ j. j.index) same.jobs))

  created-Made : (r : Error ⊎ ℕ) → Ensures (λ _. ⊥) (Made s r) (Created s) (create_made site r)
  unfolding create_made enqueue load on_service on_world on_jobs ◌>>=◌ pure status_text
  created-Made (inl e) = Ensures-pure _ (λ t m. m)
  created-Made (inr p) = record {
    at = λ t m.
        let (job, queue, at, status, bound, free) = m in
        rw at (
          p,
          job,
          ap (λ q. q ++ p ∷ []) queue,
          bound,
          at,
          refl,
          status,
          free,
          ap status_text status,
        );
  }

  asked :
      {A : Type 0} (f : ℕ → A) → Ensures (λ _. ⊥) (IsAsBefore s) (λ _. IsAsBefore s) (ask_site f)
  unfolding ask_site on_world ask
  asked f = record { at = λ t same. record { queue = same.queue; jobs = same.jobs } }

  validated :
      (path : String) → Ensures (λ _. ⊥) (IsAsBefore s) (λ _. IsAsBefore s) (validate site path)
  unfolding validate
  validated path = Ensures-bind _ _ _ (asked _) λ m. Ensures-pure _ (λ t same. same)

  created_valid :
      (req : TranscodeRequest) (o : Option ValidationError)
      → Ensures (λ _. ⊥) (IsAsBefore s) (Created s) (create_valid site req o)
  unfolding create_valid
  created_valid req none = Ensures-bind _ _ _ (made req.input_path req.chunk_duration) created-Made
  created_valid req (some e) = refused 400 e.code

  created_decoded :
      (body : Option TranscodeRequest)
      → Ensures (λ _. ⊥) (IsAsBefore s) (Created s) (create_decoded site body)
  unfolding create_decoded
  created_decoded none = refused _ _
  created_decoded (some req) =
      Ensures-if _ _ _ (refused _ _)
        (Ensures-bind _ _ _ (validated req.input_path) (created_valid req))

  created :
      (body : Option TranscodeRequest)
      → Ensures (λ _. ⊥) (IsAsBefore s) (Created s) (handle_create site body)
  unfolding handle_create
  created body =
      Ensures-bind _ _ _ (asked _) λ usage. Ensures-if _ _ _ (created_decoded body) (refused _ _)

-- CreateJob always responds. Where it sends an ID, the ID was free, one pointer more is at the end
-- of the job queue, the ID leads to that pointer and to a QUEUED job of that ID, and the status
-- sent is QUEUED; where it sends an error, the job queue and the IDs of the repository are as they
-- were.
pub handle_create-Created :
    (site : Site) (body : Option TranscodeRequest) (s : Server)
    → Post (λ _. ⊥) (Created s) (handle_create site body s)
handle_create-Created site body s =
    (created site s body).at s (record { queue = refl; jobs = refl })
