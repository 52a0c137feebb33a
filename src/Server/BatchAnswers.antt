-- ===== src/Server/BatchAnswers.antt =====
-- The handlers on batches answer every request, and keep the invariant of the service.
use video_encoder_service.Prelude.{◌⊎◌, inl, inr, ℕ, String, List, [], ◌∷◌, Option, none, some, All}
use video_encoder_service.Types.Error.{Error, M}
use video_encoder_service.Types.Triple.{
  Ensures, Ensures-pure, Ensures-reads, Ensures-bind, Ensures-if, Ensures-try, Ensures-ignore,
}
use video_encoder_service.Batches.Service.{Batch}
use video_encoder_service.Validator.Check.{ValidationError}
use video_encoder_service.Server.State.{Server, Site}
use video_encoder_service.Server.Handlers.{Response}
use video_encoder_service.Server.Batching.{
  BatchRequest, current_batch, with_job, and_rest, file_made, file_valid, queue_file, queue_files,
  batch_made, files_queued, batch_id_of, batch_of_files, handle_create_batch, batch_status,
  handle_batch_status,
}
use video_encoder_service.Server.Sound.{
  Heap, IsPointer, Stable, Stable-none, Stable-pointers, Stable-both, Knows,
}
use video_encoder_service.Server.Rules.{
  Ensures-clock, Ensures-enqueue, Ensures-forget, Ensures-load_all,
}
use video_encoder_service.Server.Serves.{
  Stable-IsPointer, Nothing, Serves, Serves-pure, Outcome, Ensures-attempt, Ensures-make,
  Ensures-validate,
}
use video_encoder_service.Server.BatchRules.{
  Leads, Ensures-create_batch, Ensures-get_batch, Ensures-update, Ensures-stats, current-Leads,
}

abbrev Made : {A : Type 0} → (A → Heap → Type 0) → Response ⊎ A → Heap → Type 0
Made R (inl response) h = Unit
Made R (inr a) h = R a h

forgotten : {F : Heap → Type 0} (s : Server) → Knows F s → Knows Nothing s
forgotten s k = record { sound = k.sound; known = tt }

with_job-Made :
    (F : Heap → Type 0) (p : ℕ) (r : Response ⊎ List ℕ) (h : Heap)
    → Made (λ ps h. (F h × IsPointer h p) × All (IsPointer h) ps) r h
    → Made (λ ps h. F h × All (IsPointer h) ps) (with_job p r) h
with_job-Made F p (inl response) h x = tt
with_job-Made F p (inr ps) h x = (x.0.0, (x.0.1, x.1))

Ensures-and_rest :
    (F : Heap → Type 0) (r : Response ⊎ ℕ) (rest : M Server (Response ⊎ List ℕ))
    → ((p : ℕ)
        → Ensures
            (λ _. ⊥)
            (Knows (λ h. F h × IsPointer h p))
            (λ r. Knows (Made (λ ps h. (F h × IsPointer h p) × All (IsPointer h) ps) r))
            rest)
    → Ensures
        (λ _. ⊥)
        (Knows (Made (λ p h. F h × IsPointer h p) r))
        (λ r. Knows (Made (λ ps h. F h × All (IsPointer h) ps) r))
        (and_rest r rest)
unfolding and_rest
Ensures-and_rest F (inl response) rest er =
    Ensures-pure _ (λ s k. record { sound = k.sound; known = tt })
Ensures-and_rest F (inr p) rest er = Ensures-bind _ _ _ (er p) λ r.
    Ensures-pure (with_job p r)
      (λ s k. record { sound = k.sound; known = with_job-Made F p r _ k.known })

module _ (site : Site) (format : ℕ → String) where
  Ensures-file_made :
      {F : Heap → Type 0} (r : Error ⊎ ℕ)
      → Ensures
          (λ _. ⊥)
          (Knows (Outcome (λ p h. F h × IsPointer h p) r))
          (λ r. Knows (Made (λ p h. F h × IsPointer h p) r))
          (file_made site format r)
  unfolding file_made
  Ensures-file_made (inl e) = Ensures-pure _ (λ s k. record { sound = k.sound; known = tt })
  Ensures-file_made (inr p) =
      Ensures-bind _ _ _ (Ensures-enqueue p (λ h x. x.1)) λ _. Ensures-pure _ (λ s k. k)

  Ensures-file_valid :
      {F : Heap → Type 0} (path : String) (chunk : ℕ) (o : Option ValidationError)
      → Stable F
      → Ensures
          (λ _. ⊥)
          (Knows F)
          (λ r. Knows (Made (λ p h. F h × IsPointer h p) r))
          (file_valid site format path chunk o)
  unfolding file_valid
  Ensures-file_valid {F} path chunk none st =
      Ensures-bind _ _ _
        (Ensures-attempt (λ p h. F h × IsPointer h p) _ (Ensures-make site path chunk st))
        Ensures-file_made
  Ensures-file_valid path chunk (some e) st =
      Ensures-pure _ (λ s k. record { sound = k.sound; known = tt })

  Ensures-queue_file :
      {F : Heap → Type 0} (path : String) (chunk : ℕ)
      → Stable F
      → Ensures
          (λ _. ⊥)
          (Knows F)
          (λ r. Knows (Made (λ p h. F h × IsPointer h p) r))
          (queue_file site format path chunk)
  unfolding queue_file
  Ensures-queue_file path chunk st =
      Ensures-bind _ _ _ (Ensures-validate site path) λ o. Ensures-file_valid path chunk o st

  Ensures-queue_files :
      {F : Heap → Type 0} (paths : List String) (chunk : ℕ)
      → Stable F
      → Ensures
          (λ _. ⊥)
          (Knows F)
          (λ r. Knows (Made (λ ps h. F h × All (IsPointer h) ps) r))
          (queue_files site format paths chunk)
  unfolding queue_files
  Ensures-queue_files [] chunk st =
      Ensures-pure _ (λ s k. record { sound = k.sound; known = (k.known, tt) })
  Ensures-queue_files {F} (path ∷ paths) chunk st =
      Ensures-bind _ _ _ (Ensures-queue_file path chunk st) λ r. Ensures-and_rest F r _ λ p.
        Ensures-queue_files {F = λ h. F h × IsPointer h p} paths chunk
          (Stable-both st (Stable-IsPointer p))

  Serves-batch_made : (r : Error ⊎ Batch) → Serves (Outcome Leads r) (batch_made site format r)
  unfolding batch_made
  Serves-batch_made (inl e) = Serves-pure _
  Serves-batch_made (inr b) =
      Ensures-bind _ _ _ (Ensures-load_all b.jobs (Stable-pointers b.jobs) (λ h x. x))
        λ jobs. Serves-pure _

  Serves-files_queued :
      (id : String) (r : Response ⊎ List ℕ)
      → Serves (Made (λ ps h. Unit × All (IsPointer h) ps) r) (files_queued site format id r)
  unfolding files_queued
  Serves-files_queued id (inl response) = Serves-pure _
  Serves-files_queued id (inr ps) =
      Ensures-forget _ (λ h x. x.1)
        (Ensures-bind _ _ _ (Ensures-clock site) λ now.
          Ensures-bind _ _ _ (Ensures-attempt Leads _ (Ensures-create_batch id ps now))
            Serves-batch_made)

  Serves-batch_of_files :
      (req : BatchRequest) (paths : List String)
      → Serves Nothing (batch_of_files site format req paths)
  unfolding batch_of_files batch_id_of
  Serves-batch_of_files req [] = Serves-pure _
  Serves-batch_of_files req (path ∷ paths) =
      Ensures-bind (λ _. Knows Nothing) _ _
        (Ensures-if _ _ _ (Ensures-bind _ _ _ (Ensures-clock site) λ now. Ensures-pure _ (λ s k. k))
          (Ensures-pure _ (λ s k. k)))
        λ id.
          Ensures-bind _ _ _ (Ensures-queue_files (path ∷ paths) req.chunk_duration Stable-none)
            (Serves-files_queued id)

  pub Serves-create_batch :
      (body : Option BatchRequest) → Serves Nothing (handle_create_batch site format body)
  unfolding handle_create_batch
  Serves-create_batch none = Serves-pure _
  Serves-create_batch (some req) = Serves-batch_of_files req req.files

  Serves-found :
      (id : String) (r : Error ⊎ Batch) → Serves (Outcome Leads r) (batch_status site format id r)
  unfolding batch_status
  Serves-found id (inl e) = Serves-pure _
  Serves-found id (inr b) = Ensures-bind _ _ _ (Ensures-clock site) λ now.
      Ensures-bind _ _ _ (Ensures-ignore _ (Ensures-update id now)) λ _.
        Ensures-bind (λ _. Knows (Leads b)) _ _
          (Ensures-try _ (Ensures-stats id) (λ e s k. k) (λ a s k. k))
          λ stats.
            Ensures-bind (λ c. Knows (Leads c)) _ _
              (Ensures-reads (current_batch b) (current-Leads b))
              λ c.
                Ensures-bind _ _ _ (Ensures-load_all c.jobs (Stable-pointers c.jobs) (λ h x. x))
                  λ jobs. Serves-pure _

  pub Serves-batch_status : (id : String) → Serves Nothing (handle_batch_status site format id)
  unfolding handle_batch_status
  Serves-batch_status id =
      Ensures-bind _ _ _ (Ensures-attempt Leads _ (Ensures-get_batch id)) (Serves-found id)
