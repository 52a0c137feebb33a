-- ===== src/Server/Batching.antt =====
-- CreateBatchJob and GetBatchStatus of job_handler.go. The metadata of a batch is left out.
use video_encoder_service.Prelude.{
  ◌⊎◌, inl, inr, ℕ, String, List, [], ◌∷◌, Option, none, some, if◌then◌else◌, str_eq, str_append,
}
use video_encoder_service.Prelude.Dict
use video_encoder_service.Types.Error.{Error, M, ◌>>=◌, ◌>>◌, pure, try, ignore, reads}
use video_encoder_service.Batches.Service.{
  Batch, create_batch, get_batch, update_batch_status, get_batch_stats,
}
use video_encoder_service.Validator.Check.{ValidationError}
use video_encoder_service.Server.State.{Server, Site, on_batches, enqueue, clock}
use video_encoder_service.Server.Handlers.{
  Response, sends_error, sends, batch_created, batch_found, not_found, make_job, validate, load_all,
}

pub record BatchRequest : Type 0 where
  pub files : List String
  pub batch_id : String
  pub chunk_duration : ℕ

-- What an Option holds of the outcome of a call whose error is dropped.
abbrev pub kept : {A : Type 0} → Error ⊎ A → Option A
kept (inl e) = none
kept (inr a) = some a

-- The batch behind the pointer `batch`, which the service's map shares.
abbrev pub current_batch : Batch → Server → Batch
current_batch b s = elim (Dict.lookup b.id s.batches) [ none ↦ b | some c ↦ c ]

abbrev pub with_job : ℕ → Response ⊎ List ℕ → Response ⊎ List ℕ
with_job p (inl response) = inl response
with_job p (inr ps) = inr (p ∷ ps)

unfoldable pub and_rest : Response ⊎ ℕ → M Server (Response ⊎ List ℕ) → M Server (Response ⊎ List ℕ)
and_rest (inl response) rest = pure (inl response)
and_rest (inr p) rest = do r ← rest; pure (with_job p r)

-- `format` is `time.Format("20060102150405")` of the time in hand.
module _ (site : Site) (format : ℕ → String) where
  -- One round of the loop over the files: the pointer to the new job, or the response.
  unfoldable pub file_made : Error ⊎ ℕ → M Server (Response ⊎ ℕ)
  file_made (inl e) = pure (inl (sends_error 500 "ERR_INTERNAL_ERROR"))
  file_made (inr p) = do enqueue p; pure (inr p)

  unfoldable pub file_valid : String → ℕ → Option ValidationError → M Server (Response ⊎ ℕ)
  file_valid path chunk (some e) = pure (inl (sends_error 400 "ERR_INVALID_VIDEO"))
  file_valid path chunk none = do r ← try (make_job site path chunk); file_made r

  unfoldable pub queue_file : String → ℕ → M Server (Response ⊎ ℕ)
  queue_file path chunk = do e ← validate site path; file_valid path chunk e

  -- The loop ends at the first response.
  unfoldable pub queue_files : List String → ℕ → M Server (Response ⊎ List ℕ)
  queue_files [] chunk = pure (inr [])
  queue_files (path ∷ paths) chunk = do
    r ← queue_file path chunk
    and_rest r (queue_files paths chunk)

  unfoldable pub batch_made : Error ⊎ Batch → M Server Response
  batch_made (inl e) = pure (sends_error 500 "ERR_INTERNAL_ERROR")
  batch_made (inr b) = do jobs ← load_all b.jobs; pure (sends (batch_created b.id jobs b.status))

  unfoldable pub files_queued : String → Response ⊎ List ℕ → M Server Response
  files_queued id (inl response) = pure response
  files_queued id (inr ps) = do
    now ← clock site
    r ← try (on_batches (create_batch id ps now))
    batch_made r

  -- "Generate batch ID if not provided"
  unfoldable pub batch_id_of : String → M Server String
  batch_id_of given =
      if str_eq given ""
      then (do now ← clock site; pure (str_append "batch_" (format now)))
      else pure given

  unfoldable pub batch_of_files : BatchRequest → List String → M Server Response
  batch_of_files req [] = pure (sends_error 400 "ERR_MISSING_FIELD")
  batch_of_files req (path ∷ paths) = do
    id ← batch_id_of req.batch_id
    r ← queue_files (path ∷ paths) req.chunk_duration
    files_queued id r

  -- CreateBatchJob
  unfoldable pub handle_create_batch : Option BatchRequest → M Server Response
  handle_create_batch none = pure (sends_error 400 "ERR_INVALID_REQUEST")
  handle_create_batch (some req) = batch_of_files req req.files

  unfoldable pub batch_status : String → Error ⊎ Batch → M Server Response
  batch_status id (inl e) = pure not_found
  batch_status id (inr b) = do
    now ← clock site
    ignore (on_batches (update_batch_status id now))
    stats ← try (on_batches (get_batch_stats id))
    b ← reads (current_batch b)
    jobs ← load_all b.jobs
    pure (sends (batch_found b.id b.status b.completed_at (kept stats) jobs))

  -- GetBatchStatus
  unfoldable pub handle_batch_status : String → M Server Response
  handle_batch_status id = do r ← try (on_batches (get_batch id)); batch_status id r
