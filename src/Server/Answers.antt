-- ===== src/Server/Answers.antt =====
-- The handlers on single jobs answer every request, and keep the invariant of the service.
use video_encoder_service.Prelude.{◌⊎◌, inl, inr, ℕ, String, Option, none, some, ◌≡◌, refl, All}
use video_encoder_service.Types.Error.{Error}
use video_encoder_service.Types.Job.{Job, queued}
use video_encoder_service.Types.Triple.{
  Ensures, Ensures-reads, Ensures-bind, Ensures-if, Ensures-weaken, Ensures-ignore,
}
use video_encoder_service.Jobs.Repository.{Jobs}
use video_encoder_service.Jobs.Service.{set_status, update_status, list_jobs}
use video_encoder_service.Jobs.Valid.{Holds}
use video_encoder_service.Transcode.Keeps.{Keeps, keeps_rules}
use video_encoder_service.Transcode.Framed.{frame_rules}
use video_encoder_service.Transcode.Limits.{delete_job_files}
use video_encoder_service.Validator.Check.{ValidationError}
use video_encoder_service.Server.State.{Site, on_service}
use video_encoder_service.Server.Handlers.{
  TranscodeRequest, create_made, create_valid, create_decoded, handle_create, get_found, handle_get,
  handle_list, removed, files_removed, delete_found, handle_delete, requeue, resume_loaded,
  resume_found, handle_resume, handle_health, schedule_made, schedule_valid, schedule_timed,
  handle_schedule,
}
use video_encoder_service.Server.Sound.{
  Heap, IsPointer, Stable-none, Stable-Holds, Stable-pointers, Stable-both, Knows, Calls-delete,
  Calls-list, Calls-edit, Calls-change, Ensures-service, Ensures-total,
}
use video_encoder_service.Server.Rules.{
  jobs-Framed, Ensures-world, Ensures-ask, Ensures-clock, Ensures-enqueue, Ensures-load,
  Ensures-forget, Ensures-load_all, Ensures-schedule_job,
}
use video_encoder_service.Server.Serves.{
  Nothing, Serves, Serves-pure, Outcome, Ensures-attempt, Ensures-get, Stable-IsPointer,
  set_status-id, Ensures-validate, Ensures-made,
}

module _ (site : Site) where
  Serves-create_made :
      (r : Error ⊎ ℕ) → Serves (Outcome (λ p h. IsPointer h p) r) (create_made site r)
  unfolding create_made
  Serves-create_made (inl e) = Serves-pure _
  Serves-create_made (inr p) =
      Ensures-bind _ _ _ (Ensures-enqueue p (λ h x. x)) λ _.
        Ensures-bind _ _ _ (Ensures-load p (Stable-IsPointer p) (λ h x. x)) λ job. Serves-pure _

  Serves-create_valid :
      (req : TranscodeRequest) (o : Option ValidationError)
      → Serves Nothing (create_valid site req o)
  unfolding create_valid
  Serves-create_valid req none =
      Ensures-bind _ _ _ (Ensures-made site req.input_path req.chunk_duration) Serves-create_made
  Serves-create_valid req (some e) = Serves-pure _

  Serves-create_decoded :
      (body : Option TranscodeRequest) → Serves Nothing (create_decoded site body)
  unfolding create_decoded
  Serves-create_decoded none = Serves-pure _
  Serves-create_decoded (some req) =
      Ensures-if _ _ _ (Serves-pure _)
        (Ensures-bind _ _ _ (Ensures-validate site req.input_path) λ o. Serves-create_valid req o)

  pub Serves-create : (body : Option TranscodeRequest) → Serves Nothing (handle_create site body)
  unfolding handle_create
  Serves-create body =
      Ensures-bind _ _ _ (Ensures-ask _)
        λ usage. Ensures-if _ _ _ (Serves-create_decoded body) (Serves-pure _)

  pub Serves-requeue :
      (id : String) (p : ℕ)
      → Ensures
          (λ _. ⊥)
          (Knows (λ h. Holds h id p))
          (λ _. Knows (λ h. Holds h id p))
          (requeue site id p)
  unfolding requeue update_status
  Serves-requeue id p = Ensures-bind _ _ _ (Ensures-clock site) λ now.
      Ensures-bind _ _ _
        (Ensures-ignore _ (
          Ensures-weaken _
            (Ensures-service _ (Stable-Holds id p)
              (Calls-edit id (set_status queued now) (λ job. set_status-id queued now job)))
            (λ s k. k) (λ s k. k) (λ a s k. record { sound = k.sound; known = k.known.0 })))
        λ _. Ensures-enqueue p (λ h held. (id, held))

  Serves-resume_loaded :
      (id : String) (p : ℕ) (job : Job)
      → Serves (λ h. Holds h id p × Holds h job.id p) (resume_loaded site id p job)
  unfolding resume_loaded
  Serves-resume_loaded id p job =
      Ensures-if _ _ _
        (Ensures-bind _ _ _ (Ensures-forget _ (λ h x. x.0) (Serves-requeue id p))
          λ _. Serves-pure _)
        (Serves-pure _)

  Serves-resume_found :
      (id : String) (r : Error ⊎ ℕ)
      → Serves (Outcome (λ p h. Holds h id p) r) (resume_found site id r)
  unfolding resume_found
  Serves-resume_found id (inl e) = Serves-pure _
  Serves-resume_found id (inr p) =
      Ensures-bind _ _ _ (Ensures-load p (Stable-Holds id p) (λ h held. (id, held)))
        λ job. Serves-resume_loaded id p job

  pub Serves-resume : (id : String) → Serves Nothing (handle_resume site id)
  unfolding handle_resume
  Serves-resume id =
      Ensures-bind _ _ _ (Ensures-attempt _ _ (Ensures-get id)) (Serves-resume_found id)

  Serves-schedule_made :
      (at : ℕ) (r : Error ⊎ ℕ) → Serves (Outcome (λ p h. IsPointer h p) r) (schedule_made site at r)
  unfolding schedule_made
  Serves-schedule_made at (inl e) = Serves-pure _
  Serves-schedule_made at (inr p) =
      let st = Stable-both (Stable-IsPointer p) Stable-none in
      Ensures-bind _ _ _
        (Ensures-total _ (Stable-IsPointer p) (Calls-change p _ (λ job. refl) (λ h x. x)))
        λ _.
          Ensures-bind _ _ _ (Ensures-schedule_job site p at st (λ h x. x.0))
            λ _. Ensures-bind _ _ _ (Ensures-load p st (λ h x. x.0)) λ job. Serves-pure _

  Serves-schedule_valid :
      (req : TranscodeRequest) (at : ℕ) (o : Option ValidationError)
      → Serves Nothing (schedule_valid site req at o)
  unfolding schedule_valid
  Serves-schedule_valid req at none =
      Ensures-bind _ _ _ (Ensures-made site req.input_path req.chunk_duration)
        (Serves-schedule_made at)
  Serves-schedule_valid req at (some e) = Serves-pure _

  Serves-schedule_timed :
      (req : TranscodeRequest) (o : Option ℕ) → Serves Nothing (schedule_timed site req o)
  unfolding schedule_timed
  Serves-schedule_timed req none = Serves-pure _
  Serves-schedule_timed req (some at) =
      Ensures-bind _ _ _ (Ensures-validate site req.input_path) λ o. Serves-schedule_valid req at o

  pub Serves-schedule :
      (body : Option TranscodeRequest) → Serves Nothing (handle_schedule site body)
  unfolding handle_schedule
  Serves-schedule none = Serves-pure _
  Serves-schedule (some req) =
      Ensures-if _ _ _ (Serves-pure _) (Serves-schedule_timed req req.scheduled_at)

  pub Keeps-files :
      (id : String) (j : Jobs)
      → Keeps (λ w. w.jobs ≡ j) (delete_job_files site.env site.settings id)
  unfolding delete_job_files
  Keeps-files id j = search (keeps_rules, frame_rules, jobs-Framed) depth 20

  Serves-removed :
      (id : String) (r : Error ⊎ Unit {0}) → {F : Heap → Type 0} → Serves F (removed id r)
  unfolding removed
  Serves-removed id (inl e) = Serves-pure _
  Serves-removed id (inr t) = Serves-pure _

  Serves-files_removed : (id : String) (r : Error ⊎ Unit {0}) → Serves Nothing (files_removed id r)
  unfolding files_removed
  Serves-files_removed id (inl e) = Serves-pure _
  Serves-files_removed id (inr t) =
      Ensures-bind _ _ _
        (Ensures-attempt (λ _. Nothing) _
          (Ensures-weaken _ (Ensures-service _ Stable-none (Calls-delete id)) (λ s k. k) (λ s k. k)
            (λ a s k. record { sound = k.sound; known = tt })))
        λ r. Serves-removed id r

  Serves-delete_found : (id : String) (r : Error ⊎ ℕ) → Serves Nothing (delete_found site id r)
  unfolding delete_found
  Serves-delete_found id (inl e) = Serves-pure _
  Serves-delete_found id (inr p) =
      Ensures-bind _ _ _ (Ensures-attempt (λ _. Nothing) _ (Ensures-world _ (Keeps-files id)))
        λ r. Ensures-forget _ (λ h x. tt) (Serves-files_removed id r)

  pub Serves-delete : (id : String) → Serves Nothing (handle_delete site id)
  unfolding handle_delete
  Serves-delete id =
      Ensures-bind _ _ _ (Ensures-attempt _ _ (Ensures-get id))
        λ r. Ensures-forget _ (λ h x. tt) (Serves-delete_found id r)

Serves-get_found :
    (id : String) (r : Error ⊎ ℕ) → Serves (Outcome (λ p h. Holds h id p) r) (get_found r)
unfolding get_found
Serves-get_found id (inl e) = Serves-pure _
Serves-get_found id (inr p) =
    Ensures-bind _ _ _ (Ensures-load p (Stable-Holds id p) (λ h held. (id, held)))
      λ job. Serves-pure _

pub Serves-get : (id : String) → Serves Nothing (handle_get id)
unfolding handle_get
Serves-get id = Ensures-bind _ _ _ (Ensures-attempt _ _ (Ensures-get id)) (Serves-get_found id)

Ensures-list_jobs :
    Ensures
      (λ _. ⊥)
      (Knows Nothing)
      (λ ps. Knows (λ h. Unit × All (IsPointer h) ps))
      (on_service list_jobs)
Ensures-list_jobs = Ensures-total _ Stable-none Calls-list

pub Serves-list : Serves Nothing handle_list
unfolding handle_list
Serves-list = Ensures-bind _ _ _ Ensures-list_jobs λ ps.
    Ensures-bind _ _ _
      (Ensures-load_all ps (Stable-both Stable-none (Stable-pointers ps)) (λ h x. x.1))
      λ jobs. Serves-pure _

pub Serves-health : Serves Nothing handle_health
unfolding handle_health
Serves-health = Ensures-bind _ _ _ Ensures-list_jobs λ ps.
    Ensures-bind _ _ _
      (Ensures-load_all ps (Stable-both Stable-none (Stable-pointers ps)) (λ h x. x.1))
      λ jobs.
        Ensures-bind (λ _. Knows Nothing) _ _
          (Ensures-reads _ (λ s k. record { sound = k.sound; known = tt }))
          λ active.
            Ensures-bind (λ _. Knows Nothing) _ _ (Ensures-reads _ (λ s k. k)) λ size. Serves-pure _
