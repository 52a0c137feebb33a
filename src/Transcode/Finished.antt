-- ===== src/Transcode/Finished.antt =====
-- Where an attempt that succeeds leaves its job.
use video_encoder_service.Prelude.{ℕ, String, Bool, true, false, Option, none, some}
use video_encoder_service.Types.Error.{M, ◌>>=◌, ◌>>◌, pure, ignore}
use video_encoder_service.Types.Job.{Job, JobStatus, completed}
use video_encoder_service.Types.Job as JobTypes
use video_encoder_service.Types.State.{
  step_text, deduplication, hash_computation, finalization, mark_step_completed,
}
use video_encoder_service.Types.Encoding.{VideoInfo}
use video_encoder_service.Transcode.World.{World, Env}
use video_encoder_service.Transcode.Limits.{Settings}
use video_encoder_service.Transcode.Qualities.{Encoded, stamped}
use video_encoder_service.Transcode.Store.{save_state}
use video_encoder_service.Transcode.Steps.{
  step_hash_computation, check_duplicate, duplicate_found, no_duplicate, look_up,
  step_deduplication,
}
use video_encoder_service.Transcode.Finish.{
  final_status, set_final_status, store_hash, cache_store, step_finalization, unless, reload_info,
  after_deduplication, execute_steps,
}
use video_encoder_service.Transcode.Keeps.{Keeps, keeps_rules}
use video_encoder_service.Transcode.Framed.{frame_rules, Keeps-save_state}
use video_encoder_service.Transcode.Safe.{Safe, Framed-Holds, safe_rules}
use video_encoder_service.Transcode.SafeRun.{
  Keeps-step_hash, Keeps-step_analysis, Keeps-step_encoding, Keeps-note_partial, Keeps-clean_up,
}
use video_encoder_service.Transcode.Yields.{
  Yields, Yields-Keeps, Yields-pure, Yields-fail, Yields-bind, Yields-next, Yields-if,
}
use video_encoder_service.Transcode.Settled.{Ran, Ran-quiet, Done, IsDone, Yields-Done}

module _ (n : ℕ) (env : Env) (u : Settings) (base : String → String) (job : Job) where
  Keeps-cache_store : (hash id : String) → Keeps (Done job.id n) (cache_store hash id)
  unfolding cache_store
  Keeps-cache_store hash id = record {
    at = λ w s. (record { valid = s.valid; held = s.held; logged = s.logged }, tt);
  }

  Keeps-store_hash : (hash id : String) → Keeps (Done job.id n) (store_hash env u hash id)
  unfolding store_hash
  Keeps-store_hash hash id =
      search (keeps_rules, frame_rules, Framed-Holds, Ran-quiet, Keeps-cache_store) depth 20

  Yields-final_status :
      (status : JobStatus) (name note text : String)
      → IsDone status
      → Yields
          (Safe job.id (Ran n))
          (λ _. Done job.id n)
          (final_status env u job.id status name note text)
  unfolding final_status
  Yields-final_status status name note text d =
      Yields-next _ _ (search (keeps_rules, safe_rules, Ran-quiet) depth 9) λ _.
        Yields-next _ _ (search (keeps_rules, safe_rules, Ran-quiet) depth 9) λ now.
          Yields-bind (λ _. Done job.id n) _ _ (Yields-Done job.id n status now d)
            λ _.
              Yields-Keeps _ (search (keeps_rules, frame_rules, Framed-Holds, Ran-quiet) depth 20)

  Yields-set_final_status :
      (b : Bool)
      → Yields (Safe job.id (Ran n)) (λ _. Done job.id n) (set_final_status env u job.id b)
  unfolding set_final_status
  Yields-set_final_status true = Yields-final_status JobTypes.partial_success _ _ _ tt
  Yields-set_final_status false = Yields-final_status completed _ _ _ tt

  -- What follows the final status keeps it.
  then-Done :
      {A B : Type 0} (m : M World A) (f : A → M World B)
      → Yields (Safe job.id (Ran n)) (λ _. Done job.id n) m
      → ((a : A) → Keeps (Done job.id n) (f a))
      → Yields (Safe job.id (Ran n)) (λ _. Done job.id n) (m >>= f)
  then-Done m f ym kf = Yields-bind (λ _. Done job.id n) m f ym λ a. Yields-Keeps (f a) (kf a)

  Keeps-Done :
      (hash : String)
      → Keeps (Done job.id n) (do
        store_hash env u hash job.id
        stamped env (mark_step_completed (step_text finalization))
        ignore (save_state env))
  Keeps-Done hash =
      search (keeps_rules, frame_rules, Framed-Holds, Ran-quiet, Keeps-store_hash, Keeps-save_state)
        depth 20

  Yields-step_finalization :
      (enc : Encoded) (info : VideoInfo)
      → Yields
          (Safe job.id (Ran n))
          (λ _. Done job.id n)
          (step_finalization env u base job enc info)
  unfolding step_finalization
  Yields-step_finalization enc info =
      search
        (
          Yields-next, then-Done, Yields-set_final_status, Keeps-Done, keeps_rules, safe_rules,
          Ran-quiet, Keeps-note_partial, Keeps-clean_up,
        )
        depth 30

  abbrev After : Bool → World → Type 0
  After true = Done job.id n
  After false = Safe job.id (Ran n)

  Yields-check_duplicate :
      (o : Option String) → Yields (Safe job.id (Ran n)) After (check_duplicate env u job o)
  unfolding check_duplicate no_duplicate duplicate_found
  Yields-check_duplicate none =
      search (Yields-next, Yields-pure, keeps_rules, safe_rules, Ran-quiet, Keeps-save_state) depth
        20
  Yields-check_duplicate (some existing) =
      Yields-next _ _ (search (keeps_rules, safe_rules, Ran-quiet) depth 9) λ _.
        Yields-next _ _ (search (keeps_rules, safe_rules, Ran-quiet) depth 9) λ now.
          Yields-bind (λ _. Done job.id n) _ _ (Yields-Done job.id n completed now tt)
            λ _.
              Yields-next _ _ (search (keeps_rules, frame_rules, Framed-Holds, Ran-quiet) depth 20)
                λ _.
                  Yields-next _ _
                    (search (keeps_rules, frame_rules, Framed-Holds, Ran-quiet) depth 20)
                    λ _.
                      Yields-next _ _
                        (search
                          (keeps_rules, frame_rules, Framed-Holds, Ran-quiet, Keeps-save_state)
                          depth 20)
                        λ _. Yields-pure true λ w h. h

  Yields-step_deduplication : Yields (Safe job.id (Ran n)) After (step_deduplication env u job)
  unfolding step_deduplication look_up
  Yields-step_deduplication =
      search
        (
          Yields-next, Yields-if, Yields-fail, Yields-check_duplicate, keeps_rules, safe_rules,
          Ran-quiet,
        )
        depth 20

  Yields-After :
      (b : Bool) → Yields (After b) (λ _. Done job.id n) (after_deduplication env u base job b)
  unfolding after_deduplication unless reload_info
  Yields-After true = Yields-pure tt λ w h. h
  Yields-After false =
      search
        (
          Yields-next, Yields-step_finalization, keeps_rules, safe_rules, Ran-quiet,
          Keeps-step_analysis, Keeps-step_encoding,
        )
        depth 20

  Yields-look_up :
      Yields
        (Safe job.id (Ran n))
        After
        (unless env u (step_text deduplication) (pure false) (step_deduplication env u job))
  unfolding unless
  Yields-look_up =
      search (Yields-next, Yields-if, Yields-pure, Yields-step_deduplication, keeps_rules) depth 20

  Keeps-hash_step :
      Keeps
        (Safe job.id (Ran n))
        (unless env u (step_text hash_computation) (pure tt) (step_hash_computation env u job))
  unfolding unless
  Keeps-hash_step = search (keeps_rules, Ran-quiet, Keeps-step_hash) depth 9

  pub Yields-execute_steps :
      Yields (Safe job.id (Ran n)) (λ _. Done job.id n) (execute_steps env u base job)
  unfolding execute_steps
  Yields-execute_steps =
      Yields-next _ _ (Keeps-hash_step) λ _. Yields-bind After _ _ Yields-look_up Yields-After
