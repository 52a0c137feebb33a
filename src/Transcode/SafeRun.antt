-- ===== src/Transcode/SafeRun.antt =====
-- The calls of the use case one by one: the steps of an attempt, and what Execute does around the
-- attempts.
use video_encoder_service.Prelude.{
  ◌⊎◌, inl, inr, String, Bool, true, false, List, [], ◌∷◌, Option, none, some,
}
use video_encoder_service.Types.Error.{Error, partial_success, message}
use video_encoder_service.Types.Job.{Job}
use video_encoder_service.Types.State.{JobState}
use video_encoder_service.Types.Encoding.{VideoInfo}
use video_encoder_service.Transcode.World.{Env, Event}
use video_encoder_service.Transcode.Limits.{Settings}
use video_encoder_service.Transcode.Qualities.{Encoded}
use video_encoder_service.Transcode.Steps.{
  hash_or_fail, step_hash_computation, check_duplicate, duplicate_found, no_duplicate, look_up,
  step_deduplication, step_analysis, mark_failures, note_failures, with_error, encode_combined,
  step_encoding,
}
use video_encoder_service.Transcode.Finish.{
  note_partial, clean_up, final_status, set_final_status, store_hash, cache_store,
  step_finalization, unless, reload_info, after_deduplication, execute_steps,
}
use video_encoder_service.Transcode.Execute.{load_or_create, get_or_create_state}
use video_encoder_service.Transcode.Framed.{
  IsQuiet, Keeps-save_state, Keeps-load_state, Keeps-create_state,
}
use video_encoder_service.Transcode.Keeps.{Keeps, Keeps-bind, keeps_rules}
use video_encoder_service.Transcode.Safe.{Safe, safe_rules}
use video_encoder_service.Transcode.SafeSteps.{
  Keeps-check_job_disk_limit, Keeps-encode_with_resume, Keeps-encode_separate_av,
}

module _ (Q : List Event → Type 0)
    (quiet : (e : Event) (l : List Event) → IsQuiet e → Q l → Q (e ∷ l)) (env : Env) (u : Settings)
    (base : String → String) (job : Job) where
  pub Keeps-step_hash : Keeps (Safe job.id Q) (step_hash_computation env u job)
  unfolding step_hash_computation hash_or_fail
  Keeps-step_hash = search (keeps_rules, safe_rules, Keeps-save_state) depth 20

  pub Keeps-check_duplicate :
      (o : Option String) → Keeps (Safe job.id Q) (check_duplicate env u job o)
  unfolding check_duplicate duplicate_found no_duplicate
  Keeps-check_duplicate none = search (keeps_rules, safe_rules, Keeps-save_state) depth 20
  Keeps-check_duplicate (some existing) =
      search (keeps_rules, safe_rules, Keeps-save_state) depth 20

  pub Keeps-step_deduplication : Keeps (Safe job.id Q) (step_deduplication env u job)
  unfolding step_deduplication look_up
  Keeps-step_deduplication = search (keeps_rules, safe_rules, Keeps-check_duplicate) depth 20

  pub Keeps-step_analysis : Keeps (Safe job.id Q) (step_analysis env u job)
  unfolding step_analysis
  Keeps-step_analysis = search (keeps_rules, safe_rules, Keeps-save_state) depth 20

  Keeps-mark_failures : (qs : List String) → Keeps (Safe job.id Q) (mark_failures env u qs)
  unfolding mark_failures
  Keeps-mark_failures [] = search (keeps_rules)
  Keeps-mark_failures (q ∷ qs) =
      Keeps-bind _ _ (search (keeps_rules, safe_rules) depth 20) λ _. Keeps-mark_failures qs

  Keeps-note_failures : (o : Option Error) → Keeps (Safe job.id Q) (note_failures env u o)
  unfolding note_failures
  Keeps-note_failures none = search (keeps_rules)
  Keeps-note_failures (some (message text)) = search (keeps_rules)
  Keeps-note_failures (some (partial_success failed n total)) =
      search (keeps_rules, safe_rules, Keeps-mark_failures, Keeps-save_state) depth 20

  Keeps-with_error :
      (enc : Encoded) (o : Option Error) → Keeps (Safe job.id Q) (with_error env u enc o)
  unfolding with_error
  Keeps-with_error enc none = search (keeps_rules)
  Keeps-with_error enc (some e) = search (keeps_rules)

  pub Keeps-step_encoding :
      (info : VideoInfo) → Keeps (Safe job.id Q) (step_encoding env u job info)
  unfolding step_encoding encode_combined
  Keeps-step_encoding info =
      search
        (
          keeps_rules, safe_rules, Keeps-save_state, Keeps-check_job_disk_limit,
          Keeps-encode_with_resume, Keeps-encode_separate_av, Keeps-note_failures, Keeps-with_error,
        )
        depth 20

  pub Keeps-note_partial :
      (b : Bool) (qs : List String) → Keeps (Safe job.id Q) (note_partial env u job.id b qs)
  unfolding note_partial
  Keeps-note_partial false qs = search (keeps_rules)
  Keeps-note_partial true qs = search (keeps_rules, safe_rules) depth 20

  pub Keeps-clean_up : (b : Bool) → Keeps (Safe job.id Q) (clean_up env u b)
  unfolding clean_up
  Keeps-clean_up true = search (keeps_rules)
  Keeps-clean_up false = search (keeps_rules, safe_rules, Keeps-save_state) depth 20

  Keeps-set_final_status : (b : Bool) → Keeps (Safe job.id Q) (set_final_status env u job.id b)
  unfolding set_final_status final_status
  Keeps-set_final_status true = search (keeps_rules, safe_rules) depth 20
  Keeps-set_final_status false = search (keeps_rules, safe_rules) depth 20

  Keeps-cache_store : (hash id : String) → Keeps (Safe job.id Q) (cache_store hash id)
  unfolding cache_store
  Keeps-cache_store hash id = record {
    at = λ w s. (record { valid = s.valid; held = s.held; logged = s.logged }, tt);
  }

  pub Keeps-store_hash : (hash id : String) → Keeps (Safe job.id Q) (store_hash env u hash id)
  unfolding store_hash
  Keeps-store_hash hash id = search (keeps_rules, safe_rules, Keeps-cache_store) depth 20

  pub Keeps-step_finalization :
      (enc : Encoded) (info : VideoInfo)
      → Keeps (Safe job.id Q) (step_finalization env u base job enc info)
  unfolding step_finalization
  Keeps-step_finalization enc info =
      search
        (
          keeps_rules, safe_rules, Keeps-save_state, Keeps-note_partial, Keeps-clean_up,
          Keeps-set_final_status, Keeps-store_hash,
        )
        depth 30

  Keeps-After : (b : Bool) → Keeps (Safe job.id Q) (after_deduplication env u base job b)
  unfolding after_deduplication unless reload_info
  Keeps-After true = search (keeps_rules)
  Keeps-After false =
      search
        (keeps_rules, safe_rules, Keeps-step_analysis, Keeps-step_encoding, Keeps-step_finalization)
        depth 20

  pub Keeps-execute_steps : Keeps (Safe job.id Q) (execute_steps env u base job)
  unfolding execute_steps unless
  Keeps-execute_steps =
      search (keeps_rules, Keeps-step_hash, Keeps-step_deduplication, Keeps-After) depth 20

  Keeps-load_or_create : (r : Error ⊎ JobState) → Keeps (Safe job.id Q) (load_or_create env job r)
  unfolding load_or_create
  Keeps-load_or_create (inr s) = search (keeps_rules)
  Keeps-load_or_create (inl e) = search (safe_rules, Keeps-create_state) depth 9

  pub Keeps-get_or_create_state : Keeps (Safe job.id Q) (get_or_create_state env job)
  unfolding get_or_create_state
  Keeps-get_or_create_state =
      search (keeps_rules, safe_rules, Keeps-load_state, Keeps-load_or_create) depth 9
