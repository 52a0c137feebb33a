-- ===== src/DeadLetters/Tests.antt =====
-- A cleanup of the dead letter queue with one entry of today.
use video_encoder_service.Prelude.{
  ◌≡◌, refl, [], ◌∷◌, some, str_eq, Bool-cases, inl, inr, str_eq_iff, ap, sym, ◌∙◌,
}
use video_encoder_service.Prelude.Dict
use mathlib.Core.Option.{some-injective}
use video_encoder_service.Types.Triple.{Post}
use video_encoder_service.Transcode.World.{World, DlqEntry}
use video_encoder_service.Transcode.Execute.{new_entry}
use video_encoder_service.Samples.{env, job, world}
use video_encoder_service.DeadLetters.Service.{cleanup_old_dlq_entries}
use video_encoder_service.DeadLetters.Fresh.{IsFiled, Remains, cleanup-Remains}

abbrev entry : DlqEntry
entry = new_entry "Max retries exceeded" 12 job

abbrev filed_world : World
filed_world = record world { dlq = (entry.job_id, entry) ∷ [] }

filed : IsFiled filed_world
unfolding Dict.lookup
filed = record {
  is_map = (refl, tt);
  filed = λ id e h. elim (Bool-cases (str_eq entry.job_id id)) [
    | inl same ↦
        ap (λ x. x.job_id) (sym (some-injective _ _ (rw same at h)))
        ∙ (str_eq_iff entry.job_id id).0 same
    | inr other ↦ let gone = rw other at h in cc
  ];
}

held : Dict.lookup entry.job_id filed_world.dlq ≡ some entry
unfolding Dict.insert
held = Dict.lookup-insert_self entry.job_id entry []

cleanup-Remains_example :
    Post
      (λ _. ⊥)
      (λ _. Remains env entry.job_id entry 30)
      (cleanup_old_dlq_entries env 30 filed_world)
cleanup-Remains_example = cleanup-Remains env 30 filed_world entry.job_id entry filed held
