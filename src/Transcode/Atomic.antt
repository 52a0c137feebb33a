-- ===== src/Transcode/Atomic.antt =====
-- The files of internal/application/services/state_service.go under failures.
use video_encoder_service.Prelude.{
  suc, ◌≡◌, refl, String, some, str_eq, if◌then◌else◌, Option-cases, inl, inr,
}
use video_encoder_service.Prelude.Dict
use video_encoder_service.Types.Error.{Result, ok, err, panic, ◌>>=◌, pure, fail, wrapping}
use video_encoder_service.Types.State.{JobState}
use video_encoder_service.Transcode.World.{World, Env, whole, ask, external, answer_of, set_disk}
use video_encoder_service.Transcode.Store.{
  write_files, write_temp, write_outcome, rename, rename_outcome, rename_temp, rename_file,
}

-- Every state file is as it was, or it is that of the job, and whole.
abbrev pub Replaced : JobState → World → Result (Unit {0}) × World → Type 0
Replaced s w (ok t, w') =
    (j : String)
    → Dict.lookup j w'.disk.states
      ≡ (if str_eq s.job_id j then some (whole s) else Dict.lookup j w.disk.states)
Replaced s w (err e, w') = (j : String) → Dict.lookup j w'.disk.states ≡ Dict.lookup j w.disk.states
Replaced s w (panic, w') = ⊥

-- SaveState writes a state in one step, whichever of its calls fail: when it returns an error every
-- state file is as it was, and when it does not that of the job is the whole new state and the
-- others are as they were. It does not panic.
pub write_files-Replaced :
    (env : Env) (s : JobState) (w : World) → Replaced s w (write_files env s w)
unfolding write_files external ask answer_of wrapping ◌>>=◌ pure fail write_temp write_outcome
    set_disk rename rename_outcome rename_temp rename_file
write_files-Replaced env s w = elim (Option-cases (env.run w.tick)) [
  | inr (text, dir) ↦ rw dir (λ j. refl)
  | inl dir ↦ rw dir (elim (Option-cases (env.run (suc w.tick))) [
    | inr (text, temp) ↦ rw temp (λ j. refl)
    | inl temp ↦ rw temp (elim (Option-cases (env.run (suc (suc w.tick)))) [
      | inr (text, moved) ↦ rw moved (λ j. refl)
      | inl moved ↦ rw moved (
          rw (Dict.lookup-insert_self s.job_id (whole s) w.disk.temps)
            (λ j. Dict.lookup-insert s.job_id j (whole s) w.disk.states))
    ])
  ])
]
