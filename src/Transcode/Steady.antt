-- ===== src/Transcode/Steady.antt =====
-- Predicates on the world that no call of the operating system and no change of a file can break.
use video_encoder_service.Prelude.{ℕ, suc, String, Option, none, some}
use video_encoder_service.Types.State.{JobState}
use video_encoder_service.Transcode.World.{World, Disk, Env, ask, set_disk, time, external}
use video_encoder_service.Transcode.Store.{
  write_outcome, rename_outcome, write_temp, rename, write_files,
}
use video_encoder_service.Transcode.Limits.{
  Settings, SizeCheck, delete_job_files, check_job_size_limit, enforce_outcome,
  enforce_job_size_limit,
}
use video_encoder_service.Transcode.Keeps.{Keeps, Keeps-pure, Keeps-fail, Keeps-bind, keeps_rules}
use video_encoder_service.Transcode.Framed.{Keeps-answer, Keeps-or_fail}

pub record Steady (P : World → Type 0) : Type 0 where
  pub ticks : (w : World) (n : ℕ) → P w → P (record w { tick = n })
  pub disks : (w : World) (d : Disk) → P w → P (record w { disk = d })

module _ {P : World → Type 0} (st : Steady P) where
  pub steady_ask : {A : Type 0} (f : ℕ → A) → Keeps P (ask f)
  unfolding ask
  steady_ask f = record { at = λ w s. (st.ticks w (suc w.tick) s, tt) }

  pub steady_disk : (f : Disk → Disk) → Keeps P (set_disk f)
  unfolding set_disk
  steady_disk f = record { at = λ w s. (st.disks w (f w.disk) s, tt) }

  pub steady_time : (env : Env) → Keeps P (time env)
  unfolding time
  steady_time env = steady_ask env.now

  pub steady_external : (env : Env) → Keeps P (external env)
  unfolding external
  steady_external env = Keeps-bind _ _ (steady_ask env.run) Keeps-answer

pub ruleset steady_rules = (
  keeps_rules, steady_ask, steady_disk, steady_time, steady_external, Keeps-answer, Keeps-or_fail,
)

module _ {P : World → Type 0} (st : Steady P) (env : Env) (u : Settings) where
  steady_write_outcome :
      (j : String) (s : JobState) (o : Option String) → Keeps P (write_outcome j s o)
  unfolding write_outcome
  steady_write_outcome j s none = search (steady_rules) depth 20
  steady_write_outcome j s (some text) = search (steady_rules) depth 20

  steady_rename_outcome : (j : String) (o : Option String) → Keeps P (rename_outcome j o)
  unfolding rename_outcome
  steady_rename_outcome j none = search (steady_rules) depth 20
  steady_rename_outcome j (some text) = search (steady_rules) depth 20

  pub steady_write_files : (s : JobState) → Keeps P (write_files env s)
  unfolding write_files write_temp rename
  steady_write_files s = search (steady_rules, steady_write_outcome, steady_rename_outcome) depth 20

  steady_delete_job_files : (id : String) → Keeps P (delete_job_files env u id)
  unfolding delete_job_files
  steady_delete_job_files id = search (steady_rules) depth 20

  steady_enforce_outcome : (id : String) (c : SizeCheck) → Keeps P (enforce_outcome env u id c)
  unfolding enforce_outcome
  steady_enforce_outcome id c = search (steady_rules, steady_delete_job_files) depth 20

  pub steady_enforce : (id : String) → Keeps P (enforce_job_size_limit env u id)
  unfolding enforce_job_size_limit check_job_size_limit
  steady_enforce id = search (steady_rules, steady_enforce_outcome) depth 20
