-- ===== src/Transcode/Framed.antt =====
-- Predicates on the world that only calls of the JobService can break.
use video_encoder_service.Prelude.{ℕ, suc, String, ◌∷◌, Option, none, some}
use video_encoder_service.Types.Error.{Error}
use video_encoder_service.Types.State.{JobState}
use video_encoder_service.Transcode.World.{
  World, Disk, Env, Event, starts, ask, log_event, change_state, set_disk, time, external,
  answer_of, or_fail, StateFile, whole, torn,
}
use video_encoder_service.Transcode.Store.{
  write_outcome, rename_outcome, write_temp, rename, write_files, save, save_state, read_file,
  parse_file, load_file, load_state, create_state,
}
use video_encoder_service.Transcode.Keeps.{Keeps, Keeps-pure, Keeps-fail, Keeps-bind, keeps_rules}

abbrev pub IsQuiet : Event → Type 0
IsQuiet (starts id) = ⊥
IsQuiet _ = Unit

pub record Framed (P : World → Type 0) : Type 0 where
  pub ticks : (w : World) (n : ℕ) → P w → P (record w { tick = n })
  pub states : (w : World) (s : JobState) → P w → P (record w { current = s })
  pub disks : (w : World) (d : Disk) → P w → P (record w { disk = d })
  pub logs : (w : World) (e : Event) → IsQuiet e → P w → P (record w { log = e ∷ w.log })

module _ {P : World → Type 0} (fr : Framed P) where
  pub Keeps-ask : {A : Type 0} (f : ℕ → A) → Keeps P (ask f)
  unfolding ask
  Keeps-ask f = record { at = λ w s. (fr.ticks w (suc w.tick) s, tt) }

  pub Keeps-log : (e : Event) → IsQuiet e → Keeps P (log_event e)
  unfolding log_event
  Keeps-log e h = record { at = λ w s. (fr.logs w e h s, tt) }

  pub Keeps-state : (f : JobState → JobState) → Keeps P (change_state f)
  unfolding change_state
  Keeps-state f = record { at = λ w s. (fr.states w (f w.current) s, tt) }

  pub Keeps-disk : (f : Disk → Disk) → Keeps P (set_disk f)
  unfolding set_disk
  Keeps-disk f = record { at = λ w s. (fr.disks w (f w.disk) s, tt) }

  pub Keeps-time : (env : Env) → Keeps P (time env)
  unfolding time
  Keeps-time env = Keeps-ask env.now

module _ {P : World → Type 0} where
  pub Keeps-answer : (o : Option String) → Keeps P (answer_of o)
  unfolding answer_of
  Keeps-answer none = Keeps-pure tt
  Keeps-answer (some text) = Keeps-fail _

  pub Keeps-external : (fr : Framed P) (env : Env) → Keeps P (external env)
  unfolding external
  Keeps-external fr env = Keeps-bind _ _ (Keeps-ask fr env.run) Keeps-answer

  pub Keeps-or_fail : {A : Type 0} (e : Error) (o : Option A) → Keeps P (or_fail e o)
  unfolding or_fail
  Keeps-or_fail e none = Keeps-fail e
  Keeps-or_fail e (some a) = Keeps-pure a

pub ruleset frame_rules = (
  Keeps-ask, Keeps-log, Keeps-state, Keeps-disk, Keeps-time, Keeps-answer, Keeps-external,
  Keeps-or_fail,
)

module _ {P : World → Type 0} (fr : Framed P) (env : Env) where
  Keeps-write_outcome :
      (j : String) (s : JobState) (o : Option String) → Keeps P (write_outcome j s o)
  unfolding write_outcome
  Keeps-write_outcome j s none = search (keeps_rules, frame_rules) depth 20
  Keeps-write_outcome j s (some text) = search (keeps_rules, frame_rules) depth 20

  Keeps-rename_outcome : (j : String) (o : Option String) → Keeps P (rename_outcome j o)
  unfolding rename_outcome
  Keeps-rename_outcome j none = search (keeps_rules, frame_rules) depth 20
  Keeps-rename_outcome j (some text) = search (keeps_rules, frame_rules) depth 20

  Keeps-write_files : (s : JobState) → Keeps P (write_files env s)
  unfolding write_files write_temp rename
  Keeps-write_files s =
      search (keeps_rules, frame_rules, Keeps-write_outcome, Keeps-rename_outcome) depth 20

  pub Keeps-save_state : Keeps P (save_state env)
  unfolding save_state
  Keeps-save_state = search (keeps_rules, frame_rules, Keeps-write_files) depth 20

  Keeps-read_file : (o : Option String) (f : StateFile) → Keeps P (read_file o f)
  unfolding read_file parse_file
  Keeps-read_file none (whole s) = search (keeps_rules) depth 20
  Keeps-read_file none torn = search (keeps_rules) depth 20
  Keeps-read_file (some text) f = search (keeps_rules) depth 20

  Keeps-load_file : (j : String) (o : Option StateFile) → Keeps P (load_file env j o)
  unfolding load_file
  Keeps-load_file j none = search (keeps_rules) depth 20
  Keeps-load_file j (some f) = search (keeps_rules, frame_rules, Keeps-read_file) depth 20

  pub Keeps-load_state : (j : String) → Keeps P (load_state env j)
  unfolding load_state
  Keeps-load_state j = search (keeps_rules, frame_rules, Keeps-load_file) depth 20

  pub Keeps-create_state : (j path : String) (n : ℕ) → Keeps P (create_state env j path n)
  unfolding create_state save
  Keeps-create_state j path n = search (keeps_rules, frame_rules, Keeps-write_files) depth 20
