-- ===== src/Transcode/Store.antt =====
-- internal/application/services/state_service.go: job states on disk, each replaced by writing a
-- temporary file and renaming it. The marshalling of a state to JSON cannot fail.
use video_encoder_service.Prelude.{
  ℕ, String, true, ◌&&◌, List, [], ◌∷◌, ◌++◌, Option, none, some, str_append, str_eq, if◌then◌else◌,
}
use video_encoder_service.Prelude.Dict
use video_encoder_service.Prelude.Dict.{Dict}
use video_encoder_service.Types.Error.{
  reads, Error, message, new_error, M, ◌>>=◌, ◌>>◌, pure, fail, wrapping,
}
use video_encoder_service.Types.State.{
  JobState, step_text, validation, update_heartbeat, is_orphaned,
}
use video_encoder_service.Transcode.World.{
  StateFile, whole, torn, Disk, World, Env, ask, change_state, set_disk, time, external,
}

abbrev pub put_state : String → StateFile → Disk → Disk
put_state id f d = record d { states = Dict.insert id f d.states }

abbrev pub put_temp : String → StateFile → Disk → Disk
put_temp id f d = record d { temps = Dict.insert id f d.temps }

-- os.Rename of the temporary file: it replaces the state file in one step.
unfoldable pub rename_file : String → Option StateFile → Disk → Disk
rename_file id none d = d
rename_file id (some f) d = record d {
  states = Dict.insert id f d.states;
  temps = Dict.delete id d.temps;
}

unfoldable pub rename_temp : String → Disk → Disk
rename_temp id d = rename_file id (Dict.lookup id d.temps) d

-- A write that fails leaves a torn file.
unfoldable pub write_outcome : String → JobState → Option String → M World (Unit {0})
write_outcome id state none = set_disk (put_temp id (whole state))
write_outcome id state (some text) = do set_disk (put_temp id torn); fail (message text)

unfoldable pub rename_outcome : String → Option String → M World (Unit {0})
rename_outcome id none = set_disk (rename_temp id)
rename_outcome id (some text) = fail (message text)

abbrev pub touch : ℕ → JobState → JobState
touch now state = record state { updated_at = now }

unfoldable pub missing_state : String → Error
missing_state id = message (str_append "state file not found for job " id)

-- `json.Unmarshal`
unfoldable pub parse_file : StateFile → M World JobState
parse_file (whole state) = pure state
parse_file torn = fail (new_error "failed to unmarshal state: unexpected end of JSON input")

unfoldable pub read_file : Option String → StateFile → M World JobState
read_file none f = parse_file f
read_file (some text) f = fail (message (str_append "failed to read state file: " text))

module _ (env : Env) where
  unfoldable pub write_temp : JobState → M World (Unit {0})
  write_temp state = do r ← ask env.run; write_outcome state.job_id state r

  unfoldable pub rename : String → M World (Unit {0})
  rename id = do r ← ask env.run; rename_outcome id r

  -- The part of SaveState behind `state.UpdatedAt = time.Now()`.
  unfoldable pub write_files : JobState → M World (Unit {0})
  write_files state = do
    wrapping "failed to create state directory: " (external env)
    wrapping "failed to write temp state file: " (write_temp state)
    wrapping "failed to rename state file: " (rename state.job_id)

  -- SaveState of a state that has just been read or made; what it returns is that state.
  unfoldable pub save : JobState → M World JobState
  save state = do now ← time env; write_files (touch now state); pure (touch now state)

  -- SaveState of the state in hand.
  unfoldable pub save_state : M World (Unit {0})
  save_state = do
    now ← time env
    change_state (touch now)
    s ← reads (λ w. w.current)
    write_files s

  unfoldable pub load_file : String → Option StateFile → M World JobState
  load_file id none = fail (missing_state id)
  load_file id (some f) = do r ← ask env.run; read_file r f

  unfoldable pub load_state : String → M World JobState
  load_state id = do f ← reads (λ w. Dict.lookup id w.disk.states); load_file id f

  unfoldable pub create_state : String → String → ℕ → M World JobState
  create_state id input_path chunk_duration = do
    now ← time env
    wrapping "failed to save initial state: " (
        save (record {
          job_id = id;
          status = "processing";
          current_step = step_text validation;
          steps_completed = [];
          qualities_complete = [];
          qualities_failed = [];
          chunks_completed = 0;
          total_chunks = 0;
          last_heartbeat = now;
          created_at = now;
          updated_at = now;
          resume_supported = true;
          input_path = input_path;
          chunk_duration = chunk_duration;
        }))

  unfoldable pub update_state : String → (JobState → JobState) → M World (Unit {0})
  update_state id f = do s ← load_state id; saved ← save (f s); pure tt

  unfoldable pub heartbeat : String → M World (Unit {0})
  heartbeat id = do now ← time env; update_state id (update_heartbeat now)

  unfoldable pub remove_state : String → M World (Unit {0})
  remove_state id = do external env; set_disk λ d. record d { states = Dict.delete id d.states }

  -- DeleteState
  unfoldable pub delete_state : String → M World (Unit {0})
  delete_state id = do
    there ← reads (λ w. Dict.contains id w.disk.states)
    if there then remove_state id else pure tt

abbrev pub orphan : Option String → ℕ → StateFile → List JobState
orphan none now (whole s) = if str_eq s.status "processing" && is_orphaned now s then s ∷ [] else []
orphan _ now _ = []

module _ (env : Env) where
  -- The loop of FindOrphanedJobs; a file that cannot be read or parsed is passed over.
  unfoldable pub scan : Dict StateFile → M World (List JobState)
  scan [] = pure []
  scan ((id, f) ∷ files) = do
    r ← ask env.run
    now ← time env
    rest ← scan files
    pure (orphan r now f ++ rest)

  unfoldable pub find_orphaned_jobs : M World (List JobState)
  find_orphaned_jobs = do
    wrapping "failed to read outputs directory: " (external env)
    files ← reads (λ w. w.disk.states)
    scan files
