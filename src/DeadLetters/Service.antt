-- ===== src/DeadLetters/Service.antt =====
-- The calls of dlq_service.go on the entries that MoveToDLQ has written. Each is a file that is
-- whole.
use video_encoder_service.Prelude.{
  ℕ, ◌-◌, ◌*◌, String, List, [], ◌∷◌, Option, none, some, map, if◌then◌else◌, ltb, str_append,
}
use video_encoder_service.Prelude.Dict
use video_encoder_service.Types.Error.{
  Error, message, ok, M, ◌>>=◌, ◌>>◌, pure, fail, reads, wrapping, ignore,
}
use video_encoder_service.Transcode.World.{World, DlqEntry, Env, ask, external, time}

abbrev pub day : ℕ
day = 24 * (3600 * 1_000_000_000)

unfoldable pub no_entry : String → Error
no_entry id = message (str_append "DLQ entry not found for job " id)

unfoldable pub drop_entry : String → M World (Unit {0})
drop_entry id w = (ok tt, record w { dlq = Dict.delete id w.dlq })

-- A file that cannot be read is passed over.
abbrev pub if_read : {A : Type 0} → Option String → A → List A → List A
if_read none e es = e ∷ es
if_read (some text) e es = es

unfoldable pub read_result : DlqEntry → Option String → M World DlqEntry
read_result e none = pure e
read_result e (some text) = fail (message (str_append "failed to read DLQ entry: " text))

module _ (env : Env) where
  unfoldable pub read_entries : List DlqEntry → M World (List DlqEntry)
  read_entries [] = pure []
  read_entries (e ∷ es) = do r ← ask env.run; rest ← read_entries es; pure (if_read r e rest)

  -- ListDLQJobs; the pattern of its glob is well formed.
  unfoldable pub list_dlq_jobs : M World (List DlqEntry)
  list_dlq_jobs = do es ← reads (λ w. map (λ e. e.1) w.dlq); read_entries es

  unfoldable pub entry_found : String → Option DlqEntry → M World DlqEntry
  entry_found id none = fail (no_entry id)
  entry_found id (some e) = do r ← ask env.run; read_result e r

  unfoldable pub get_dlq_entry : String → M World DlqEntry
  get_dlq_entry id = do o ← reads (λ w. Dict.lookup id w.dlq); entry_found id o

  unfoldable pub remove_from_dlq : String → M World (Unit {0})
  remove_from_dlq id = do
    there ← reads (λ w. Dict.contains id w.dlq)
    if there
        then (do wrapping "failed to remove DLQ entry: " (external env); drop_entry id)
        else fail (no_entry id)

  -- The loop of CleanupOldDLQEntries, whose count is only logged.
  unfoldable pub clean_entries : ℕ → List DlqEntry → M World (Unit {0})
  clean_entries cutoff [] = pure tt
  clean_entries cutoff (e ∷ es) = do
    if ltb e.moved_at cutoff then ignore (remove_from_dlq e.job_id) else pure tt
    clean_entries cutoff es

  -- A day has 24 hours.
  unfoldable pub cleanup_old_dlq_entries : ℕ → M World (Unit {0})
  cleanup_old_dlq_entries days_old = do
    es ← list_dlq_jobs
    now ← time env
    clean_entries (now - days_old * day) es
