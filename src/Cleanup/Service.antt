-- ===== src/Cleanup/Service.antt =====
-- AutoCleanup of disk_service.go, and what it calls. The logging is left out. Times are whole
-- nanoseconds, and the usage of the disk is in whole percent, rounded down, as it is only compared
-- with whole numbers. `time.Since` answers one time throughout a sort.
use video_encoder_service.Prelude.{
  ◌⊎◌, inl, inr, ℕ, ◌+◌, ◌-◌, ◌*◌, String, Bool, not, List, [], ◌∷◌, Option, none, some,
  if◌then◌else◌, ltb, leb, ◌==◌, one_of,
}
use video_encoder_service.Prelude.Dict
use video_encoder_service.Types.Error.{Error, new_error, M, ◌>>=◌, pure, try, reads}
use video_encoder_service.Transcode.World.{World, StateFile, whole, Env, ask, or_fail, time}
use video_encoder_service.Transcode.Limits.{Settings, delete_job_files}

pub record JobInfo : Type 0 where
  pub job_id : String
  pub mod_time : ℕ
  pub size : ℕ
  pub status : String

-- A directory under the outputs directory, of which os.ReadDir, Info and GetDirSize tell this much.
pub record Entry : Type 0 where
  pub name : String
  pub mod_time : ℕ
  pub size : ℕ

abbrev pub hour : ℕ
hour = 3600 * 1_000_000_000

abbrev pub day : ℕ
day = 24 * hour

-- The cases of the switch on the status.
unfoldable pub get_cleanup_priority : ℕ → Bool → JobInfo → ℕ
get_cleanup_priority now is_emergency job =
    let age = now - job.mod_time in
    if one_of job.status ("FAILED" ∷ "failed" ∷ [])
    then 100
    else if one_of job.status ("INTERRUPTED" ∷ "interrupted" ∷ [])
    then (if ltb day age then 90 else 50)
    else if one_of job.status ("COMPLETED" ∷ "completed" ∷ [])
    then (if is_emergency
        then (if ltb (3 * day) age then 80 else 40)
        else (if ltb (7 * day) age then 70 else 30))
    else if one_of job.status ("PARTIAL_SUCCESS" ∷ "partial_success" ∷ [])
    then (if ltb (7 * day) age then 60 else 25)
    else (if ltb (30 * day) age then 50 else 20)

-- The function that getJobsForCleanup sorts by: whether `a` is to go before `b`.
unfoldable pub goes_before : ℕ → Bool → JobInfo → JobInfo → Bool
goes_before now is_emergency a b =
    let p = get_cleanup_priority now is_emergency a in
    let q = get_cleanup_priority now is_emergency b in
    if not (p == q) then ltb q p else ltb a.mod_time b.mod_time

-- The status in a state file that can be read and parsed.
abbrev pub read_status : Option StateFile → Option String → String
read_status (some (whole state)) none = state.status
read_status _ _ = "unknown"

-- `sort.Slice`, the answers of the outside about the disk, and the percentages of the
-- configuration.
pub record Disks : Type 0 where
  pub env : Env
  pub settings : Settings
  pub threshold_percent : ℕ
  pub hard_limit_percent : ℕ
  pub usage : ℕ → Option ℕ
  pub entries : ℕ → Option (List Entry)
  pub sort : (JobInfo → JobInfo → Bool) → List JobInfo → List JobInfo

-- A usage whose error is dropped is 0.
abbrev pub or_zero : Option ℕ → ℕ
or_zero none = 0
or_zero (some n) = n

abbrev pub count_removed : Error ⊎ Unit {0} → ℕ → ℕ
count_removed (inl e) n = n
count_removed (inr t) n = n + 1

module _ (d : Disks) where
  unfoldable pub get_job_status : String → M World String
  get_job_status id = do
    file ← reads (λ w. Dict.lookup id w.disk.states)
    r ← ask d.env.run
    pure (read_status file r)

  unfoldable pub job_info : Entry → M World JobInfo
  job_info e = do
    status ← get_job_status e.name
    pure (record { job_id = e.name; mod_time = e.mod_time; size = e.size; status = status })

  unfoldable pub job_infos : List Entry → M World (List JobInfo)
  job_infos [] = pure []
  job_infos (e ∷ es) = do info ← job_info e; rest ← job_infos es; pure (info ∷ rest)

  unfoldable pub get_jobs_for_cleanup : Bool → M World (List JobInfo)
  get_jobs_for_cleanup is_emergency = do
    answer ← ask d.entries
    es ← or_fail (new_error "failed to read outputs directory") answer
    jobs ← job_infos es
    now ← time d.env
    pure (d.sort (goes_before now is_emergency) jobs)

  -- The loop of AutoCleanup, with the number of jobs removed so far.
  unfoldable pub clean_jobs : ℕ → List JobInfo → ℕ → M World ℕ
  clean_jobs target [] cleaned = pure cleaned
  clean_jobs target (job ∷ jobs) cleaned = do
    usage ← ask d.usage
    if ltb (or_zero usage) target then pure cleaned else (do
      r ← try (delete_job_files d.env d.settings job.job_id)
      clean_jobs target jobs (count_removed r cleaned))

  -- The target is that of the source where it is positive, and 0, under which no usage is,
  -- elsewhere.
  unfoldable pub target_usage : Bool → ℕ
  target_usage is_emergency =
      if is_emergency then d.threshold_percent - 10 else d.threshold_percent - 5

  unfoldable pub clean_above : ℕ → M World ℕ
  clean_above usage = do
    jobs ← get_jobs_for_cleanup (leb d.hard_limit_percent usage)
    clean_jobs (target_usage (leb d.hard_limit_percent usage)) jobs 0

  unfoldable pub clean_at : ℕ → M World ℕ
  clean_at usage = if ltb usage d.threshold_percent then pure 0 else clean_above usage

  -- AutoCleanup, which logs the number.
  unfoldable pub auto_cleanup : M World ℕ
  auto_cleanup = do
    answer ← ask d.usage
    usage ← or_fail (new_error "failed to get disk stats") answer
    clean_at usage
