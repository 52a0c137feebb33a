-- ===== src/Transcode/World.antt =====
-- What the transcode use case acts on: the jobs in memory, the files that it reads back, the
-- deduplication map, the dead letter queue and a log of its visible acts; and the outside world,
-- whose answers are an arbitrary function of the number of calls made so far.
use video_encoder_service.Prelude.{ℕ, suc, String, List, ◌∷◌, Option, none, some, str_append}
use video_encoder_service.Prelude.Dict.{Dict}
use video_encoder_service.Types.Error.{Error, message, Result, ok, M, ◌>>=◌, pure, fail}
use video_encoder_service.Types.Job.{Job, JobError, AudioInfo}
use video_encoder_service.Types.State.{JobState}
use video_encoder_service.Types.Encoding.{VideoInfo}
use video_encoder_service.Jobs.Repository.{Jobs}

-- A state file: valid JSON of a state, or what a write that failed left behind.
pub data StateFile : Type 0 where
  whole : JobState → StateFile
  torn : StateFile

-- The directory of each job under the outputs directory: its state.json, the temporary file beside
-- it, and the directories of its qualities.
pub record Disk : Type 0 where
  pub states : Dict StateFile
  pub temps : Dict StateFile
  pub quality_dirs : Dict (List String)

-- internal/application/services/dlq_service.go: DLQEntry.
pub record DlqEntry : Type 0 where
  pub job_id : String
  pub input_path : String
  pub status : String
  pub error : Option JobError
  pub retries : ℕ
  pub max_retries : ℕ
  pub reason : String
  pub moved_at : ℕ
  pub original_job : Job

pub data Event : Type 0 where
  starts : (job_id : String) → Event
  sleeps : (seconds : ℕ) → Event
  encodes : (job_id quality : String) → Event
  broadcasts : (job_id status : String) (progress : ℕ) (step : String) → Event

pub record World : Type 0 where
  pub tick : ℕ
  pub jobs : Jobs
  pub disk : Disk
  -- the `*JobState` of the run in progress
  pub current : JobState
  pub cache : Dict String
  pub dlq : Dict DlqEntry
  -- newest first
  pub log : List Event

-- What generatePreviews brings back.
pub record PreviewData : Type 0 where
  pub thumbnails : List String
  pub sprite_sheet : String
  pub preview_clip : String
  pub preview_gif : String
  pub audio : Option AudioInfo

-- The answers of the operating system, of ffmpeg and of ffprobe to the call of each number, and the
-- time. An answer of `some text` is an error.
pub record Env : Type 0 where
  pub now : ℕ → ℕ
  pub run : ℕ → Option String
  pub hash : ℕ → String → Option String
  pub video_info : ℕ → String → Option VideoInfo
  pub job_size : ℕ → Option ℕ
  pub chunks : ℕ → ℕ
  pub previews : ℕ → Option PreviewData

unfoldable pub ask : {A : Type 0} → (ℕ → A) → M World A
ask answer w = (ok (answer w.tick), record w { tick = suc w.tick })

abbrev pub lift : {A : Type 0} → World → Result A × Jobs → Result A × World
lift w (r, jobs) = (r, record w { jobs = jobs })

-- A call of the JobService.
unfoldable pub on_jobs : {A : Type 0} → M Jobs A → M World A
on_jobs m w = lift w (m w.jobs)

unfoldable pub log_event : Event → M World (Unit {0})
log_event e w = (ok tt, record w { log = e ∷ w.log })

-- A write through `state`.
unfoldable pub change_state : (JobState → JobState) → M World (Unit {0})
change_state f w = (ok tt, record w { current = f w.current })

unfoldable pub set_disk : (Disk → Disk) → M World (Unit {0})
set_disk f w = (ok tt, record w { disk = f w.disk })

unfoldable pub or_fail : {A : Type 0} → Error → Option A → M World A
or_fail e none = fail e
or_fail e (some a) = pure a

unfoldable pub answer_of : Option String → M World (Unit {0})
answer_of none = pure tt
answer_of (some text) = fail (message text)

-- `filepath.Join`, of parts that are clean.
abbrev pub join : String → String → String
join a b = str_append a (str_append "/" b)

module _ (env : Env) where
  unfoldable pub time : M World ℕ
  time = ask env.now

  -- A command or a call of the file system that answers with an error or nothing.
  unfoldable pub external : M World (Unit {0})
  external = do r ← ask env.run; answer_of r
