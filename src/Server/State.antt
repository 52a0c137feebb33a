-- ===== src/Server/State.antt =====
-- What the handlers, the scheduler and the workers share, and calls of the services on it. The job
-- channel is a list of pointers: a send waits while the channel is full and is not cut short.
use video_encoder_service.Prelude.{ℕ, String, List, [], ◌∷◌, ◌++◌, Option}
use video_encoder_service.Prelude.Dict.{Dict}
use video_encoder_service.Types.Error.{Result, ok, M}
use video_encoder_service.Jobs.Repository.{Jobs}
use video_encoder_service.Jobs.Service.{Config}
use video_encoder_service.Transcode.World.{World, Env, on_jobs, time, ask}
use video_encoder_service.Transcode.Limits.{Settings}
use video_encoder_service.Batches.Service.{Batch, Batches}
use video_encoder_service.Validator.Check.{Media}

-- internal/application/services/scheduler_service.go: ScheduledJob. A `*time.Timer` is its number.
pub record ScheduledJob : Type 0 where
  pub job : ℕ
  pub scheduled_at : ℕ
  pub timer : ℕ

-- A timer that has neither fired nor been stopped, with the job ID that its function holds.
pub record Timer : Type 0 where
  pub number : ℕ
  pub job_id : String
  pub due : ℕ

pub record Server : Type 0 where
  pub world : World
  pub queue : List ℕ
  pub scheduled : Dict ScheduledJob
  pub timers : List Timer
  pub next_timer : ℕ
  -- the calls of executeScheduledJob that fired timers have started
  pub fired : List String
  pub batches : Dict Batch
  pub active_workers : ℕ

-- The configuration, and the answers of the outside. The usage of the disk is in whole percent,
-- rounded down, as it is only compared with whole numbers; a call that fails has no answer.
pub record Site : Type 0 where
  pub env : Env
  pub settings : Settings
  pub config : Config
  pub threshold_percent : ℕ
  pub usage : ℕ → Option ℕ
  pub media : ℕ → String → Media

abbrev pub lift_world : {A : Type 0} → Server → Result A × World → Result A × Server
lift_world s (r, w) = (r, record s { world = w })

unfoldable pub on_world : {A : Type 0} → M World A → M Server A
on_world m s = lift_world s (m s.world)

-- A call of the JobService.
unfoldable pub on_service : {A : Type 0} → M Jobs A → M Server A
unfolding on_world
on_service m = on_world (on_jobs m)

abbrev pub lift_batches : {A : Type 0} → Server → Result A × Batches → Result A × Server
lift_batches s (r, b) = (r, record s { batches = b.batches })

-- A call of the BatchService, which reads the jobs of a batch through their pointers.
unfoldable pub on_batches : {A : Type 0} → M Batches A → M Server A
on_batches m s = lift_batches s (m (record { heap = s.world.jobs.heap; batches = s.batches }))

-- `jobQueue <- job`
unfoldable pub enqueue : ℕ → M Server (Unit {0})
enqueue p s = (ok tt, record s { queue = s.queue ++ p ∷ [] })

unfoldable pub clock : Site → M Server ℕ
unfolding on_world
clock site = on_world (time site.env)

unfoldable pub ask_site : {A : Type 0} → (ℕ → A) → M Server A
unfolding on_world
ask_site answer = on_world (ask answer)
