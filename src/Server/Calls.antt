-- ===== src/Server/Calls.antt =====
-- Sequences of calls of the scheduler (scheduler_service.go), and what holds between them.
use video_encoder_service.Prelude.{◌⊎◌, ℕ, ◌<◌, String, ◌≡◌, List, [], ◌∷◌, ◌++◌, some, Any}
use video_encoder_service.Prelude.Dict
use video_encoder_service.Server.State.{ScheduledJob, Timer, Server, Site}
use video_encoder_service.Server.Scheduler.{
  schedule_job, cancel_scheduled_job, stop, fire_due, execute_scheduled_job,
}

-- The calls of the scheduler, those of the timers among them.
pub data Call : Type 0 where
  schedules : (pointer at : ℕ) → Call
  cancels : (id : String) → Call
  stops : Call
  fires : (now : ℕ) → Call
  executes : (before after : List String) (id : String) → Call

module _ (site : Site) where
  -- A call of executeScheduledJob is one of those that fired timers started.
  abbrev pub invoke : Call → Server → Server
  invoke (schedules p at) s = (schedule_job site p at s).1
  invoke (cancels id) s = (cancel_scheduled_job id s).1
  invoke stops s = (stop s).1
  invoke (fires now) s = fire_due now s
  invoke (executes before after id) s =
      (execute_scheduled_job id (record s { fired = before ++ after })).1

  -- The calls can be made, one after another.
  abbrev pub CanRun : List Call → Server → Type 0
  CanRun [] s = Unit
  CanRun (executes before after id ∷ cs) s =
      (s.fired ≡ before ++ id ∷ after) × CanRun cs (invoke (executes before after id) s)
  CanRun (c ∷ cs) s = CanRun cs (invoke c s)

  unfoldable pub invoke_all : List Call → Server → Server
  invoke_all [] s = s
  invoke_all (c ∷ cs) s = invoke_all cs (invoke c s)

-- The timer of the entry is pending, and runs executeScheduledJob on its ID.
abbrev pub Pends : ℕ → String → List Timer → Type 0
Pends n id timers = Any (λ t. (t.number ≡ n) × (t.job_id ≡ id)) timers

-- A call of executeScheduledJob on the ID waits.
abbrev pub Waits : String → List String → Type 0
Waits id fired = Any (λ j. j ≡ id) fired

-- Each entry has a timer of its own, which is pending unless its call waits already.
pub record Armed (m : Dict.Dict ScheduledJob) (timers : List Timer) (fired : List String) (next : ℕ)
    : Type 0 where
  pub fresh : (id : String) (e : ScheduledJob) → Dict.lookup id m ≡ some e → e.timer < next
  pub distinct :
      (id j : String) (e d : ScheduledJob)
      → Dict.lookup id m ≡ some e
      → Dict.lookup j m ≡ some d
      → e.timer ≡ d.timer
      → id ≡ j
  pub armed :
      (id : String) (e : ScheduledJob)
      → Dict.lookup id m ≡ some e
      → Pends e.timer id timers ⊎ Waits id fired

abbrev pub IsArmed : Server → Type 0
IsArmed s = Armed s.scheduled s.timers s.fired s.next_timer
