-- ===== src/Server/Scheduler.antt =====
-- The SchedulerService of internal/application/services/scheduler_service.go. A call holds the
-- mutex to its end, so that calls do not interleave. A timer that fires starts a call of
-- executeScheduledJob, which takes the mutex later: other calls can come between.
use video_encoder_service.Prelude.{
  ℕ, suc, String, not, List, [], ◌∷◌, ◌++◌, Option, none, some, if◌then◌else◌, ltb, leb, ◌==◌, keep,
  map,
}
use video_encoder_service.Prelude.Dict
use video_encoder_service.Types.Error.{ok, M, ◌>>=◌, ◌>>◌, pure, reads}
use video_encoder_service.Types.Job.{queued}
use video_encoder_service.Jobs.Repository.{load, change}
use video_encoder_service.Server.State.{
  ScheduledJob, Timer, Server, Site, on_service, enqueue, clock,
}

-- `time.AfterFunc` and the entry of the job.
unfoldable pub arm : String → ℕ → ℕ → M Server (Unit {0})
arm id p at s = (
  ok tt,
  record s {
    timers = s.timers ++ record { number = s.next_timer; job_id = id; due = at } ∷ [];
    next_timer = suc s.next_timer;
    scheduled =
        Dict.insert id (record { job = p; scheduled_at = at; timer = s.next_timer }) s.scheduled;
  },
)

unfoldable pub schedule_job : Site → ℕ → ℕ → M Server (Unit {0})
schedule_job site p at = do
  job ← on_service (load p)
  now ← clock site
  if ltb at now then enqueue p else arm job.id p at

-- `Timer.Stop`: it does nothing to a timer that has fired.
abbrev pub stop_timer : ℕ → List Timer → List Timer
stop_timer n timers = keep (λ t. not (t.number == n)) timers

unfoldable pub cancel_found : String → Option ScheduledJob → M Server (Unit {0})
cancel_found id none s = (ok tt, s)
cancel_found id (some e) s = (
  ok tt,
  record s { timers = stop_timer e.timer s.timers; scheduled = Dict.delete id s.scheduled },
)

unfoldable pub cancel_scheduled_job : String → M Server (Unit {0})
unfolding cancel_found
cancel_scheduled_job id s = cancel_found id (Dict.lookup id s.scheduled) s

unfoldable pub get_scheduled_job : String → Server → Option ScheduledJob
get_scheduled_job id s = Dict.lookup id s.scheduled

unfoldable pub list_scheduled_jobs : Server → List ScheduledJob
list_scheduled_jobs s = map (λ e. e.1) s.scheduled

-- The loop of Stop; what stands before it closes a channel that nothing reads.
abbrev pub stop_timers : List (String × ScheduledJob) → List Timer → List Timer
stop_timers [] timers = timers
stop_timers ((id, e) ∷ entries) timers = stop_timers entries (stop_timer e.timer timers)

unfoldable pub stop : M Server (Unit {0})
stop s = (ok tt, record s { timers = stop_timers s.scheduled s.timers; scheduled = [] })

-- The runtime fires the timers that are due.
unfoldable pub fire_due : ℕ → Server → Server
fire_due now s = record s {
  timers = keep (λ t. not (leb t.due now)) s.timers;
  fired = s.fired ++ map (λ t. t.job_id) (keep (λ t. leb t.due now) s.timers);
}

unfoldable pub forget : String → M Server (Unit {0})
forget id s = (ok tt, record s { scheduled = Dict.delete id s.scheduled })

unfoldable pub execute_found : String → Option ScheduledJob → M Server (Unit {0})
execute_found id none = pure tt
execute_found id (some e) = do
  forget id
  on_service (change e.job λ job. record job { status = queued })
  enqueue e.job

unfoldable pub execute_scheduled_job : String → M Server (Unit {0})
execute_scheduled_job id = do e ← reads (get_scheduled_job id); execute_found id e
