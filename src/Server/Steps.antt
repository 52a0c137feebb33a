-- ===== src/Server/Steps.antt =====
-- The service as a whole: requests, due timers, the workers and the calls that their runs make, in
-- any order (job_handler.go, and internal/application/services/scheduler_service.go).
use video_encoder_service.Prelude.{ℕ, suc, ◌-◌, String, List, [], ◌∷◌, ◌++◌, Option, ◌≡◌, refl, All}
use video_encoder_service.Prelude.Dict
use video_encoder_service.Types.Error.{Result, ok, err, panic, M}
use video_encoder_service.Types.Triple.{Post, Post-weaken}
use video_encoder_service.Jobs.Repository.{new_repository}
use video_encoder_service.Jobs.Service.{Config}
use video_encoder_service.Jobs.Valid.{new_repository-IsValid}
use video_encoder_service.Transcode.World.{World}
use video_encoder_service.Server.State.{Server, Site, on_service}
use video_encoder_service.Server.Scheduler.{fire_due, execute_scheduled_job}
use video_encoder_service.Server.Handlers.{
  TranscodeRequest, Response, handle_create, handle_get, handle_list, handle_delete, handle_resume,
  handle_health, handle_schedule,
}
use video_encoder_service.Server.Batching.{BatchRequest, handle_create_batch, handle_batch_status}
use video_encoder_service.Server.Sound.{
  IsPointer, IsSound, Stable-none, Knows, Calls, Calls-edit, Ensures-service,
}
use video_encoder_service.Server.Rules.{Ensures-execute}
use video_encoder_service.Server.Serves.{Nothing, Serves}
use video_encoder_service.Server.Answers.{
  Serves-create, Serves-get, Serves-list, Serves-delete, Serves-resume, Serves-health,
  Serves-schedule,
}
use video_encoder_service.Server.Recovery.{resume_orphaned_jobs, Serves-resume_orphaned}
use video_encoder_service.Jobs.View.{Op, perform, target, write}
use video_encoder_service.Jobs.Refines.{IsEditOp, op-IsEdit}
use video_encoder_service.Server.BatchAnswers.{Serves-create_batch, Serves-batch_status}

-- Nine of the eleven routes that job_handler.go serves, with their decoded arguments: not
-- GetDetailedVideoInfo and not HandleWebSocket.
pub data Request : Type 0 where
  creates_job : (body : Option TranscodeRequest) → Request
  gets_job : (id : String) → Request
  lists_jobs : Request
  deletes_job : (id : String) → Request
  resumes_job : (id : String) → Request
  asks_health : Request
  schedules_job : (body : Option TranscodeRequest) → Request
  creates_batch : (body : Option BatchRequest) → Request
  asks_batch : (id : String) → Request

module _ (site : Site) (format : ℕ → String) where
  unfoldable pub handle : Request → M Server Response
  handle (creates_job body) = handle_create site body
  handle (gets_job id) = handle_get id
  handle lists_jobs = handle_list
  handle (deletes_job id) = handle_delete site id
  handle (resumes_job id) = handle_resume site id
  handle asks_health = handle_health
  handle (schedules_job body) = handle_schedule site body
  handle (creates_batch body) = handle_create_batch site format body
  handle (asks_batch id) = handle_batch_status site format id

-- The worker loop of StartWorker takes a job and starts a goroutine for its run.
abbrev pub take_from : List ℕ → Server → Server
take_from [] s = s
take_from (p ∷ ps) s = record s { queue = ps; active_workers = suc s.active_workers }

unfoldable pub take_job : Server → Server
take_job s = take_from s.queue s

-- The end of a run.
unfoldable pub finish_job : Server → Server
finish_job s = record s { active_workers = s.active_workers - 1 }

-- A server that has just started.
unfoldable pub new_server : World → Server
unfolding new_repository
new_server w = record {
  world = record w { jobs = new_repository };
  queue = [];
  scheduled = [];
  timers = [];
  next_timer = 0;
  fired = [];
  batches = [];
  active_workers = 0;
}

-- One of the calls of executeScheduledJob that wait for the mutex gets it.
abbrev pub without_fired : List String → Server → Server
without_fired rest s = record s { fired = rest }

module _ (site : Site) (format : ℕ → String) where
  pub data Step : Server → Server → Type 0 where
    serves : (r : Request) (s : Server) → Step s (handle site format r s).1
    recovers : (s : Server) → Step s (resume_orphaned_jobs site s).1
    fires : (now : ℕ) (s : Server) → Step s (fire_due now s)
    executes :
        (before after : List String) (id : String) (s : Server)
        → s.fired ≡ before ++ id ∷ after
        → Step s (execute_scheduled_job id (without_fired (before ++ after) s)).1
    takes : (s : Server) → Step s (take_job s)
    finishes : (s : Server) → Step s (finish_job s)
    -- a call of the JobService that a run of the transcode use case makes
    works : (op : Op) (s : Server) → IsEditOp op → Step s (on_service (perform site.config op) s).1

  pub data Reach (s : Server) : Server → Type 0 where
    starts : Reach s s
    steps : (t u : Server) → Reach s t → Step t u → Reach s u

module _ (site : Site) (format : ℕ → String) where
  Serves-handle : (r : Request) → Serves Nothing (handle site format r)
  unfolding handle
  Serves-handle (creates_job body) = Serves-create site body
  Serves-handle (gets_job id) = Serves-get id
  Serves-handle lists_jobs = Serves-list
  Serves-handle (deletes_job id) = Serves-delete site id
  Serves-handle (resumes_job id) = Serves-resume site id
  Serves-handle asks_health = Serves-health
  Serves-handle (schedules_job body) = Serves-schedule site body
  Serves-handle (creates_batch body) = Serves-create_batch site format body
  Serves-handle (asks_batch id) = Serves-batch_status site format id

Knows-Nothing : (s : Server) → IsSound s → Knows Nothing s
Knows-Nothing s i = record { sound = i; known = tt }

Calls-perform :
    (c : Config) (op : Op) → IsEditOp op → Calls Unit Nothing (λ _ _. Unit) (perform c op)
Calls-perform c op h =
    let e = op-IsEdit c op h in
    record {
      at = λ j v f.
          rw (e.runs j) ((Calls-edit {F = Nothing} (target c op) (write op) e.keeps).at j v f);
    }

-- The state after a call, whatever its outcome.
Post-state :
    {S A : Type 0} {I P : S → Type 0} (r : Result A × S)
    → ((s : S) → I s → P s)
    → Post I (λ _. P) r
    → P r.1
Post-state (ok a, s) f h = h
Post-state (err e, s) f h = f s h
Post-state (panic, s) f h = absurd h

served : {A : Type 0} (m : M Server A) (s : Server) → Serves Nothing m → IsSound s → IsSound (m s).1
served m s em i =
    Post-state (m s) (λ t e. absurd e)
      (Post-weaken (m s) (λ t e. e) (λ a t k. k.sound) (em.at s (Knows-Nothing s i)))

take-IsSound :
    (q : List ℕ) (s : Server)
    → All (IsPointer s.world.jobs.heap) q
    → IsSound s
    → IsSound (take_from q s)
take-IsSound [] s h i = i
take-IsSound (p ∷ ps) s h i = record {
  valid = i.valid;
  queued = h.1;
  entries = i.entries;
  batched = i.batched;
}

Step-IsSound :
    (site : Site) (format : ℕ → String) {s t : Server}
    → Step site format s t
    → IsSound s
    → IsSound t
unfolding fire_due finish_job take_job
Step-IsSound site format (serves r s) i =
    served (handle site format r) s (Serves-handle site format r) i
Step-IsSound site format (recovers s) i =
    served (resume_orphaned_jobs site) s (Serves-resume_orphaned site) i
Step-IsSound site format (fires now s) i = record {
  valid = i.valid;
  queued = i.queued;
  entries = i.entries;
  batched = i.batched;
}
Step-IsSound site format (executes before after id s h) i =
    let waits : IsSound (without_fired (before ++ after) s) = record {
      valid = i.valid;
      queued = i.queued;
      entries = i.entries;
      batched = i.batched;
    } in
    Post-state (execute_scheduled_job id _) (λ t e. absurd e)
      ((Ensures-execute {I = λ _. ⊥} id).at _ waits)
Step-IsSound site format (takes s) i = take-IsSound s.queue s i.queued i
Step-IsSound site format (finishes s) i = record {
  valid = i.valid;
  queued = i.queued;
  entries = i.entries;
  batched = i.batched;
}
Step-IsSound site format (works op s h) i =
    Post-state {I = Knows Nothing} (on_service (perform site.config op) s) (λ t k. k.sound)
      (Post-weaken {I = Knows Nothing} {Q = λ a. Knows (λ h. Unit × Unit)} _ (λ t k. k)
        (λ a t k. k.sound)
        ((Ensures-service _ Stable-none (Calls-perform site.config op h)).at s (Knows-Nothing s i)))

new_server-IsSound : (w : World) → IsSound (new_server w)
unfolding new_server new_repository Dict.lookup
new_server-IsSound w = record {
  valid = new_repository-IsValid;
  queued = tt;
  entries = λ id e h. cc;
  batched = λ id b h. cc;
}

answered :
    {S A : Type 0} (Q : A → S → Type 0) (r : Result A × S)
    → Post (λ _. ⊥) Q r
    → (a : A) × (r.0 ≡ ok a)
answered Q (ok a, s) h = (a, refl)
answered Q (err e, s) h = absurd h
answered Q (panic, s) h = absurd h

-- Whatever requests, due timers, workers and runs follow the start of the service, in any order,
-- its repository stays well formed, and the pointers in the job queue, in the schedule and in the
-- batches lead to jobs; those of the schedule lead to the jobs that the entries name.
pub Reach-IsSound :
    (site : Site) (format : ℕ → String) (w : World) {s : Server}
    → Reach site format (new_server w) s
    → IsSound s
Reach-IsSound site format w starts = new_server-IsSound w
Reach-IsSound site format w (steps t u before step) =
    Step-IsSound site format step (Reach-IsSound site format w before)

-- In every state that the service reaches, every request gets a response: its handler neither
-- panics nor fails.
pub handle-answers :
    (site : Site) (format : ℕ → String) (w : World) (r : Request) {s : Server}
    → Reach site format (new_server w) s
    → (answer : Response) × ((handle site format r s).0 ≡ ok answer)
handle-answers site format w r {s} before =
    answered _ (handle site format r s)
      ((Serves-handle site format r).at s (Knows-Nothing s (Reach-IsSound site format w before)))
