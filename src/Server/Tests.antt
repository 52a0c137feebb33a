-- ===== src/Server/Tests.antt =====
-- The service at a few requests.
use video_encoder_service.Prelude.{ℕ, String, ◌≡◌, refl, true, List, [], ◌∷◌, none, some, decimal}
use video_encoder_service.Prelude.Dict
use video_encoder_service.Types.Error.{ok, ◌>>=◌, try, wrapping, pure, fail, wrap, error_text}
use video_encoder_service.Types.Job.{failed, status_text}
use video_encoder_service.Types.Triple.{Post}
use video_encoder_service.Jobs.Repository.{Jobs, load, alloc, create, new_repository, get, delete}
use video_encoder_service.Jobs.Valid.{IsValid}
use video_encoder_service.Jobs.View.{sets_status, perform}
use video_encoder_service.Jobs.History.{perform-IsValid}
use video_encoder_service.Validator.Check.{Media, validate_file}
use video_encoder_service.Transcode.Limits.{delete_job_files}
use video_encoder_service.Samples.{config, settings, info, env, job, jobs, world, jobs-IsValid}
use video_encoder_service.Transcode.World.{on_jobs, time, ask, external, answer_of, set_disk}
use video_encoder_service.Server.State.{
  on_service, on_world, clock, Server, Site, ask_site, enqueue,
}
use video_encoder_service.Types.Job.{Job, queued}
use video_encoder_service.Jobs.Service.{job_id, create_job, new_job, get_job, delete_job}
use video_encoder_service.Server.Roundtrip.{handle_get-handle_create, handle_get-handle_delete}
use video_encoder_service.Server.Handlers.{
  sends, job_created, job_found, job_deleted, not_found, handle_get, handle_delete,
  TranscodeRequest, Response, handle_create, handle_resume, can_accept_new_job, create_decoded,
  validate, create_valid, make_job, create_made, delete_found, files_removed, removed,
}
use video_encoder_service.Server.Sound.{IsSound}
use video_encoder_service.Server.Steps.{
  creates_job, asks_health, handle, new_server, serves, Reach, starts, steps, Reach-IsSound,
  handle-answers,
}
use video_encoder_service.Server.Creation.{Created, handle_create-Created}
use video_encoder_service.Server.Resumption.{Resumed, handle_resume-Resumed}
use video_encoder_service.Server.Scheduler.{arm, schedule_job, fire_due}
use video_encoder_service.Server.Calls.{
  Call, schedules, fires, executes, invoke, invoke_all, CanRun, IsArmed,
}
use video_encoder_service.Server.Armed.{invoke_all-IsArmed}
use video_encoder_service.Server.Arrives.{Leads, IsOnItsWay, invoke_all-Arrives}
use video_encoder_service.Server.State.{ScheduledJob}
use video_encoder_service.Prelude.{◌++◌, ◌⊎◌, Any, ℕ, some}

abbrev media : Media
media = record {
  exists = true;
  size = some 4096;
  format = some "avi";
  has_stream = true;
  resolution = some info;
  duration = some (record info { duration = 60_000_000 });
  decodes = true;
}

abbrev site : Site
site = record {
  env = env;
  settings = settings;
  config = config;
  threshold_percent = 80;
  usage = λ n. some 40;
  media = λ n path. media;
}

abbrev request : TranscodeRequest
request = record { input_path = "/in/a.avi"; chunk_duration = 0; scheduled_at = none }

abbrev format : ℕ → String
format = decimal

abbrev created : Server
created = (handle site format (creates_job (some request)) (new_server world)).1

created_reached : Reach site format (new_server world) created
created_reached =
    steps (new_server world) created starts (serves (creates_job (some request)) (new_server world))

Reach-IsSound_example : IsSound created
Reach-IsSound_example = Reach-IsSound site format world created_reached

handle-answers_example :
    (answer : Response) × ((handle site format asks_health created).0 ≡ ok answer)
handle-answers_example = handle-answers site format world asks_health created_reached

handle_create-Created_example :
    Post
      (λ _. ⊥)
      (Created (new_server world))
      (handle_create site (some request) (new_server world))
handle_create-Created_example = handle_create-Created site (some request) (new_server world)

abbrev failed_jobs : Jobs
failed_jobs = (perform config (sets_status job.id failed 7_000_000) jobs).1

abbrev holding : Jobs → Server
holding js = record (new_server world) { world = record world { jobs = js } }

failed_jobs-IsValid : IsValid failed_jobs
failed_jobs-IsValid = perform-IsValid config (sets_status job.id failed 7_000_000) jobs jobs-IsValid

handle_resume-Resumed_example :
    Post
      (λ _. ⊥)
      (Resumed job.id (holding failed_jobs))
      (handle_resume site job.id (holding failed_jobs))
handle_resume-Resumed_example =
    handle_resume-Resumed site job.id (holding failed_jobs) failed_jobs-IsValid

abbrev one_job : Server
one_job = holding (record { heap = job ∷ []; index = (job.id, 0) ∷ [] })

idle-IsArmed : IsArmed one_job
unfolding new_server Dict.lookup
idle-IsArmed = record {
  fresh = λ id e h. cc;
  distinct = λ id j e d h k n. cc;
  armed = λ id e h. cc;
}

abbrev scheduled_once : Server
scheduled_once = invoke site (schedules 0 9_000_000) one_job

-- The timer of the job fires, and the call runs.
abbrev calls : List Call
calls = fires 9_500_000 ∷ executes [] [] job.id ∷ []

calls_run : CanRun site calls scheduled_once
unfolding schedule_job fire_due ◌>>=◌ on_service on_world on_jobs load clock time ask arm new_server
calls_run = (refl, tt)

once-IsArmed : IsArmed scheduled_once
unfolding schedule_job invoke_all
once-IsArmed = invoke_all-IsArmed site (schedules 0 9_000_000 ∷ []) one_job tt idle-IsArmed

abbrev entry : ScheduledJob
entry = record { job = 0; scheduled_at = 9_000_000; timer = 0 }

entry_scheduled : Dict.lookup job.id scheduled_once.scheduled ≡ some entry
unfolding schedule_job ◌>>=◌ on_service on_world on_jobs load clock time ask arm new_server
    Dict.insert Dict.lookup Dict.delete new_job decimal
entry_scheduled = refl

entry-Leads : Leads 0 scheduled_once.world.jobs.heap
unfolding schedule_job ◌>>=◌ on_service on_world on_jobs load clock time ask arm new_server
entry-Leads = (job, refl)

invoke_all-Arrives_example :
    (more : List ℕ) × ((invoke_all site calls scheduled_once).queue ≡ scheduled_once.queue ++ more)
    × (IsOnItsWay job.id entry (invoke_all site calls scheduled_once) ⊎ Any (λ p. p ≡ 0) more)
invoke_all-Arrives_example =
    invoke_all-Arrives site calls scheduled_once job.id entry calls_run once-IsArmed tt tt
      entry_scheduled entry-Leads

created_job :
    handle_create site (some request) (new_server world)
    ≡ (ok (sends (job_created (job_id 3) "QUEUED")), created)
unfolding handle_create ◌>>=◌ ask_site can_accept_new_job create_decoded validate create_valid
    validate_file try make_job clock time ask on_service on_world on_jobs create_job wrapping alloc
    create load job_id new_job decimal create_made enqueue pure fail status_text new_server
    new_repository Dict.insert Dict.lookup wrap error_text handle
created_job = refl

handle_get-handle_create_example :
    (j : Job) × (j.id ≡ job_id 3)
    × (j.status ≡ queued)
    × (handle_get (job_id 3) created ≡ (ok (sends (job_found j)), created))
handle_get-handle_create_example =
    handle_get-handle_create site (some request) (new_server world) created (job_id 3) "QUEUED"
      created_job

abbrev deleted : Server
deleted = (handle_delete site (job_id 3) created).1

deleted_job : handle_delete site (job_id 3) created ≡ (ok (sends (job_deleted (job_id 3))), deleted)
unfolding handle_create ◌>>=◌ ask_site can_accept_new_job create_decoded validate create_valid
    validate_file try make_job clock time ask on_service on_world on_jobs create_job wrapping alloc
    create load job_id new_job decimal create_made enqueue pure fail status_text new_server
    new_repository Dict.insert Dict.lookup wrap error_text handle handle_delete get_job get
    delete_found delete_job_files external answer_of set_disk files_removed delete_job delete
    removed Dict.delete
deleted_job = refl

handle_get-handle_delete_example : handle_get (job_id 3) deleted ≡ (ok not_found, deleted)
handle_get-handle_delete_example =
    handle_get-handle_delete site created deleted (job_id 3) (job_id 3)
      (Reach-IsSound site format world created_reached) deleted_job
