-- ===== src/Server/Cancelled.antt =====
-- A job whose schedule is cancelled is not queued by a timer that fires late
-- (scheduler_service.go).
use video_encoder_service.Prelude.{String, ◌≡◌, ◌≢◌, List, [], ◌∷◌, Option, none, some, get_elem?}
use video_encoder_service.Prelude.Dict
use video_encoder_service.Types.Job.{Job}
use video_encoder_service.Server.State.{Server, Site}
use video_encoder_service.Server.Calls.{Call, schedules, invoke}

-- The job behind a pointer does not go by the ID.
abbrev pub IsOther : String → Option Job → Type 0
IsOther id none = Unit
IsOther id (some job) = job.id ≢ id

-- No call schedules the ID.
abbrev pub Spares : Site → String → List Call → Server → Type 0
Spares site id [] s = Unit
Spares site id (schedules p at ∷ cs) s =
    IsOther id (get_elem? s.world.jobs.heap p) × Spares site id cs (invoke site (schedules p at) s)
Spares site id (c ∷ cs) s = Spares site id cs (invoke site c s)

abbrev pub Unscheduled : String → Server → Type 0
Unscheduled id s = Dict.lookup id s.scheduled ≡ none
