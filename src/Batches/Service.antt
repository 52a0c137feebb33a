-- ===== src/Batches/Service.antt =====
-- The BatchService. A batch holds pointers to its jobs, so that a status is read from the heap that
-- the repository of jobs shares. The metadata of a batch is only stored and is left out.
use video_encoder_service.Prelude.{
  ℕ, ◌+◌, String, Bool, true, false, ◌&&◌, List, [], ◌∷◌, Option, none, some, if◌then◌else◌, length,
  get_elem?, ltb, ◌==◌, str_append, map,
}
use video_encoder_service.Prelude.Dict
use video_encoder_service.Prelude.Dict.{Dict}
use video_encoder_service.Types.Error.{Error, message, ok, err, M}
use video_encoder_service.Types.Job.{
  Job, JobStatus, queued, running, completed, partial_success, failed, interrupted, scheduled,
}

pub data BatchStatus : Type 0 where
  pending processing all_completed all_failed partial : BatchStatus

pub record Batch : Type 0 where
  pub id : String
  pub jobs : List ℕ
  pub status : BatchStatus
  pub created_at : ℕ
  pub completed_at : Option ℕ

pub record BatchStats : Type 0 where
  pub total : ℕ
  pub pending : ℕ
  pub running : ℕ
  pub completed : ℕ
  pub failed : ℕ

pub record Batches : Type 0 where
  pub heap : List Job
  pub batches : Dict Batch

already_exists : String → Error
already_exists id = message (str_append "batch " (str_append id " already exists"))

not_found : String → Error
not_found id = message (str_append "batch " (str_append id " not found"))

unfoldable pub put_batch : Batch → Batches → Batches
put_batch b s = record s { batches = Dict.insert b.id b s.batches }

create_case : Option Batch → Batch → M Batches Batch
unfolding already_exists put_batch
create_case (some old) b s = (err (already_exists b.id), s)
create_case none b s = (ok b, put_batch b s)

unfoldable pub create_batch : String → List ℕ → ℕ → M Batches Batch
unfolding create_case
create_batch id jobs now s =
    create_case (Dict.lookup id s.batches)
      (record { id = id; jobs = jobs; status = pending; created_at = now; completed_at = none }) s

found_or_fail : String → Option Batch → M Batches Batch
unfolding not_found
found_or_fail id (some b) s = (ok b, s)
found_or_fail id none s = (err (not_found id), s)

unfoldable pub get_batch : String → M Batches Batch
unfolding found_or_fail
get_batch id s = found_or_fail id (Dict.lookup id s.batches) s

abbrev pub no_stats : ℕ → BatchStats
no_stats n = record { total = n; pending = 0; running = 0; completed = 0; failed = 0 }

-- The `switch` of calculateBatchStats: two of the statuses have no case.
unfoldable pub count_status : JobStatus → BatchStats → BatchStats
count_status queued t = record t { pending = t.pending + 1 }
count_status scheduled t = record t { pending = t.pending + 1 }
count_status running t = record t { running = t.running + 1 }
count_status completed t = record t { completed = t.completed + 1 }
count_status failed t = record t { failed = t.failed + 1 }
count_status partial_success t = t
count_status interrupted t = t

unfoldable pub count_statuses : List JobStatus → BatchStats → BatchStats
unfolding count_status
count_statuses [] t = t
count_statuses (s ∷ ss) t = count_statuses ss (count_status s t)

unfoldable pub calculate_stats : List JobStatus → BatchStats
unfolding count_statuses
calculate_stats ss = count_statuses ss (no_stats (length ss))

abbrev status_at : List Job → ℕ → JobStatus
status_at heap p = elim (get_elem? heap p) [ some job ↦ job.status | none ↦ queued ]

-- The statuses of the jobs of a batch. Its pointers come from CreateJob and lead to jobs.
unfoldable pub statuses : List Job → Batch → List JobStatus
statuses heap b = map (status_at heap) b.jobs

unfoldable pub determine : BatchStats → BatchStatus
determine t =
    if t.completed == t.total
    then all_completed
    else if t.failed == t.total
    then all_failed
    else if ltb 0 t.completed && (t.completed + t.failed == t.total)
    then partial
    else if ltb 0 t.running
    then processing
    else pending

-- The batches that UpdateBatchStatus gives a completion time.
abbrev pub is_finished : BatchStatus → Bool
is_finished all_completed = true
is_finished all_failed = true
is_finished partial = true
is_finished _ = false

unfoldable pub set_batch_status : BatchStatus → ℕ → Batch → Batch
set_batch_status status now b =
    if is_finished status
    then record b { status = status; completed_at = some now }
    else record b { status = status }

update_case : String → Option Batch → ℕ → M Batches (Unit {0})
unfolding not_found put_batch set_batch_status determine calculate_stats statuses
update_case id none now s = (err (not_found id), s)
update_case id (some b) now s =
    (ok tt, put_batch (set_batch_status (determine (calculate_stats (statuses s.heap b))) now b) s)

unfoldable pub update_batch_status : String → ℕ → M Batches (Unit {0})
unfolding update_case
update_batch_status id now s = update_case id (Dict.lookup id s.batches) now s

stats_case : String → Option Batch → M Batches BatchStats
unfolding not_found calculate_stats statuses
stats_case id none s = (err (not_found id), s)
stats_case id (some b) s = (ok (calculate_stats (statuses s.heap b)), s)

unfoldable pub get_batch_stats : String → M Batches BatchStats
unfolding stats_case
get_batch_stats id s = stats_case id (Dict.lookup id s.batches) s

unfoldable pub list_batches : M Batches (List Batch)
list_batches s = (ok (map (λ e. e.1) s.batches), s)

delete_case : String → Option Batch → M Batches (Unit {0})
unfolding not_found
delete_case id none s = (err (not_found id), s)
delete_case id (some b) s = (ok tt, record s { batches = Dict.delete id s.batches })

unfoldable pub delete_batch : String → M Batches (Unit {0})
unfolding delete_case
delete_batch id s = delete_case id (Dict.lookup id s.batches) s
