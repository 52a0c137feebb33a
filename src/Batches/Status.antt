-- ===== src/Batches/Status.antt =====
-- The status of a batch against the statuses of its jobs.
use video_encoder_service.Prelude.{
  ℕ, ◌+◌, ◌≤◌, ◌≡◌, refl, true, List, [], ◌∷◌, length, All, arith, ◌↔◌,
}
use video_encoder_service.Types.Job.{
  JobStatus, queued, running, completed, partial_success, failed, interrupted, scheduled,
}
use video_encoder_service.Batches.Service.{
  BatchStats, no_stats, count_status, count_statuses, calculate_stats, determine, is_finished,
}

-- How many of a list have a property, one by one.
abbrev pub tally : (JobStatus → ℕ) → List JobStatus → ℕ
tally f [] = 0
tally f (s ∷ ss) = f s + tally f ss

abbrev pub one_completed : JobStatus → ℕ
one_completed completed = 1
one_completed _ = 0

abbrev pub one_failed : JobStatus → ℕ
one_failed failed = 1
one_failed _ = 0

abbrev pub one_running : JobStatus → ℕ
one_running running = 1
one_running _ = 0

count_statuses-tally :
    (ss : List JobStatus) (t : BatchStats)
    → ((count_statuses ss t).total ≡ t.total)
      × ((count_statuses ss t).completed ≡ t.completed + tally one_completed ss)
      × ((count_statuses ss t).failed ≡ t.failed + tally one_failed ss)
      × ((count_statuses ss t).running ≡ t.running + tally one_running ss)
unfolding count_statuses count_status
count_statuses-tally [] t = (refl, omega arith, omega arith, omega arith)
count_statuses-tally (queued ∷ ss) t =
    ground (arith, count_statuses-tally ss (record t { pending = t.pending + 1 }))
count_statuses-tally (scheduled ∷ ss) t =
    ground (arith, count_statuses-tally ss (record t { pending = t.pending + 1 }))
count_statuses-tally (running ∷ ss) t =
    ground (arith, count_statuses-tally ss (record t { running = t.running + 1 }))
count_statuses-tally (completed ∷ ss) t =
    ground (arith, count_statuses-tally ss (record t { completed = t.completed + 1 }))
count_statuses-tally (failed ∷ ss) t =
    ground (arith, count_statuses-tally ss (record t { failed = t.failed + 1 }))
count_statuses-tally (partial_success ∷ ss) t = ground (arith, count_statuses-tally ss t)
count_statuses-tally (interrupted ∷ ss) t = ground (arith, count_statuses-tally ss t)

abbrev pub IsOver : JobStatus → Type 0
IsOver completed = Unit
IsOver failed = Unit
IsOver _ = ⊥

tally-bound : (ss : List JobStatus) → tally one_completed ss + tally one_failed ss ≤ length ss
tally-bound [] = omega arith
tally-bound (queued ∷ ss) = omega (arith, tally-bound ss)
tally-bound (scheduled ∷ ss) = omega (arith, tally-bound ss)
tally-bound (running ∷ ss) = omega (arith, tally-bound ss)
tally-bound (completed ∷ ss) = omega (arith, tally-bound ss)
tally-bound (failed ∷ ss) = omega (arith, tally-bound ss)
tally-bound (partial_success ∷ ss) = omega (arith, tally-bound ss)
tally-bound (interrupted ∷ ss) = omega (arith, tally-bound ss)

tally_of_over :
    (ss : List JobStatus) → All IsOver ss → tally one_completed ss + tally one_failed ss ≡ length ss
tally_of_over [] h = omega arith
tally_of_over (completed ∷ ss) h = omega (arith, tally_of_over ss h.1)
tally_of_over (failed ∷ ss) h = omega (arith, tally_of_over ss h.1)
tally_of_over (_ ∷ ss) h = absurd h.0

IsOver-of_tally :
    (ss : List JobStatus) → tally one_completed ss + tally one_failed ss ≡ length ss → All IsOver ss
IsOver-of_tally [] h = tt
IsOver-of_tally (completed ∷ ss) h = (tt, IsOver-of_tally ss (omega arith))
IsOver-of_tally (failed ∷ ss) h = (tt, IsOver-of_tally ss (omega arith))
IsOver-of_tally (_ ∷ ss) h = absurd (omega (arith, tally-bound ss))

finished_iff :
    (t : BatchStats)
    → t.completed + t.failed ≤ t.total
    → (is_finished (determine t) ≡ true) ↔ (t.completed + t.failed ≡ t.total)
unfolding determine
finished_iff t h = (λ e. ground (arith, e, h), λ e. ground (arith, e, h))

-- A batch is given a completion time exactly when each of its jobs is COMPLETED or FAILED: one job
-- that ended with PARTIAL_SUCCESS, or was interrupted, keeps it open.
pub determine-IsOver :
    (ss : List JobStatus) → (is_finished (determine (calculate_stats ss)) ≡ true) ↔ All IsOver ss
unfolding calculate_stats
determine-IsOver ss =
    let t = calculate_stats ss in
    let (total, done, lost, busy) = count_statuses-tally ss (no_stats (length ss)) in
    let iff = finished_iff t (omega (arith, tally-bound ss)) in
    (
      λ e. IsOver-of_tally ss (let sum = iff.0 e in omega arith),
      λ over. iff.1 (let sum = tally_of_over ss over in omega arith),
    )
