-- ===== src/Batches/Tests.antt =====
-- The status of a batch of which one job ended with PARTIAL_SUCCESS.
use video_encoder_service.Prelude.{◌≡◌, refl, true, List, [], ◌∷◌, All, ◌↔◌}
use video_encoder_service.Types.Job.{JobStatus, completed, partial_success}
use video_encoder_service.Batches.Service.{calculate_stats, determine, is_finished, pending}
use video_encoder_service.Batches.Status.{IsOver, determine-IsOver}

abbrev ended : List JobStatus
ended = completed ∷ partial_success ∷ completed ∷ []

ended_pending : determine (calculate_stats ended) ≡ pending
unfolding determine calculate_stats
ended_pending = refl

determine-IsOver_example :
    (is_finished (determine (calculate_stats ended)) ≡ true) ↔ All IsOver ended
determine-IsOver_example = determine-IsOver ended
