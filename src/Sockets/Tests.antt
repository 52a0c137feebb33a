-- ===== src/Sockets/Tests.antt =====
-- Three visits to the progress of one job.
use video_encoder_service.Prelude.{◌+◌, ◌≡◌, refl, List, [], ◌∷◌}
use video_encoder_service.Prelude.Dict
use video_encoder_service.Sockets.Manager.{get_total_connections, get_connection_count}
use video_encoder_service.Sockets.Counts.{
  Visit, opens, closes, visit, visit_all, CanVisitAll, opened, closed, total-visit_all,
}

abbrev visits : List Visit
visits = opens "job_5" 1 ∷ opens "job_5" 2 ∷ closes "job_5" 1 ∷ []

visits_can : CanVisitAll visits []
unfolding visit Dict.lookup Dict.insert
visits_can = (refl, (refl, (refl, tt)))

one_left : get_connection_count "job_5" (visit_all visits []) ≡ 1
unfolding get_connection_count visit_all Dict.lookup Dict.insert
one_left = refl

total-visit_all_example :
    get_total_connections (visit_all visits []) + closed visits
    ≡ get_total_connections [] + opened visits
total-visit_all_example = total-visit_all visits [] tt visits_can
