-- ===== src/Jobs/History.antt =====
-- Histories of calls of the JobService, from an empty repository.
use video_encoder_service.Prelude.{◌≡◌, refl, ◌∙◌, String, List, [], ◌∷◌, if◌then◌else◌, str_eq, ap}
use video_encoder_service.Jobs.Repository.{Jobs}
use video_encoder_service.Jobs.Service.{Config}
use video_encoder_service.Jobs.Valid.{IsValid, edit-IsValid, create_job-IsValid, delete_job-IsValid}
use video_encoder_service.Jobs.View.{
  Table, find, Op, creates, deletes, perform, target, write, effect, spec,
}
use video_encoder_service.Jobs.Refines.{op-IsEdit, create-state, perform-refines}

-- The state after a call; a call that fails may have changed it too.
unfoldable pub run : Config → List Op → Jobs → Jobs
run c [] s = s
run c (op ∷ ops) s = run c ops (perform c op s).1

unfoldable pub run_table : Config → List Op → Table → Table
run_table c [] t = t
run_table c (op ∷ ops) t = run_table c ops (spec c op t)

delete-IsValid :
    (c : Config) (s : Jobs) (id : String) → IsValid s → IsValid (perform c (deletes id) s).1
unfolding perform
delete-IsValid c s id v = delete_job-IsValid s id v

pub perform-IsValid : (c : Config) (op : Op) (s : Jobs) → IsValid s → IsValid (perform c op s).1
perform-IsValid c (creates input chunk now) s v =
    rw (create-state s c input chunk now) (create_job-IsValid s c input chunk now v)
perform-IsValid c (deletes id) s v = delete-IsValid c s id v
perform-IsValid c op s v =
    let e = op-IsEdit c op tt in rw (e.runs s) (edit-IsValid s (target c op) (write op) e.keeps v)

-- After any history of calls the repository is well formed: no ID is bound twice, and the pointer
-- bound to an ID leads to a job of that ID.
pub run-IsValid : (c : Config) (ops : List Op) (s : Jobs) → IsValid s → IsValid (run c ops s)
unfolding run
run-IsValid c [] s v = v
run-IsValid c (op ∷ ops) s v = run-IsValid c ops (perform c op s).1 (perform-IsValid c op s v)

run_table-cong :
    (c : Config) (ops : List Op) (t u : Table)
    → ((j : String) → t j ≡ u j)
    → (j : String) → run_table c ops t j ≡ run_table c ops u j
unfolding run_table
run_table-cong c [] t u same j = same j
run_table-cong c (op ∷ ops) t u same j =
    run_table-cong c ops (spec c op t) (spec c op u)
      (λ i. ap (λ o. if str_eq (target c op) i then effect c op o else o) (same i)) j

-- A history of calls does to the table what the specifications of the calls do, one after another.
pub find-run :
    (c : Config) (ops : List Op) (s : Jobs)
    → IsValid s
    → (j : String) → find (run c ops s) j ≡ run_table c ops (find s) j
unfolding run run_table
find-run c [] s v j = refl
find-run c (op ∷ ops) s v j =
    find-run c ops (perform c op s).1 (perform-IsValid c op s v) j
    ∙ run_table-cong c ops (find (perform c op s).1) (spec c op (find s))
        (perform-refines s c op v).1 j
