-- ===== src/Jobs/Repository.antt =====
-- repository.go. A `*types.Job` is an index of the heap, which all its holders share: the
-- repository's map, the job channel, batches and timers.
use video_encoder_service.Prelude.{
  ℕ, String, Bool, List, [], ◌∷◌, ◌++◌, Option, none, some, map, length, get_elem?, set,
}
use video_encoder_service.Prelude.Dict
use video_encoder_service.Prelude.Dict.{Dict}
use video_encoder_service.Types.Error.{
  Error, Result, ok, err, panic, M, ◌>>=◌, pure, fail, new_error,
}
use video_encoder_service.Types.Job.{Job}

pub record Jobs : Type 0 where
  pub heap : List Job
  pub index : Dict ℕ

unfoldable pub new_repository : Jobs
new_repository = record { heap = []; index = [] }

-- `&types.Job{...}`: the pointer, and the heap with the job.
unfoldable pub alloc : Job → M Jobs ℕ
alloc job s = (ok (length s.heap), record s { heap = s.heap ++ job ∷ [] })

-- Reading through a pointer panics at nil, which is no index of the heap.
load_case : Option Job → Jobs → Result Job × Jobs
load_case none s = (panic, s)
load_case (some job) s = (ok job, s)

unfoldable pub load : ℕ → M Jobs Job
unfolding load_case
load p s = load_case (get_elem? s.heap p) s

-- `*p = f(*p)`
change_case : (Job → Job) → ℕ → Option Job → Jobs → Result (Unit {0}) × Jobs
change_case f p none s = (panic, s)
change_case f p (some job) s = (ok tt, record s { heap = set s.heap p (f job) })

unfoldable pub change : ℕ → (Job → Job) → M Jobs (Unit {0})
unfolding change_case
change p f s = change_case f p (get_elem? s.heap p) s

abbrev pub err_job_not_found : Error
err_job_not_found = new_error "job not found"

abbrev pub err_job_already_exists : Error
err_job_already_exists = new_error "job already exists"

bind_id : String → ℕ → M Jobs (Unit {0})
bind_id id p s = (ok tt, record s { index = Dict.insert id p s.index })

create_case : Option ℕ → String → ℕ → M Jobs (Unit {0})
unfolding bind_id
create_case (some q) id p = fail err_job_already_exists
create_case none id p = bind_id id p

unfoldable pub create : ℕ → M Jobs (Unit {0})
unfolding load create_case
create p s = (do job ← load p; create_case (Dict.lookup job.id s.index) job.id p) s

get_case : Option ℕ → M Jobs ℕ
get_case (some p) = pure p
get_case none = fail err_job_not_found

unfoldable pub get : String → M Jobs ℕ
unfolding get_case
get id s = get_case (Dict.lookup id s.index) s

update_case : Option ℕ → String → ℕ → M Jobs (Unit {0})
unfolding bind_id
update_case (some q) id p = bind_id id p
update_case none id p = fail err_job_not_found

unfoldable pub update : ℕ → M Jobs (Unit {0})
unfolding load update_case
update p s = (do job ← load p; update_case (Dict.lookup job.id s.index) job.id p) s

delete_case : Option ℕ → String → M Jobs (Unit {0})
delete_case (some q) id s = (ok tt, record s { index = Dict.delete id s.index })
delete_case none id s = (err err_job_not_found, s)

unfoldable pub delete : String → M Jobs (Unit {0})
unfolding delete_case
delete id s = delete_case (Dict.lookup id s.index) id s

-- Go leaves the order of `range r.jobs` open; it is that of the dictionary here.
unfoldable pub list : M Jobs (List ℕ)
list s = (ok (map (λ e. e.1) s.index), s)

unfoldable pub exists : String → Jobs → Bool
exists id s = Dict.contains id s.index
