-- ===== src/Jobs/View.antt =====
-- The repository as its clients see it: a table from IDs to jobs. Pointers, the heap and the order
-- of the map are forgotten, and each method of the JobService is a change of the table.
use mathlib.Core.Option
use video_encoder_service.Prelude.{
  ℕ, ◌+◌, ◌≡◌, sym, ◌∙◌, ap, inl, inr, String, true, false, List, Option, none, some, arith,
  get_elem?, set, str_eq, str_eq_iff, Option-cases, Bool-cases, if◌then◌else◌, ◌==◌, ==_iff,
  ==_refl, get_elem?-set, lt_of_get_elem?,
}
use video_encoder_service.Prelude.Dict
use video_encoder_service.Prelude.Dict.{Dict}
use video_encoder_service.Types.Error.{Result, ok, err, M, ◌>>=◌, pure, wrap}
use video_encoder_service.Types.Job.{Job, JobStatus, JobError, VideoMetadata, OutputInfo}
use video_encoder_service.Jobs.Repository.{Jobs, err_job_not_found, err_job_already_exists}
use video_encoder_service.Jobs.Service.{
  Config, new_job, create_job, edit, delete_job, set_status, set_failed, update_status,
  update_progress, set_error, set_metadata, set_hash, increment_retry,
}
use video_encoder_service.Jobs.Valid.{IsValid, edit_found, edit_missing}

abbrev pub Table : Type 0
Table = String → Option Job

find_at : List Job → Option ℕ → Option Job
find_at heap none = none
find_at heap (some p) = get_elem? heap p

-- The job that goes by an ID.
unfoldable pub find : Jobs → Table
unfolding find_at
find s id = find_at s.heap (Dict.lookup id s.index)

-- The methods of the JobService that change the repository.
pub data Op : Type 0 where
  creates : (input_path : String) (chunk_duration now : ℕ) → Op
  sets_status : (id : String) → JobStatus → (now : ℕ) → Op
  sets_progress : (id : String) (percentage : ℕ) (step : String) → Op
  sets_error : (id : String) → JobError → (now : ℕ) → Op
  sets_metadata : (id : String) → VideoMetadata → OutputInfo → Op
  sets_hash : (id hash : String) → Op
  increments_retry : (id : String) → Op
  deletes : (id : String) → Op

unfoldable pub perform : Config → Op → M Jobs (Unit {0})
unfolding update_status update_progress set_error set_metadata set_hash increment_retry
perform c (creates input chunk now) = do p ← create_job c input chunk now; pure tt
perform c (sets_status id status now) = update_status id status now
perform c (sets_progress id percentage step) = update_progress id percentage step
perform c (sets_error id e now) = set_error id e now
perform c (sets_metadata id input output) = set_metadata id input output
perform c (sets_hash id hash) = set_hash id hash
perform c (increments_retry id) = increment_retry id
perform c (deletes id) = delete_job id

-- What a method does to the job that it is called for.
abbrev pub write : Op → Job → Job
write (sets_status id status now) job = set_status status now job
write (sets_progress id percentage step) job = record job {
  progress = some (record { percentage = percentage; current_step = step });
}
write (sets_error id e now) job = set_failed e now job
write (sets_metadata id input output) job = record job { input = some input; output = some output }
write (sets_hash id hash) job = record job { input_hash = hash }
write (increments_retry id) job = record job { retries = job.retries + 1 }
write _ job = job

-- The ID that a method is called for.
abbrev pub target : Config → Op → String
target c (creates input chunk now) = (new_job c input chunk now).id
target c (sets_status id status now) = id
target c (sets_progress id percentage step) = id
target c (sets_error id e now) = id
target c (sets_metadata id input output) = id
target c (sets_hash id hash) = id
target c (increments_retry id) = id
target c (deletes id) = id

-- The specification: what becomes of the job under the target, and what the call returns. All else
-- in the table stays.
abbrev pub effect : Config → Op → Option Job → Option Job
effect c (creates input chunk now) none = some (new_job c input chunk now)
effect c (deletes id) (some job) = none
effect c op (some job) = some (write op job)
effect c _ none = none

abbrev pub answer : Config → Op → Option Job → Result (Unit {0})
answer c (creates input chunk now) none = ok tt
answer c (creates input chunk now) (some job) =
    err (wrap "failed to create job: " err_job_already_exists)
answer c op (some job) = ok tt
answer c op none = err err_job_not_found

abbrev pub spec : Config → Op → Table → Table
spec c op t j = if str_eq (target c op) j then effect c op (t j) else t j

pub find_bound :
    (s : Jobs) (id : String) (p : ℕ)
    → Dict.lookup id s.index ≡ some p
    → find s id ≡ get_elem? s.heap p
unfolding find
find_bound s id p h = rw (h, find)

pub find_unbound : (s : Jobs) (id : String) → Dict.lookup id s.index ≡ none → find s id ≡ none
unfolding find
find_unbound s id h = rw (h, find)

pub find-reindex :
    (heap : List Job) (m n : Dict ℕ) (id : String)
    → Dict.lookup id n ≡ Dict.lookup id m
    → find (record { heap = heap; index = n }) id ≡ find (record { heap = heap; index = m }) id
unfolding find
find-reindex heap m n id h = ap (find_at heap) h

module _ (s : Jobs) (id : String) (f : Job → Job) (p : ℕ) (job : Job)
    (look : Dict.lookup id s.index ≡ some p) (at : get_elem? s.heap p ≡ some job)
    (named : job.id ≡ id) (v : IsValid s) where
  abbrev written : Jobs
  written = record { heap = set s.heap p (f job); index = Dict.insert id p s.index }

  find-written_self : (j : String) → str_eq id j ≡ true → find written j ≡ Option.map f (find s j)
  find-written_self j same =
      let now_at = get_elem?-set s.heap p p (f job) (lt_of_get_elem? s.heap p job at) in
      let now_look = Dict.lookup-insert id j p s.index in
      let old : find s j ≡ some job =
        ap (find s) (sym ((str_eq_iff id j).0 same)) ∙ find_bound s id p look ∙ at in
      find_bound written j p (rw same at now_look)
      ∙ (rw (==_refl p) at now_at)
      ∙ sym (ap (Option.map f) old)

  find-written_other : (j : String) → str_eq id j ≡ false → find written j ≡ find s j
  find-written_other j other = elim (Option-cases (Dict.lookup j s.index)) [
    | inl missing ↦ find_unbound written j (now_look ∙ missing) ∙ sym (find_unbound s j missing)
    | inr (q, found) ↦
        let (job', at', named') = v.bound j q found in
        find_bound written j q (now_look ∙ found)
        ∙ rw (get_elem?-set s.heap p q (f job) (lt_of_get_elem? s.heap p job at))
            (apart q job' at' named')
        ∙ sym (find_bound s j q found)
  ]
    where
      now_look : Dict.lookup j (Dict.insert id p s.index) ≡ Dict.lookup j s.index
      now_look = rw other at (Dict.lookup-insert id j p s.index)

      apart :
          (q : ℕ) (job' : Job)
          → get_elem? s.heap q ≡ some job'
          → job'.id ≡ j
          → (if p == q then some (f job) else get_elem? s.heap q) ≡ get_elem? s.heap q
      apart q job' at' named' = elim (Bool-cases (p == q)) [
        | inl same ↦
            let one : some job ≡ some job' =
              sym at ∙ ap (get_elem? s.heap) ((==_iff p q).0 same) ∙ at' in
            let both : id ≡ j = ground (arith, one) in let yes_eq = (str_eq_iff id j).1 both in cc
        | inr differ ↦ rw differ
      ]

-- Writing through the pointer of one ID changes the job of no other ID.
pub find-edit :
    (s : Jobs) (id : String) (f : Job → Job)
    → ((j : Job) → (f j).id ≡ j.id)
    → IsValid s
    → (j : String)
    → find (edit id f s).1 j ≡ (if str_eq id j then Option.map f (find s j) else find s j)
find-edit s id f keeps v j = elim (Option-cases (Dict.lookup id s.index)) [
  | inl missing ↦ rw (edit_missing s id f missing) (elim (Bool-cases (str_eq id j)) [
    | inl same ↦
        let gone : find s j ≡ none =
          ap (find s) (sym ((str_eq_iff id j).0 same)) ∙ find_unbound s id missing in
        rw (same, gone)
    | inr other ↦ rw other
  ])
  | inr (p, look) ↦
      let (job, at, named) = v.bound id p look in
      rw (edit_found s id f p job keeps look at named) (elim (Bool-cases (str_eq id j)) [
        | inl same ↦ rw same (find-written_self s id f p job look at named v j same)
        | inr other ↦ rw other (find-written_other s id f p job look at named v j other)
      ])
]
