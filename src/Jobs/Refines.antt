-- ===== src/Jobs/Refines.antt =====
-- The methods of job_service.go against the table of Jobs/View.
use mathlib.Core.Option
use video_encoder_service.Prelude.{
  ℕ, ◌≡◌, refl, sym, ◌∙◌, ap, inl, inr, String, [], ◌∷◌, ◌++◌, Option, none, some, arith, length,
  get_elem?, str_eq, str_eq_iff, Option-cases, Bool-cases, if◌then◌else◌, get_elem?-append,
  get_elem?-append_self, lt_of_get_elem?,
}
use video_encoder_service.Prelude.Dict
use video_encoder_service.Types.Error.{Result, ok, err, ◌>>=◌, pure}
use video_encoder_service.Types.Job.{Job}
use video_encoder_service.Jobs.Repository.{Jobs, err_job_not_found}
use video_encoder_service.Jobs.Service.{
  Config, new_job, create_job, edit, delete_job, set_status, set_failed,
}
use video_encoder_service.Jobs.Valid.{
  IsValid, edit_found, edit_missing, create_job_free, create_job_taken, delete_job_found,
  delete_job_missing,
}
use video_encoder_service.Jobs.View.{
  find, Op, creates, deletes, perform, write, target, effect, answer, spec, find_bound,
  find_unbound, find-edit, find-reindex,
}

-- A job more at the end of the heap, and an index that binds `j` as before.
find-append :
    (s t : Jobs) (job : Job) (j : String)
    → IsValid s
    → t.heap ≡ s.heap ++ job ∷ []
    → Dict.lookup j t.index ≡ Dict.lookup j s.index
    → find t j ≡ find s j
find-append s t job j v grown look = elim (Option-cases (Dict.lookup j s.index)) [
  | inl missing ↦ find_unbound t j (look ∙ missing) ∙ sym (find_unbound s j missing)
  | inr (q, found) ↦
      let (job', at', named') = v.bound j q found in
      find_bound t j q (look ∙ found)
      ∙ ap (λ h. get_elem? h q) grown
      ∙ get_elem?-append s.heap (job ∷ []) q (lt_of_get_elem? s.heap q job' at')
      ∙ sym (find_bound s j q found)
]

module _ (s : Jobs) (c : Config) (input : String) (chunk now : ℕ) (v : IsValid s) where
  abbrev job : Job
  job = new_job c input chunk now

  create_effect_free :
      Dict.lookup job.id s.index ≡ none
      → (j : String)
      → find (create_job c input chunk now s).1 j ≡ spec c (creates input chunk now) (find s) j
  create_effect_free free j =
      let split = Dict.lookup-insert job.id j (length s.heap) s.index in
      rw (create_job_free s c input chunk now free) (elim (Bool-cases (str_eq job.id j)) [
        | inl same ↦
            let gone : find s j ≡ none =
              ap (find s) (sym ((str_eq_iff job.id j).0 same)) ∙ find_unbound s job.id free in
            rw (same, gone)
              (find_bound _ j (length s.heap) (rw same at split) ∙ get_elem?-append_self s.heap job)
        | inr other ↦ rw other (find-append s _ job j v refl (rw other at split))
      ])

  create_effect_taken :
      (p : ℕ)
      → Dict.lookup job.id s.index ≡ some p
      → (j : String)
      → find (create_job c input chunk now s).1 j ≡ spec c (creates input chunk now) (find s) j
  create_effect_taken p taken j =
      let (old, at, named) = v.bound job.id p taken in
      rw (create_job_taken s c input chunk now p taken) (elim (Bool-cases (str_eq job.id j)) [
        | inl same ↦
            let held : find s j ≡ some old =
              ap (find s) (sym ((str_eq_iff job.id j).0 same)) ∙ find_bound s job.id p taken ∙ at in
            rw (same, held) (find-append s _ job j v refl refl ∙ held)
        | inr other ↦ rw other (find-append s _ job j v refl refl)
      ])

  find-create :
      (j : String)
      → find (create_job c input chunk now s).1 j ≡ spec c (creates input chunk now) (find s) j
  find-create j = elim (Option-cases (Dict.lookup job.id s.index)) [
    | inl free ↦ create_effect_free free j
    | inr (p, taken) ↦ create_effect_taken p taken j
  ]

find-delete :
    (s : Jobs) (id : String) (j : String)
    → find (delete_job id s).1 j ≡ (if str_eq id j then none else find s j)
find-delete s id j = elim (Option-cases (Dict.lookup id s.index)) [
  | inl missing ↦ rw (delete_job_missing s id missing) (elim (Bool-cases (str_eq id j)) [
    | inl same ↦ rw same (ap (find s) (sym ((str_eq_iff id j).0 same)) ∙ find_unbound s id missing)
    | inr other ↦ rw other
  ])
  | inr (p, look) ↦
      let split = Dict.lookup-delete id j s.index in
      rw (delete_job_found s id p look) (elim (Bool-cases (str_eq id j)) [
        | inl same ↦ rw same (find_unbound _ j (rw same at split))
        | inr other ↦ rw other (find-reindex s.heap s.index _ j (rw other at split))
      ])
]

abbrev pub found_or_error : Option Job → Result (Unit {0})
found_or_error none = err err_job_not_found
found_or_error (some _) = ok tt

edit-answers :
    (s : Jobs) (id : String) (f : Job → Job)
    → ((j : Job) → (f j).id ≡ j.id)
    → IsValid s
    → (edit id f s).0 ≡ found_or_error (find s id)
edit-answers s id f keeps v = elim (Option-cases (Dict.lookup id s.index)) [
  | inl missing ↦ rw (edit_missing s id f missing, find_unbound s id missing)
  | inr (p, look) ↦
      let (job, at, named) = v.bound id p look in
      rw (edit_found s id f p job keeps look at named, find_bound s id p look ∙ at)
]

create-answers :
    (s : Jobs) (c : Config) (input : String) (chunk now : ℕ)
    → IsValid s
    → (perform c (creates input chunk now) s).0
      ≡ answer c (creates input chunk now) (find s (new_job c input chunk now).id)
unfolding perform ◌>>=◌ pure
create-answers s c input chunk now v =
    elim (Option-cases (Dict.lookup (new_job c input chunk now).id s.index)) [
      | inl free ↦ rw (create_job_free s c input chunk now free, find_unbound s _ free)
      | inr (p, taken) ↦
          let (old, at, named) = v.bound _ p taken in
          rw (create_job_taken s c input chunk now p taken, find_bound s _ p taken ∙ at)
    ]

pub create-state :
    (s : Jobs) (c : Config) (input : String) (chunk now : ℕ)
    → (perform c (creates input chunk now) s).1 ≡ (create_job c input chunk now s).1
unfolding perform ◌>>=◌ pure
create-state s c input chunk now =
    elim (Option-cases (Dict.lookup (new_job c input chunk now).id s.index)) [
      | inl free ↦ rw (create_job_free s c input chunk now free)
      | inr (p, taken) ↦ rw (create_job_taken s c input chunk now p taken)
    ]

delete-answers :
    (s : Jobs) (id : String) → IsValid s → (delete_job id s).0 ≡ found_or_error (find s id)
delete-answers s id v = elim (Option-cases (Dict.lookup id s.index)) [
  | inl missing ↦ rw (delete_job_missing s id missing, find_unbound s id missing)
  | inr (p, look) ↦
      let (job, at, named) = v.bound id p look in
      rw (delete_job_found s id p look, find_bound s id p look ∙ at)
]

-- The methods that look a job up and write through it.
pub record IsEdit (c : Config) (op : Op) : Type 0 where
  pub runs : (s : Jobs) → perform c op s ≡ edit (target c op) (write op) s
  pub keeps : (j : Job) → (write op j).id ≡ j.id
  pub effects : (o : Option Job) → effect c op o ≡ Option.map (write op) o
  pub answers : (o : Option Job) → answer c op o ≡ found_or_error o

-- The result of a method, and the table that it leaves, against its specification.
abbrev pub Refined : Jobs → Config → Op → Type 0
Refined s c op =
    ((perform c op s).0 ≡ answer c op (find s (target c op)))
    × ((j : String) → find (perform c op s).1 j ≡ spec c op (find s) j)

edit-Refined : (s : Jobs) (c : Config) (op : Op) → IsEdit c op → IsValid s → Refined s c op
edit-Refined s c op e v = (
  rw (e.runs s, e.answers (find s (target c op)))
      (edit-answers s (target c op) (write op) e.keeps v),
  λ j. rw (e.runs s, e.effects (find s j)) (find-edit s (target c op) (write op) e.keeps v j),
)

abbrev pub IsEditOp : Op → Type 0
IsEditOp (creates input chunk now) = ⊥
IsEditOp (deletes id) = ⊥
IsEditOp _ = Unit

pub op-IsEdit : (c : Config) (op : Op) → IsEditOp op → IsEdit c op
unfolding perform set_status set_failed
op-IsEdit c (creates input chunk now) h = absurd h
op-IsEdit c (deletes id) h = absurd h
op-IsEdit c _ h = record {
  runs = λ s. refl;
  keeps = λ j. ground arith;
  effects = λ o. ground arith;
  answers = λ o. ground arith;
}

delete-effect : (c : Config) (id : String) (o : Option Job) → effect c (deletes id) o ≡ none
delete-effect c id none = refl
delete-effect c id (some _) = refl

delete-answer :
    (c : Config) (id : String) (o : Option Job) → answer c (deletes id) o ≡ found_or_error o
delete-answer c id none = refl
delete-answer c id (some _) = refl

delete-Refined : (s : Jobs) (c : Config) (id : String) → IsValid s → Refined s c (deletes id)
unfolding perform ◌>>=◌ pure
delete-Refined s c id v = (
  rw (delete-answer c id (find s id)) (delete-answers s id v),
  λ j. rw (delete-effect c id (find s j)) (find-delete s id j),
)

-- Every method of the service does to the table what its specification says, and returns the
-- specified result, on every branch: a missing job, a taken ID, and success. No method panics.
pub perform-refines : (s : Jobs) (c : Config) (op : Op) → IsValid s → Refined s c op
perform-refines s c (creates input chunk now) v = (
  create-answers s c input chunk now v,
  λ j. rw (create-state s c input chunk now) (find-create s c input chunk now v j),
)
perform-refines s c (deletes id) v = delete-Refined s c id v
perform-refines s c op v = edit-Refined s c op (op-IsEdit c op tt) v
