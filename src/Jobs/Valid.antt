-- ===== src/Jobs/Valid.antt =====
-- What holds of the repository between two calls (repository.go and job_service.go).
use video_encoder_service.Prelude.{
  ℕ, ◌≡◌, refl, sym, ◌∙◌, ap, inl, inr, String, List, [], ◌∷◌, ◌++◌, none, some, arith, length,
  get_elem?, set, str_eq, str_eq_iff, Option-cases, Bool-cases, ◌==◌, ==_iff, ==_refl,
  get_elem?-set, get_elem?-append, get_elem?-append_self, lt_of_get_elem?,
}
use video_encoder_service.Prelude.Dict
use video_encoder_service.Prelude.Dict.{Dict, IsMap}
use video_encoder_service.Types.Error.{pure, fail, wrapping, Result, ok, err, ◌>>=◌, wrap}
use video_encoder_service.Types.Job.{Job}
use video_encoder_service.Jobs.Repository.{
  Jobs, new_repository, create, update, err_job_not_found, err_job_already_exists,
}
use video_encoder_service.Jobs.Service.{Config, new_job, create_job, edit, delete_job}

-- The pointer `p` leads to a job that goes by `id`.
abbrev pub Holds : List Job → String → ℕ → Type 0
Holds heap id p = (job : Job) × (get_elem? heap p ≡ some job) × (job.id ≡ id)

-- No ID is bound twice, and each bound ID leads to a job of that ID.
pub record IsValid (s : Jobs) : Type 0 where
  pub is_map : IsMap s.index
  pub bound : (id : String) (p : ℕ) → Dict.lookup id s.index ≡ some p → Holds s.heap id p

pub new_repository-IsValid : IsValid new_repository
unfolding new_repository Dict.lookup
new_repository-IsValid = record { is_map = tt; bound = λ id p h. cc }

-- A write through a pointer that keeps the ID.
pub Holds-set :
    (heap : List Job) (p q : ℕ) (old new : Job) (id : String)
    → get_elem? heap p ≡ some old
    → new.id ≡ old.id
    → Holds heap id q
    → Holds (set heap p new) id q
Holds-set heap p q old new id h e (job, at, named) =
    let here = get_elem?-set heap p q new (lt_of_get_elem? heap p old h) in
    elim (Bool-cases (p == q)) [
      | inl same ↦ (new, rw (here, same), ground (arith, ap (get_elem? heap) ((==_iff p q).0 same)))
      | inr other ↦ (job, rw (here, other) at, named)
    ]

pub insert-bound :
    (heap : List Job) (index : Dict ℕ) (id : String) (p : ℕ)
    → Holds heap id p
    → ((j : String) (q : ℕ) → Dict.lookup j index ≡ some q → Holds heap j q)
    → (j : String) (q : ℕ) → Dict.lookup j (Dict.insert id p index) ≡ some q
    → Holds heap j q
insert-bound heap index id p (job, at, named) rest j q h =
    let split = Dict.lookup-insert id j p index in
    elim (Bool-cases (str_eq id j)) [
      | inl same ↦
          let q_is_p : some p ≡ some q = sym (rw same at split) ∙ h in
          (job, ground arith, named ∙ (str_eq_iff id j).0 same)
      | inr other ↦ rest j q (sym (rw other at split) ∙ h)
    ]

update_found :
    (s : Jobs) (p q : ℕ) (job : Job)
    → get_elem? s.heap p ≡ some job
    → Dict.lookup job.id s.index ≡ some q
    → update p s ≡ (ok tt, record s { index = Dict.insert job.id p s.index })
unfolding update ◌>>=◌ pure fail wrapping
update_found s p q job at look = rw (at, update) (rw (look, update))

-- What a call that writes through the pointer of an ID comes to.
pub edit_found :
    (s : Jobs) (id : String) (f : Job → Job) (p : ℕ) (job : Job)
    → ((j : Job) → (f j).id ≡ j.id)
    → Dict.lookup id s.index ≡ some p
    → get_elem? s.heap p ≡ some job
    → job.id ≡ id
    → edit id f s
      ≡ (ok tt, record { heap = set s.heap p (f job); index = Dict.insert id p s.index })
unfolding edit ◌>>=◌ pure fail wrapping
edit_found s id f p job keeps look at named =
    let here = get_elem?-set s.heap p p (f job) (lt_of_get_elem? s.heap p job at) in
    let same : (f job).id ≡ id = keeps job ∙ named in
    let after : Jobs = record s { heap = set s.heap p (f job) } in
    let done =
      update_found after p p (f job) (rw (==_refl p) at here)
        (ap (λ j. Dict.lookup j s.index) same ∙ look) in
    rw (look, edit)
      (rw (at, edit)
        (done
          ∙ ap {B = Result (Unit {0}) × Jobs}
              (λ i.
                (ok tt, record { heap = set s.heap p (f job); index = Dict.insert i p s.index }))
              same))

pub edit_missing :
    (s : Jobs) (id : String) (f : Job → Job)
    → Dict.lookup id s.index ≡ none
    → edit id f s ≡ (err err_job_not_found, s)
unfolding edit ◌>>=◌ pure fail wrapping
edit_missing s id f h = rw (h, edit)

pub edit-IsValid :
    (s : Jobs) (id : String) (f : Job → Job)
    → ((j : Job) → (f j).id ≡ j.id)
    → IsValid s
    → IsValid (edit id f s).1
edit-IsValid s id f keeps v = elim (Option-cases (Dict.lookup id s.index)) [
  | inl missing ↦ rw (edit_missing s id f missing) v
  | inr (p, look) ↦
      let (job, at, named) = v.bound id p look in
      let kept = λ (j : String) (q : ℕ) (h : Dict.lookup j s.index ≡ some q).
        Holds-set s.heap p q job (f job) j at (keeps job) (v.bound j q h) in
      rw (edit_found s id f p job keeps look at named) (record {
        is_map = Dict.insert-IsMap id p s.index v.is_map;
        bound = insert-bound (set s.heap p (f job)) s.index id p (kept id p look) kept;
      })
]

create_free :
    (s : Jobs) (p : ℕ) (job : Job)
    → get_elem? s.heap p ≡ some job
    → Dict.lookup job.id s.index ≡ none
    → create p s ≡ (ok tt, record s { index = Dict.insert job.id p s.index })
unfolding create ◌>>=◌ pure fail wrapping
create_free s p job at look = rw (at, create) (rw (look, create))

create_taken :
    (s : Jobs) (p q : ℕ) (job : Job)
    → get_elem? s.heap p ≡ some job
    → Dict.lookup job.id s.index ≡ some q
    → create p s ≡ (err err_job_already_exists, s)
unfolding create ◌>>=◌ pure fail wrapping
create_taken s p q job at look = rw (at, create) (rw (look, create))

-- What CreateJob comes to, when the ID of its job is free and when it is taken.
pub create_job_free :
    (s : Jobs) (c : Config) (input : String) (chunk now : ℕ)
    → Dict.lookup (new_job c input chunk now).id s.index ≡ none
    → create_job c input chunk now s ≡ (
      ok (length s.heap),
      record {
        heap = s.heap ++ new_job c input chunk now ∷ [];
        index = Dict.insert (new_job c input chunk now).id (length s.heap) s.index;
      },
    )
unfolding create_job ◌>>=◌ pure fail wrapping
create_job_free s c input chunk now h =
    let job = new_job c input chunk now in
    rw (
      create_free (record s { heap = s.heap ++ job ∷ [] }) (length s.heap) job
        (get_elem?-append_self s.heap job) h)

pub create_job_taken :
    (s : Jobs) (c : Config) (input : String) (chunk now p : ℕ)
    → Dict.lookup (new_job c input chunk now).id s.index ≡ some p
    → create_job c input chunk now s ≡ (
      err (wrap "failed to create job: " err_job_already_exists),
      record s { heap = s.heap ++ new_job c input chunk now ∷ [] },
    )
unfolding create_job ◌>>=◌ pure fail wrapping
create_job_taken s c input chunk now p h =
    let job = new_job c input chunk now in
    rw (
      create_taken (record s { heap = s.heap ++ job ∷ [] }) (length s.heap) p job
        (get_elem?-append_self s.heap job) h)

-- A new job at the end of the heap leaves the pointers where they were.
pub Holds-append :
    (heap more : List Job) (id : String) (p : ℕ) → Holds heap id p → Holds (heap ++ more) id p
Holds-append heap more id p (job, at, named) =
    (job, get_elem?-append heap more p (lt_of_get_elem? heap p job at) ∙ at, named)

pub create_job-IsValid :
    (s : Jobs) (c : Config) (input : String) (chunk now : ℕ)
    → IsValid s
    → IsValid (create_job c input chunk now s).1
create_job-IsValid s c input chunk now v =
    let job = new_job c input chunk now in
    let grown = λ (j : String) (q : ℕ) (h : Dict.lookup j s.index ≡ some q).
      Holds-append s.heap (job ∷ []) j q (v.bound j q h) in
    elim (Option-cases (Dict.lookup job.id s.index)) [
      | inl free ↦ rw (create_job_free s c input chunk now free) (record {
        is_map = Dict.insert-IsMap job.id (length s.heap) s.index v.is_map;
        bound =
            insert-bound (s.heap ++ job ∷ []) s.index job.id (length s.heap)
              (job, get_elem?-append_self s.heap job, refl) grown;
      })
      | inr (p, taken) ↦
          rw (create_job_taken s c input chunk now p taken)
            (record { is_map = v.is_map; bound = grown })
    ]

pub delete_job_found :
    (s : Jobs) (id : String) (p : ℕ)
    → Dict.lookup id s.index ≡ some p
    → delete_job id s ≡ (ok tt, record s { index = Dict.delete id s.index })
unfolding delete_job ◌>>=◌ pure fail wrapping
delete_job_found s id p look = rw (look, delete_job)

pub delete_job_missing :
    (s : Jobs) (id : String)
    → Dict.lookup id s.index ≡ none
    → delete_job id s ≡ (err err_job_not_found, s)
unfolding delete_job ◌>>=◌ pure fail wrapping
delete_job_missing s id look = rw (look, delete_job)

pub delete_job-IsValid : (s : Jobs) (id : String) → IsValid s → IsValid (delete_job id s).1
delete_job-IsValid s id v = elim (Option-cases (Dict.lookup id s.index)) [
  | inl missing ↦ rw (delete_job_missing s id missing) v
  | inr (p, look) ↦ rw (delete_job_found s id p look) (record {
    is_map = Dict.delete-IsMap id s.index v.is_map;
    bound = λ j q h.
        let split = Dict.lookup-delete id j s.index in
        elim (Bool-cases (str_eq id j)) [
          | inl same ↦ let gone : none ≡ some q = sym (rw same at split) ∙ h in cc
          | inr other ↦ v.bound j q (sym (rw other at split) ∙ h)
        ];
  })
]
