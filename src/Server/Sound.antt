-- ===== src/Server/Sound.antt =====
-- The invariant of the service: every pointer that its parts hold leads to a job. Calls of the
-- services keep it, with what is known of the jobs that a handler holds.
use video_encoder_service.Prelude.{
  inl, inr, ℕ, String, ◌≡◌, refl, List, [], ◌∷◌, some, get_elem?, set, All, get_elem?-append_self,
  Option-cases,
}
use video_encoder_service.Prelude.Dict
use video_encoder_service.Prelude.Dict.{Dict}
use video_encoder_service.Types.Error.{Result, ok, err, panic, M, pure, fail}
use video_encoder_service.Types.Job.{Job}
use video_encoder_service.Types.Triple.{Post, Ensures, Ensures-weaken}
use video_encoder_service.Jobs.Repository.{Jobs, load, get, change, list}
use video_encoder_service.Jobs.Service.{
  Config, new_job, create_job, get_job, delete_job, list_jobs, edit,
}
use video_encoder_service.Jobs.Valid.{
  IsValid, Holds, Holds-set, Holds-append, edit_found, edit_missing, edit-IsValid, create_job_free,
  create_job_taken, create_job-IsValid, delete_job_found, delete_job_missing, delete_job-IsValid,
}
use video_encoder_service.Transcode.World.{World, on_jobs, lift}
use video_encoder_service.Batches.Service.{Batch}
use video_encoder_service.Server.State.{ScheduledJob, Server, on_world, on_service, lift_world}

abbrev pub Heap : Type 0
Heap = List Job

-- A pointer that leads to a job.
abbrev pub IsPointer : Heap → ℕ → Type 0
IsPointer heap p = (id : String) × Holds heap id p

-- The jobs stay where they are, and keep their IDs.
abbrev pub Grows : Heap → Heap → Type 0
Grows h h' = (id : String) (p : ℕ) → Holds h id p → Holds h' id p

pub record IsSound (s : Server) : Type 0 where
  pub valid : IsValid s.world.jobs
  pub queued : All (IsPointer s.world.jobs.heap) s.queue
  pub entries :
      (id : String) (e : ScheduledJob)
      → Dict.lookup id s.scheduled ≡ some e
      → Holds s.world.jobs.heap id e.job
  pub batched :
      (id : String) (b : Batch)
      → Dict.lookup id s.batches ≡ some b
      → All (IsPointer s.world.jobs.heap) b.jobs

-- What is known of the heap, and stays true as it grows.
pub record Stable (F : Heap → Type 0) : Type 0 where
  pub grown : (h h' : Heap) → Grows h h' → F h → F h'

pub All-grown :
    (h h' : Heap) (ps : List ℕ) → Grows h h' → All (IsPointer h) ps → All (IsPointer h') ps
All-grown h h' [] g a = tt
All-grown h h' (p ∷ ps) g a = let (id, held) = a.0 in ((id, g id p held), All-grown h h' ps g a.1)

pub Stable-none : Stable (λ _. Unit)
Stable-none = record { grown = λ h h' g u. tt }

pub Stable-Holds : (id : String) (p : ℕ) → Stable (λ h. Holds h id p)
Stable-Holds id p = record { grown = λ h h' g held. g id p held }

pub Stable-pointers : (ps : List ℕ) → Stable (λ h. All (IsPointer h) ps)
Stable-pointers ps = record { grown = λ h h' g a. All-grown h h' ps g a }

pub Stable-both : {F G : Heap → Type 0} → Stable F → Stable G → Stable (λ h. F h × G h)
Stable-both f g = record { grown = λ h h' grow (a, b). (f.grown h h' grow a, g.grown h h' grow b) }

pub record Knows (F : Heap → Type 0) (s : Server) : Type 0 where
  pub sound : IsSound s
  pub known : F s.world.jobs.heap

pub grown-IsSound :
    (s : Server) (w : World)
    → IsSound s
    → IsValid w.jobs
    → Grows s.world.jobs.heap w.jobs.heap
    → IsSound (record s { world = w })
grown-IsSound s w i v g = record {
  valid = v;
  queued = All-grown _ _ s.queue g i.queued;
  entries = λ id e h. g id e.job (i.entries id e h);
  batched = λ id b h. All-grown _ _ b.jobs g (i.batched id b h);
}

-- A call of the JobService: the repository stays well formed and its jobs where they are.
abbrev pub After : Jobs → Jobs → Type 0
After j j' = IsValid j' × Grows j.heap j'.heap

-- `E` holds where the call can fail.
pub record Calls {A : Type 0} (E : Type 0) (F : Heap → Type 0) (R : A → Heap → Type 0)
    (m : M Jobs A) : Type 0 where
  pub at :
      (j : Jobs)
      → IsValid j
      → F j.heap
      → Post (λ j'. E × After j j') (λ a j'. After j j' × R a j'.heap) (m j)

lifted_jobs :
    {A : Type 0} (E : Type 0) {F : Heap → Type 0} (R : A → Heap → Type 0) (s : Server)
    (r : Result A × Jobs)
    → Stable F
    → Knows F s
    → Post (λ j. E × After s.world.jobs j) (λ a j. After s.world.jobs j × R a j.heap) r
    → Post (λ t. E × Knows F t) (λ a. Knows (λ h. F h × R a h)) (lift_world s (lift s.world r))
lifted_jobs E R s (ok a, j) st k ((v, g), x) = record {
  sound = grown-IsSound s _ k.sound v g;
  known = (st.grown _ _ g k.known, x);
}
lifted_jobs E R s (err e, j) st k (c, (v, g)) =
    (c, record { sound = grown-IsSound s _ k.sound v g; known = st.grown _ _ g k.known })
lifted_jobs E R s (panic, j) st k h = absurd h

service :
    {A E : Type 0} {F : Heap → Type 0} {R : A → Heap → Type 0} (m : M Jobs A)
    → Stable F
    → Calls E F R m
    → Ensures (λ s. E × Knows F s) (Knows F) (λ a. Knows (λ h. F h × R a h)) (on_service m)
unfolding on_service on_world on_jobs
service {E} {R} m st c = record {
  at = λ s k. lifted_jobs E R s (m s.world.jobs) st k (c.at s.world.jobs k.sound.valid k.known);
}

pub Ensures-service :
    {A : Type 0} {F : Heap → Type 0} {R : A → Heap → Type 0} (m : M Jobs A)
    → Stable F
    → Calls Unit F R m
    → Ensures (Knows F) (Knows F) (λ a. Knows (λ h. F h × R a h)) (on_service m)
Ensures-service m st c = Ensures-weaken _ (service m st c) (λ s e. e.1) (λ s k. k) (λ a s k. k)

-- A call that cannot fail.
pub Ensures-total :
    {A : Type 0} {I : Server → Type 0} {F : Heap → Type 0} {R : A → Heap → Type 0} (m : M Jobs A)
    → Stable F
    → Calls ⊥ F R m
    → Ensures I (Knows F) (λ a. Knows (λ h. F h × R a h)) (on_service m)
Ensures-total m st c = Ensures-weaken _ (service m st c) (λ s e. absurd e.0) (λ s k. k) (λ a s k. k)

-- The methods.
same : (j : Jobs) → Grows j.heap j.heap
same j id p held = held

pub Calls-load :
    {F : Heap → Type 0} (p : ℕ)
    → ((h : Heap) → F h → IsPointer h p)
    → Calls ⊥ F (λ job h. Holds h job.id p) (load p)
unfolding load
Calls-load p known = record {
  at = λ j v f. let (id, (job, at, named)) = known j.heap f in rw at ((v, same j), (job, at, refl));
}

pub Calls-get : {F : Heap → Type 0} (id : String) → Calls Unit F (λ p h. Holds h id p) (get_job id)
unfolding get_job get pure fail
Calls-get id = record {
  at = λ j v f. elim (Option-cases (Dict.lookup id j.index)) [
    | inl missing ↦ rw missing (tt, (v, same j))
    | inr (p, look) ↦ rw look ((v, same j), v.bound id p look)
  ];
}

set-Grows :
    (h : Heap) (p : ℕ) (old new : Job)
    → get_elem? h p ≡ some old
    → new.id ≡ old.id
    → Grows h (set h p new)
set-Grows h p old new at named id q held = Holds-set h p q old new id at named held

pub Calls-edit :
    {F : Heap → Type 0} (id : String) (f : Job → Job)
    → ((job : Job) → (f job).id ≡ job.id)
    → Calls Unit F (λ _ _. Unit) (edit id f)
Calls-edit id f keeps = record {
  at = λ j v known. elim (Option-cases (Dict.lookup id j.index)) [
    | inl missing ↦ rw (edit_missing j id f missing) (tt, (v, same j))
    | inr (p, look) ↦
        let (job, at, named) = v.bound id p look in
        let w = edit-IsValid j id f keeps v in
        let done = edit_found j id f p job keeps look at named in
        rw done ((rw done at w, set-Grows j.heap p job (f job) at (keeps job)), tt)
  ];
}

pub Calls-change :
    {F : Heap → Type 0} (p : ℕ) (f : Job → Job)
    → ((job : Job) → (f job).id ≡ job.id)
    → ((h : Heap) → F h → IsPointer h p)
    → Calls ⊥ F (λ _ _. Unit) (change p f)
unfolding change
Calls-change p f keeps known = record {
  at = λ j v k.
      let (id, (job, at, named)) = known j.heap k in
      let g = set-Grows j.heap p job (f job) at (keeps job) in
      rw at ((record { is_map = v.is_map; bound = λ i q h. g i q (v.bound i q h) }, g), tt);
}

pub Calls-create :
    {F : Heap → Type 0} (c : Config) (input : String) (chunk now : ℕ)
    → Calls Unit F (λ p h. IsPointer h p) (create_job c input chunk now)
Calls-create c input chunk now = record {
  at = λ j v f.
      let job = new_job c input chunk now in
      let valid = create_job-IsValid j c input chunk now v in
      let grows = λ (id : String) (q : ℕ) (held : Holds j.heap id q).
        Holds-append j.heap (job ∷ []) id q held in
      elim (Option-cases (Dict.lookup job.id j.index)) [
        | inl free ↦
            let done = create_job_free j c input chunk now free in
            rw done
              ((rw done at valid, grows), (job.id, (job, get_elem?-append_self j.heap job, refl)))
        | inr (p, taken) ↦
            let done = create_job_taken j c input chunk now p taken in
            rw done (tt, (rw done at valid, grows))
      ];
}

pub Calls-delete : {F : Heap → Type 0} (id : String) → Calls Unit F (λ _ _. Unit) (delete_job id)
Calls-delete id = record {
  at = λ j v f.
      let valid = delete_job-IsValid j id v in
      elim (Option-cases (Dict.lookup id j.index)) [
        | inl missing ↦ rw (delete_job_missing j id missing) (tt, (v, same j))
        | inr (p, look) ↦
            let done = delete_job_found j id p look in rw done ((rw done at valid, same j), tt)
      ];
}

pub Calls-list : {F : Heap → Type 0} → Calls ⊥ F (λ ps h. All (IsPointer h) ps) list_jobs
unfolding list_jobs list
Calls-list = record {
  at = λ j v f. (
    (v, same j),
    Dict.values-All (IsPointer j.heap) j.index v.is_map λ id p h. (id, v.bound id p h),
  );
}
