-- ===== src/Server/Arrives.antt =====
-- A job that is scheduled arrives in the job queue (scheduler_service.go).
use video_encoder_service.Prelude.{
  true, false, ◌⊎◌, inl, inr, ℕ, String, ◌≡◌, ◌≢◌, sym, ◌∙◌, ap, List, [], ◌∷◌, ◌++◌, some, arith,
  get_elem?, get_elem?-set, lt_of_get_elem?, str_eq, str_eq_iff, ◌==◌, set, ltb, Option-cases,
  Bool-cases, Any, Any-append_left, Any-append_right,
}
use video_encoder_service.Prelude.Dict
use mathlib.Core.List.{append_assoc, append-nil}
use mathlib.Core.Option.{some-injective}
use video_encoder_service.Types.Error.{◌>>=◌, pure, reads}
use video_encoder_service.Types.Job.{Job}
use video_encoder_service.Jobs.Repository.{load, change}
use video_encoder_service.Transcode.World.{on_jobs, time, ask}
use video_encoder_service.Server.State.{
  ScheduledJob, Server, Site, on_world, on_service, enqueue, clock,
}
use video_encoder_service.Server.Scheduler.{
  arm, schedule_job, cancel_found, cancel_scheduled_job, fire_due, forget, execute_found,
  execute_scheduled_job, get_scheduled_job,
}
use video_encoder_service.Server.Calls.{
  Call, schedules, cancels, stops, fires, executes, CanRun, invoke_all, Pends, Waits, IsArmed,
}
use video_encoder_service.Server.Armed.{invoke_all-IsArmed}
use video_encoder_service.Server.Cancelled.{IsOther, Spares}

-- No call cancels the ID or stops the scheduler.
abbrev pub Leaves : String → List Call → Type 0
Leaves id [] = Unit
Leaves id (cancels j ∷ cs) = (j ≢ id) × Leaves id cs
Leaves id (stops ∷ cs) = ⊥
Leaves id (c ∷ cs) = Leaves id cs

-- The pointer leads to a job.
abbrev pub Leads : ℕ → List Job → Type 0
Leads p heap = (job : Job) × (get_elem? heap p ≡ some job)

-- The entry is in the schedule.
abbrev Kept : String → ScheduledJob → Dict.Dict ScheduledJob → List Job → Type 0
Kept id e m heap = (Dict.lookup id m ≡ some e) × Leads e.job heap

-- The entry is in the schedule, or its job is one of those that were queued after `queue`.
abbrev Stays : String → ScheduledJob → List ℕ → List ℕ → Dict.Dict ScheduledJob → List Job → Type 0
Stays id e queue now m heap =
    (more : List ℕ) × (now ≡ queue ++ more) × (Kept id e m heap ⊎ Any (λ p. p ≡ e.job) more)

abbrev Remains : String → ScheduledJob → List ℕ → Server → Type 0
Remains id e queue s = Stays id e queue s.queue s.scheduled s.world.jobs.heap

-- Another pointer at the end of the queue.
grown :
    (id : String) (e : ScheduledJob) (queue now : List ℕ) (m n : Dict.Dict ScheduledJob)
    (heap heap' : List Job) (p : ℕ)
    → (Kept id e m heap → Kept id e n heap' ⊎ (p ≡ e.job))
    → Stays id e queue now m heap
    → Stays id e queue (now ++ p ∷ []) n heap'
grown id e queue now m n heap heap' p keeps (more, same, inl there) =
    let joined = ap (λ q. q ++ p ∷ []) same ∙ append_assoc queue more (p ∷ []) in
    elim (keeps there) [
      | inl still ↦ (more ++ p ∷ [], joined, inl still)
      | inr here ↦ (more ++ p ∷ [], joined, inr (Any-append_right _ more (p ∷ []) (inl here)))
    ]
grown id e queue now m n heap heap' p keeps (more, same, inr arrived) = (
  more ++ p ∷ [],
  ap (λ q. q ++ p ∷ []) same ∙ append_assoc queue more (p ∷ []),
  inr (Any-append_left _ more (p ∷ []) arrived),
)

-- The queue as it was.
unmoved :
    (id : String) (e : ScheduledJob) (queue now : List ℕ) (m n : Dict.Dict ScheduledJob)
    (heap : List Job)
    → (Kept id e m heap → Dict.lookup id n ≡ some e)
    → Stays id e queue now m heap
    → Stays id e queue now n heap
unmoved id e queue now m n heap keeps (more, same, inl there) =
    (more, same, inl (keeps there, there.1))
unmoved id e queue now m n heap keeps (more, same, inr arrived) = (more, same, inr arrived)

insert_keeps :
    (id j : String) (d e : ScheduledJob) (m : Dict.Dict ScheduledJob)
    → j ≢ id
    → Dict.lookup id m ≡ some e
    → Dict.lookup id (Dict.insert j d m) ≡ some e
insert_keeps id j d e m differs look = elim (Bool-cases (str_eq j id)) [
  | inl same ↦ absurd (differs ((str_eq_iff j id).0 same))
  | inr apart ↦ rw (Dict.lookup-insert {V = ScheduledJob} j id d m) (rw apart look)
]

set_keeps :
    (heap : List Job) (p q : ℕ) (old new : Job)
    → get_elem? heap p ≡ some old
    → ((job : Job) × (get_elem? heap q ≡ some job))
    → (job : Job) × (get_elem? (set heap p new) q ≡ some job)
set_keeps heap p q old new at (job, held) =
    let now_at = get_elem?-set heap p q new (lt_of_get_elem? heap p old at) in
    elim (Bool-cases (p == q)) [
      | inl same ↦ (new, rw same at now_at)
      | inr apart ↦ (job, rw apart at now_at ∙ held)
    ]

schedule-Remains :
    (site : Site) (p at : ℕ) (id : String) (e : ScheduledJob) (queue : List ℕ) (s : Server)
    → IsOther id (get_elem? s.world.jobs.heap p)
    → Remains id e queue s
    → Remains id e queue (schedule_job site p at s).1
unfolding schedule_job clock on_service on_world on_jobs time ask load ◌>>=◌ enqueue arm
schedule-Remains site p at id e queue s other r =
    elim (Option-cases (get_elem? s.world.jobs.heap p)) [
      | inl nil ↦ rw nil r
      | inr (job, held) ↦ rw held (elim (Bool-cases (ltb at (site.env.now s.world.tick))) [
        | inl past ↦
            rw past (grown id e queue s.queue s.scheduled s.scheduled _ _ p (λ there. inl there) r)
        | inr future ↦ rw future (
            let differs : job.id ≢ id = rw held at other in
            unmoved id e queue s.queue s.scheduled _ _
              (λ there. insert_keeps id job.id _ e s.scheduled differs there.0) r)
      ])
    ]

cancel-Remains :
    (id j : String) (e : ScheduledJob) (queue : List ℕ) (s : Server)
    → j ≢ id
    → Remains id e queue s
    → Remains id e queue (cancel_scheduled_job j s).1
unfolding cancel_scheduled_job cancel_found
cancel-Remains id j e queue s differs r = elim (Option-cases (Dict.lookup j s.scheduled)) [
  | inl missing ↦ rw missing r
  | inr (d, found) ↦ rw found (
      unmoved id e queue s.queue s.scheduled _ _
        (λ there. Dict.lookup-delete_other j id s.scheduled differs ∙ there.0) r)
]

same_entry :
    (id j : String) (d e : ScheduledJob) (m : Dict.Dict ScheduledJob)
    → Dict.lookup j m ≡ some d
    → Dict.lookup id m ≡ some e
    → str_eq j id ≡ true
    → d ≡ e
same_entry id j d e m found look same =
    some-injective _ _ (sym found ∙ ap (λ k. Dict.lookup k m) ((str_eq_iff j id).0 same) ∙ look)

deleted :
    (id j : String) (e : ScheduledJob) (m : Dict.Dict ScheduledJob)
    → Dict.lookup id m ≡ some e
    → str_eq j id ≡ false
    → Dict.lookup id (Dict.delete j m) ≡ some e
deleted id j e m look apart =
    Dict.lookup-delete_other j id m (λ i. let h = (str_eq_iff j id).1 i in ground (arith, h, apart))
    ∙ look

execute-Remains :
    (id j : String) (e : ScheduledJob) (queue : List ℕ) (s : Server)
    → Remains id e queue s
    → Remains id e queue (execute_scheduled_job j s).1
unfolding execute_scheduled_job get_scheduled_job execute_found forget on_service on_world on_jobs
    change enqueue ◌>>=◌ reads pure
execute-Remains id j e queue s r = elim (Option-cases (Dict.lookup j s.scheduled)) [
  | inl missing ↦ rw missing r
  | inr (d, found) ↦ rw found (elim (Option-cases (get_elem? s.world.jobs.heap d.job)) [
    | inl nil ↦ rw nil (
        unmoved id e queue s.queue s.scheduled _ _
          (λ (look, (job, held)). elim (Bool-cases (str_eq j id)) [
            | inl same ↦
                let e' = same_entry id j d e s.scheduled found look same in
                let here : get_elem? s.world.jobs.heap d.job ≡ some job =
                  ap (get_elem? s.world.jobs.heap) (ap (λ x. x.job) e') ∙ held in
                absurd (cc)
            | inr apart ↦ deleted id j e s.scheduled look apart
          ])
          r)
    | inr (job, held) ↦ rw held (
        grown id e queue s.queue s.scheduled _ s.world.jobs.heap _ d.job
          (λ (look, leads). elim (Bool-cases (str_eq j id)) [
            | inl same ↦ inr (ap (λ x. x.job) (same_entry id j d e s.scheduled found look same))
            | inr apart ↦ inl (
              deleted id j e s.scheduled look apart,
              set_keeps s.world.jobs.heap d.job e.job job _ held leads,
            )
          ])
          r)
  ])
]

kept :
    (site : Site) (id : String) (e : ScheduledJob) (queue : List ℕ) (cs : List Call) (s : Server)
    → Spares site id cs s
    → Leaves id cs
    → Remains id e queue s
    → Remains id e queue (invoke_all site cs s)
unfolding invoke_all fire_due
kept site id e queue [] s sp l r = r
kept site id e queue (schedules p at ∷ cs) s sp l r =
    kept site id e queue cs _ sp.1 l (schedule-Remains site p at id e queue s sp.0 r)
kept site id e queue (cancels j ∷ cs) s sp l r =
    kept site id e queue cs _ sp l.1 (cancel-Remains id j e queue s l.0 r)
kept site id e queue (stops ∷ cs) s sp l r = absurd l
kept site id e queue (fires now ∷ cs) s sp l r = kept site id e queue cs _ sp l r
kept site id e queue (executes before after j ∷ cs) s sp l r =
    kept site id e queue cs _ sp l
      (execute-Remains id j e queue (record s { fired = before ++ after }) r)

-- The entry waits for its timer, or for the call that the timer has started.
abbrev pub IsOnItsWay : String → ScheduledJob → Server → Type 0
IsOnItsWay id e s =
    (Dict.lookup id s.scheduled ≡ some e) × (Pends e.timer id s.timers ⊎ Waits id s.fired)

arrived_or_armed :
    (id : String) (e : ScheduledJob) (queue : List ℕ) (s : Server)
    → IsArmed s
    → Remains id e queue s
    → (more : List ℕ) × (s.queue ≡ queue ++ more) × (IsOnItsWay id e s ⊎ Any (λ p. p ≡ e.job) more)
arrived_or_armed id e queue s a (more, same, inl (look, held)) =
    (more, same, inl (look, a.armed id e look))
arrived_or_armed id e queue s a (more, same, inr arrived) = (more, same, inr arrived)

-- A scheduled job is not forgotten. After any calls of the scheduler that can be made, in any order,
-- that do not cancel the ID, schedule it again or stop the scheduler, and from a state in which each
-- entry of the schedule is armed, the job queue is as it was with pointers after it. The entry of an
-- ID whose pointer leads to a job is still in the schedule, with a timer that is pending and runs
-- executeScheduledJob on the ID or with such a call that waits already; or its pointer is one of
-- those that came to the queue.
pub invoke_all-Arrives :
    (site : Site) (cs : List Call) (s : Server) (id : String) (e : ScheduledJob)
    → CanRun site cs s
    → IsArmed s
    → Spares site id cs s
    → Leaves id cs
    → Dict.lookup id s.scheduled ≡ some e
    → Leads e.job s.world.jobs.heap
    → (more : List ℕ) × ((invoke_all site cs s).queue ≡ s.queue ++ more)
      × (IsOnItsWay id e (invoke_all site cs s) ⊎ Any (λ p. p ≡ e.job) more)
invoke_all-Arrives site cs s id e can a sp l look held =
    arrived_or_armed id e s.queue (invoke_all site cs s) (invoke_all-IsArmed site cs s can a)
      (kept site id e s.queue cs s sp l ([], sym (append-nil s.queue), inl (look, held)))
