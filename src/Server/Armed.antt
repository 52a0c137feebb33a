-- ===== src/Server/Armed.antt =====
-- Every entry of the schedule is on its way to the job queue (scheduler_service.go).
use video_encoder_service.Prelude.{
  ◌⊎◌, inl, inr, ℕ, String, ◌≡◌, ◌≢◌, refl, sym, ◌∙◌, ap, subst, List, [], ◌∷◌, ◌++◌, Option, none,
  some, arith, leb, ◌==◌, ==_iff, str_eq, str_eq_iff, Option-cases, Bool-cases, get_elem?, ltb,
  Any-append_left, Any-append_right, Any-append_middle, Any-keep, Any-divide, Any-map,
}
use video_encoder_service.Prelude.Dict
use mathlib.Core.Option.{some-injective}
use video_encoder_service.Types.Error.{◌>>=◌, pure, reads, next}
use video_encoder_service.Jobs.Repository.{load, change}
use video_encoder_service.Transcode.World.{on_jobs, time, ask}
use video_encoder_service.Server.State.{
  ScheduledJob, Timer, Server, Site, on_world, on_service, enqueue, clock,
}
use video_encoder_service.Server.Scheduler.{
  arm, schedule_job, cancel_found, cancel_scheduled_job, stop, fire_due, forget, execute_found,
  execute_scheduled_job, get_scheduled_job,
}
use video_encoder_service.Server.Calls.{
  Call, schedules, cancels, stops, fires, executes, CanRun, invoke_all, Armed, IsArmed,
}

-- An entry after one was inserted: the new one, or an old one under another ID.
insert_entry :
    (id j : String) (e d : ScheduledJob) (m : Dict.Dict ScheduledJob)
    → Dict.lookup j (Dict.insert id e m) ≡ some d
    → ((id ≡ j) × (e ≡ d)) ⊎ (Dict.lookup j m ≡ some d)
insert_entry id j e d m look =
    let split = Dict.lookup-insert id j e m in
    elim (Bool-cases (str_eq id j)) [
      | inl same ↦
          inl ((str_eq_iff id j).0 same, some-injective _ _ (sym (rw same at split) ∙ look))
      | inr other ↦ inr (sym (rw other at split) ∙ look)
    ]

arm-IsArmed : (id : String) (p at : ℕ) (s : Server) → IsArmed s → IsArmed (arm id p at s).1
unfolding arm
arm-IsArmed id p at s a =
    let e : ScheduledJob = record { job = p; scheduled_at = at; timer = s.next_timer } in
    record {
      fresh = λ j d look. elim (insert_entry id j e d s.scheduled look) [
        | inl (i, same) ↦
            let n : s.next_timer ≡ d.timer = ap (λ x. x.timer) same in omega (arith, n)
        | inr old ↦ omega (arith, a.fresh j d old)
      ];
      distinct = λ j k d f look look' h. elim (insert_entry id j e d s.scheduled look) [
        | inl (i, same) ↦
            let n : s.next_timer ≡ d.timer = ap (λ x. x.timer) same in
            elim (insert_entry id k e f s.scheduled look') [
              | inl (i', same') ↦ sym i ∙ i'
              | inr old' ↦ absurd (omega (arith, n, h, a.fresh k f old'))
            ]
        | inr old ↦ elim (insert_entry id k e f s.scheduled look') [
          | inl (i', same') ↦
              let n : s.next_timer ≡ f.timer = ap (λ x. x.timer) same' in
              absurd (omega (arith, n, h, a.fresh j d old))
          | inr old' ↦ a.distinct j k d f old old' h
        ]
      ];
      armed = λ j d look. elim (insert_entry id j e d s.scheduled look) [
        | inl (i, same) ↦ inl (Any-append_right _ s.timers _ (inl (ap (λ x. x.timer) same, i)))
        | inr old ↦ elim (a.armed j d old) [
          | inl pends ↦ inl (Any-append_left _ s.timers _ pends)
          | inr waits ↦ inr waits
        ]
      ];
    }

-- An entry after one was deleted.
delete_entry :
    (id j : String) (e : ScheduledJob) (m : Dict.Dict ScheduledJob)
    → Dict.lookup j (Dict.delete id m) ≡ some e
    → (id ≢ j) × (Dict.lookup j m ≡ some e)
delete_entry id j e m look =
    let split = Dict.lookup-delete id j m in
    elim (Bool-cases (str_eq id j)) [
      | inl same ↦ let gone : none ≡ some e = sym (rw same at split) ∙ look in cc
      | inr other ↦ (
        λ same. let h = (str_eq_iff id j).1 same in ground (arith, h, other),
        sym (rw other at split) ∙ look,
      )
    ]

cancel-IsArmed :
    (id : String) (o : Option ScheduledJob) (s : Server)
    → Dict.lookup id s.scheduled ≡ o
    → IsArmed s
    → IsArmed (cancel_found id o s).1
unfolding cancel_found
cancel-IsArmed id none s look a = a
cancel-IsArmed id (some e) s look a = record {
  fresh = λ j d h. a.fresh j d (delete_entry id j d s.scheduled h).1;
  distinct = λ j k d f h h' n.
      a.distinct j k d f (delete_entry id j d s.scheduled h).1
        (delete_entry id k f s.scheduled h').1 n;
  armed = λ j d h.
      let (other, old) = delete_entry id j d s.scheduled h in
      elim (a.armed j d old) [
        | inr waits ↦ inr waits
        | inl pends ↦ inl (
            Any-keep _ _ s.timers
              (λ t q. elim (Bool-cases (t.number == e.timer)) [
                | inr differ ↦ rw differ
                | inl same ↦
                    let n = (==_iff t.number e.timer).0 same in
                    absurd (other (a.distinct id j e d look old (sym n ∙ q.0)))
              ])
              pends)
      ];
}

stop-IsArmed : (s : Server) → IsArmed (stop s).1
unfolding stop Dict.lookup
stop-IsArmed s = record {
  fresh = λ j d h. cc;
  distinct = λ j k d f h h' n. cc;
  armed = λ j d h. cc;
}

fire-IsArmed : (now : ℕ) (s : Server) → IsArmed s → IsArmed (fire_due now s)
unfolding fire_due
fire-IsArmed now s a = record {
  fresh = a.fresh;
  distinct = a.distinct;
  armed = λ j d look. elim (a.armed j d look) [
    | inr waits ↦ inr (Any-append_left _ s.fired _ waits)
    | inl pends ↦ elim (Any-divide _ (λ t. leb t.due now) s.timers pends) [
      | inl later ↦ inl later
      | inr due ↦
          inr (Any-append_right _ s.fired _ (Any-map _ _ (λ t. t.job_id) _ (λ t q. q.1) due))
    ]
  ];
}

-- A call of executeScheduledJob that ran, on an ID that has no entry now.
ran-Armed :
    (before after : List String) (id : String) (m m' : Dict.Dict ScheduledJob) (timers : List Timer)
    (next : ℕ)
    → ((j : String) (d : ScheduledJob)
        → Dict.lookup j m' ≡ some d
        → (id ≢ j) × (Dict.lookup j m ≡ some d))
    → Armed m timers (before ++ id ∷ after) next
    → Armed m' timers (before ++ after) next
ran-Armed before after id m m' timers next old a = record {
  fresh = λ j d h. a.fresh j d (old j d h).1;
  distinct = λ j k d f h h' n. a.distinct j k d f (old j d h).1 (old k f h').1 n;
  armed = λ j d h.
      let (other, was) = old j d h in
      elim (a.armed j d was) [
        | inl pends ↦ inl pends
        | inr waits ↦ inr (Any-append_middle _ before id after other waits)
      ];
}

schedule-IsArmed :
    (site : Site) (p at : ℕ) (s : Server) → IsArmed s → IsArmed (schedule_job site p at s).1
unfolding schedule_job clock on_service on_world on_jobs time ask load ◌>>=◌ enqueue
schedule-IsArmed site p at s a = elim (Option-cases (get_elem? s.world.jobs.heap p)) [
  | inl nil ↦ rw nil a
  | inr (job, held) ↦ rw held (elim (Bool-cases (ltb at (site.env.now s.world.tick))) [
    | inl past ↦ rw past a
    | inr future ↦ rw future (arm-IsArmed job.id p at _ a)
  ])
]

execute-IsArmed :
    (before after : List String) (id : String) (s : Server)
    → s.fired ≡ before ++ id ∷ after
    → IsArmed s
    → IsArmed (execute_scheduled_job id (record s { fired = before ++ after })).1
unfolding execute_scheduled_job get_scheduled_job execute_found forget on_service on_world on_jobs
    change enqueue ◌>>=◌ reads pure
execute-IsArmed before after id s h a =
    let a' = subst (λ f. Armed s.scheduled s.timers f s.next_timer) h a in
    let ran = ran-Armed before after id s.scheduled in
    elim (Option-cases (Dict.lookup id s.scheduled)) [
      | inl missing ↦ rw missing (
          ran s.scheduled s.timers s.next_timer
            (λ j d look. (
              λ same.
                  let gone : none ≡ some d =
                    sym missing ∙ ap (λ i. Dict.lookup i s.scheduled) same ∙ look in
                  cc,
              look,
            ))
            a')
      | inr (e, look) ↦
          let done =
            ran (Dict.delete id s.scheduled) s.timers s.next_timer
              (λ j d h. delete_entry id j d s.scheduled h) a' in
          rw look (elim (Option-cases (get_elem? s.world.jobs.heap e.job)) [
            | inl nil ↦ rw nil done
            | inr (job, held) ↦ rw held done
          ])
    ]

-- After any calls of the scheduler that can be made, in any order, from a state in which it holds,
-- each entry of the schedule has a timer of its own that is pending and runs executeScheduledJob on
-- its ID, or such a call waits already: no scheduled job is forgotten.
pub invoke_all-IsArmed :
    (site : Site) (cs : List Call) (s : Server)
    → CanRun site cs s
    → IsArmed s
    → IsArmed (invoke_all site cs s)
unfolding invoke_all cancel_scheduled_job
invoke_all-IsArmed site [] s can a = a
invoke_all-IsArmed site (schedules p at ∷ cs) s can a =
    invoke_all-IsArmed site cs _ can (schedule-IsArmed site p at s a)
invoke_all-IsArmed site (cancels id ∷ cs) s can a =
    invoke_all-IsArmed site cs _ can (cancel-IsArmed id _ s refl a)
invoke_all-IsArmed site (stops ∷ cs) s can a = invoke_all-IsArmed site cs _ can (stop-IsArmed s)
invoke_all-IsArmed site (fires now ∷ cs) s can a =
    invoke_all-IsArmed site cs _ can (fire-IsArmed now s a)
invoke_all-IsArmed site (executes before after id ∷ cs) s can a =
    invoke_all-IsArmed site cs _ can.1 (execute-IsArmed before after id s can.0 a)
