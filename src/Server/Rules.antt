-- ===== src/Server/Rules.antt =====
-- Calls of the other services and of the scheduler keep the invariant of the service.
use video_encoder_service.Prelude.{
  ℕ, String, ◌≡◌, refl, sym, ◌∙◌, inl, inr, List, [], ◌∷◌, Option, none, some, All, All-append,
  Bool-cases, str_eq, str_eq_iff, ltb, subst,
}
use video_encoder_service.Prelude.Dict
use mathlib.Core.Option.{some-injective}
use video_encoder_service.Types.Error.{Result, ok, err, panic, M}
use video_encoder_service.Types.Triple.{
  Post, Ensures, Ensures-pure, Ensures-reads, Ensures-bind, Ensures-if, Ensures-weaken,
}
use video_encoder_service.Jobs.Repository.{Jobs, load}
use video_encoder_service.Jobs.Valid.{Holds, IsValid}
use video_encoder_service.Transcode.World.{World, ask, time}
use video_encoder_service.Transcode.Keeps.{Keeps, IsCalm}
use video_encoder_service.Transcode.Framed.{Framed}
use video_encoder_service.Server.State.{
  ScheduledJob, Server, Site, on_world, on_service, enqueue, clock, ask_site, lift_world,
}
use video_encoder_service.Server.Scheduler.{
  arm, schedule_job, forget, execute_found, execute_scheduled_job, get_scheduled_job,
}
use video_encoder_service.Server.Handlers.{load_all}
use video_encoder_service.Server.Sound.{
  Heap, IsPointer, IsSound, Grows, Stable, Stable-Holds, Knows, grown-IsSound, Calls-load,
  Calls-change, Ensures-total,
}

-- Calls that do not touch the jobs.
IsSound-world :
    (s : Server) (w : World) → w.jobs ≡ s.world.jobs → IsSound s → IsSound (record s { world = w })
IsSound-world s w h i =
    grown-IsSound s w i (subst IsValid (sym h) i.valid)
      (subst (λ j. Grows s.world.jobs.heap j.heap) (sym h) λ id p held. held)

Knows-world :
    {F : Heap → Type 0} (s : Server) (w : World)
    → w.jobs ≡ s.world.jobs
    → Knows F s
    → Knows F (record s { world = w })
Knows-world {F} s w h k = record {
  sound = IsSound-world s w h k.sound;
  known = subst (λ j. F j.heap) (sym h) k.known;
}

lifted-Post :
    {A : Type 0} {F : Heap → Type 0} (s : Server) (r : Result A × World)
    → Knows F s
    → (r.1.jobs ≡ s.world.jobs) × IsCalm r.0
    → Post (Knows F) (λ _. Knows F) (lift_world s r)
lifted-Post s (ok a, w) k (h, c) = Knows-world s w h k
lifted-Post s (err e, w) k (h, c) = Knows-world s w h k
lifted-Post s (panic, w) k (h, c) = absurd c

pub Ensures-world :
    {A : Type 0} {F : Heap → Type 0} (m : M World A)
    → ((j : Jobs) → Keeps (λ w. w.jobs ≡ j) m)
    → Ensures (Knows F) (Knows F) (λ _. Knows F) (on_world m)
unfolding on_world
Ensures-world m km = record {
  at = λ s k. lifted-Post s (m s.world) k ((km s.world.jobs).at s.world refl);
}

pub jobs-Framed : (j : Jobs) → Framed (λ w. w.jobs ≡ j)
jobs-Framed j = record {
  ticks = λ w n h. h;
  states = λ w n h. h;
  disks = λ w n h. h;
  logs = λ w e q h. h;
}

module _ {I : Server → Type 0} {F : Heap → Type 0} where
  pub Ensures-ask : {A : Type 0} (f : ℕ → A) → Ensures I (Knows F) (λ _. Knows F) (ask_site f)
  unfolding ask_site on_world ask
  Ensures-ask f = record { at = λ s k. Knows-world s _ refl k }

  pub Ensures-clock : (site : Site) → Ensures I (Knows F) (λ _. Knows F) (clock site)
  unfolding clock on_world time ask
  Ensures-clock site = record { at = λ s k. Knows-world s _ refl k }

  pub Ensures-enqueue :
      (p : ℕ) → ((h : Heap) → F h → IsPointer h p) → Ensures I (Knows F) (λ _. Knows F) (enqueue p)
  unfolding enqueue
  Ensures-enqueue p known = record {
    at = λ s k. record {
      sound =
          let i = k.sound in
          record {
            valid = i.valid;
            queued = All-append _ s.queue (p ∷ []) i.queued (known _ k.known, tt);
            entries = i.entries;
            batched = i.batched;
          };
      known = k.known;
    };
  }

  pub Ensures-load :
      (p : ℕ)
      → Stable F
      → ((h : Heap) → F h → IsPointer h p)
      → Ensures I (Knows F) (λ job. Knows (λ h. F h × Holds h job.id p)) (on_service (load p))
  Ensures-load p st known = Ensures-total _ st (Calls-load p known)

  -- What is known of the heap may be forgotten.
  pub Ensures-forget :
      {A : Type 0} {G : Heap → Type 0} {Q : A → Server → Type 0} (m : M Server A)
      → ((h : Heap) → F h → G h)
      → Ensures I (Knows G) Q m
      → Ensures I (Knows F) Q m
  Ensures-forget m f em =
      Ensures-weaken m em (λ s i. i) (λ s k. record { sound = k.sound; known = f _ k.known })
        (λ a s q. q)

pub Ensures-load_all :
    {I : Server → Type 0} {F : Heap → Type 0} (ps : List ℕ)
    → Stable F
    → ((h : Heap) → F h → All (IsPointer h) ps)
    → Ensures I (Knows F) (λ _. Knows F) (load_all ps)
unfolding load_all
Ensures-load_all [] st known = Ensures-pure [] (λ s k. k)
Ensures-load_all {F} (p ∷ ps) st known =
    Ensures-bind _ _ _ (Ensures-load p st (λ h f. (known h f).0)) λ job.
      Ensures-bind (λ _. Knows F) _ _
        (Ensures-forget _ (λ h f. f.0) (Ensures-load_all ps st (λ h f. (known h f).1)))
        (λ jobs. Ensures-pure _ (λ s k. k))

-- The scheduler.
Ensures-arm :
    {I : Server → Type 0} {F : Heap → Type 0} (id : String) (p at : ℕ)
    → ((h : Heap) → F h → Holds h id p)
    → Ensures I (Knows F) (λ _. Knows F) (arm id p at)
unfolding arm
Ensures-arm id p at known = record {
  at = λ s k. record {
    sound =
        let i = k.sound in
        record {
          valid = i.valid;
          queued = i.queued;
          entries = λ j e look.
              let split =
                Dict.lookup-insert id j
                  (record { job = p; scheduled_at = at; timer = s.next_timer }) s.scheduled in
              elim (Bool-cases (str_eq id j)) [
                | inl same ↦
                    let here = sym (rw same at split) ∙ look in
                    subst (λ e. Holds s.world.jobs.heap j e.job) (some-injective _ _ here)
                      (subst (λ x. Holds s.world.jobs.heap x p) ((str_eq_iff id j).0 same)
                        (known _ k.known))
                | inr other ↦ i.entries j e (sym (rw other at split) ∙ look)
              ];
          batched = i.batched;
        };
    known = k.known;
  };
}

pub Ensures-schedule_job :
    {I : Server → Type 0} {F : Heap → Type 0} (site : Site) (p at : ℕ)
    → Stable F
    → ((h : Heap) → F h → IsPointer h p)
    → Ensures I (Knows F) (λ _. Knows F) (schedule_job site p at)
unfolding schedule_job
Ensures-schedule_job {F} site p at st known = Ensures-bind _ _ _ (Ensures-load p st known) λ job.
    Ensures-bind _ _ _ (Ensures-clock site) λ now.
      Ensures-weaken _
        (Ensures-if (ltb at now) (enqueue p) (arm job.id p at)
          (Ensures-enqueue p (λ h f. known h f.0)) (Ensures-arm job.id p at (λ h f. f.1)))
        (λ s i. i) (λ s k. k) (λ a s k. record { sound = k.sound; known = k.known.0 })

Ensures-delete :
    {I : Server → Type 0} {F : Heap → Type 0} (id : String)
    → Ensures I (Knows F) (λ _. Knows F) (forget id)
unfolding forget
Ensures-delete id = record {
  at = λ s k. record {
    sound =
        let i = k.sound in
        record {
          valid = i.valid;
          queued = i.queued;
          entries = λ j e look. i.entries j e (Dict.lookup-delete-some id j s.scheduled look);
          batched = i.batched;
        };
    known = k.known;
  };
}

Ensures-execute_found :
    {I : Server → Type 0} (id : String) (o : Option ScheduledJob)
    → Ensures I
        (λ s. IsSound s × ((e : ScheduledJob) → o ≡ some e → Holds s.world.jobs.heap id e.job))
        (λ _. IsSound)
        (execute_found id o)
unfolding execute_found
Ensures-execute_found id none = Ensures-pure tt (λ s k. k.0)
Ensures-execute_found id (some e) =
    Ensures-weaken _
      (Ensures-bind (λ _. Knows (λ h. Holds h id e.job)) _ _ (Ensures-delete id)
        λ _.
          Ensures-bind _ _ _
            (Ensures-total _ (Stable-Holds id e.job)
              (Calls-change e.job _ (λ job. refl) (λ h held. (id, held))))
            λ _. Ensures-enqueue e.job (λ h f. (id, f.0)))
      (λ s i. i) (λ s (i, h). record { sound = i; known = h e refl }) (λ a s k. k.sound)

pub Ensures-execute :
    {I : Server → Type 0} (id : String)
    → Ensures I IsSound (λ _. IsSound) (execute_scheduled_job id)
unfolding execute_scheduled_job get_scheduled_job
Ensures-execute id =
    Ensures-bind _ _ _ (Ensures-reads (get_scheduled_job id) (λ s i. (i, λ e h. i.entries id e h)))
      (λ o. Ensures-execute_found id o)
