-- ===== src/Transcode/Returns.antt =====
-- Whether process comes back to its caller, by the acts of Transcode/Beside.
use video_encoder_service.Prelude.{
  ◌≡◌, ◌↔◌, refl, sym, ◌∙◌, subst, true, false, List, [], ◌∷◌, ◌⊎◌, inl, inr, Bool-cases,
}
use video_encoder_service.Types.Error.{Error, Result, ok, err, panic}
use video_encoder_service.Types.Job.{Job}
use video_encoder_service.Types.State.{JobState}
use video_encoder_service.Transcode.World.{World, Env}
use video_encoder_service.Transcode.Limits.{Settings}
use video_encoder_service.Transcode.Execute.{get_or_create_state, load_or_create}
use video_encoder_service.Transcode.Keeps.{Keeps, IsCalm, keeps_rules}
use video_encoder_service.Transcode.Framed.{Framed, Keeps-load_state, Keeps-create_state}
use video_encoder_service.Transcode.Beside.{
  Helper, monitor, heart, disk_checker, Stage, fresh, loads, works, returns, returned, Process,
  new_process, silence, Step, starts_monitor, has_state, has_no_state, acts, finishes, measures,
  pulses, within_limit, over_limit, sends, ends, Reach, here, later,
}

-- The deferred sends that are left, and the goroutines that listen for them; the disk check may
-- have returned.
abbrev Unwinds : Process → Type 0
Unwinds p =
    ((p.deferred ≡ disk_checker ∷ heart ∷ monitor ∷ []) × (p.beats ≡ true) × (p.monitors ≡ true))
    ⊎ ((p.deferred ≡ heart ∷ monitor ∷ []) × (p.beats ≡ true) × (p.monitors ≡ true))
    ⊎ ((p.deferred ≡ monitor ∷ []) × (p.monitors ≡ true))
    ⊎ (p.deferred ≡ [])

abbrev Fits : Stage → Process → Type 0
Fits fresh p = p.deferred ≡ []
Fits loads p = (p.deferred ≡ monitor ∷ []) × (p.monitors ≡ true)
Fits works p =
    (p.deferred ≡ disk_checker ∷ heart ∷ monitor ∷ []) × (p.beats ≡ true) × (p.monitors ≡ true)
Fits returns p = Unwinds p
Fits returned p = Unit

-- The disk check has returned by itself, and the send to it is still to come.
abbrev pub Abandoned : Process → Type 0
Abandoned p =
    ((p.stage ≡ works) ⊎ (p.stage ≡ returns))
    × (p.checks ≡ false)
    × (hs : List Helper) × (p.deferred ≡ disk_checker ∷ hs)

-- A state file is read or made, or there is an error.
Framed-all : Framed (λ _. Unit)
Framed-all = record {
  ticks = λ w n p. tt;
  states = λ w s p. tt;
  disks = λ w d p. tt;
  logs = λ w e q p. tt;
}

-- The send to `h` takes it off the list.
unwind :
    (h : Helper) (hs : List Helper) (p : Process)
    → p.deferred ≡ h ∷ hs
    → Unwinds p
    → Unwinds (record (silence h p) { deferred = hs })
unwind disk_checker hs p d (inl (e, b, m)) = inr (inl (cc, b, m))
unwind disk_checker hs p d (inr (inl (e, b, m))) = absurd (cc)
unwind disk_checker hs p d (inr (inr (inl (e, m)))) = absurd (cc)
unwind disk_checker hs p d (inr (inr (inr e))) = absurd (cc)
unwind heart hs p d (inl (e, b, m)) = absurd (cc)
unwind heart hs p d (inr (inl (e, b, m))) = inr (inr (inl (cc, m)))
unwind heart hs p d (inr (inr (inl (e, m)))) = absurd (cc)
unwind heart hs p d (inr (inr (inr e))) = absurd (cc)
unwind monitor hs p d (inl (e, b, m)) = absurd (cc)
unwind monitor hs p d (inr (inl (e, b, m))) = absurd (cc)
unwind monitor hs p d (inr (inr (inl (e, m)))) = inr (inr (inr cc))
unwind monitor hs p d (inr (inr (inr e))) = absurd (cc)

stage-silence : (h : Helper) (p : Process) → (silence h p).stage ≡ p.stage
stage-silence monitor p = refl
stage-silence heart p = refl
stage-silence disk_checker p = refl

Fits-unchecked : (s : Stage) (p : Process) → Fits s p → Fits s (record p { checks = false })
Fits-unchecked fresh p f = f
Fits-unchecked loads p f = f
Fits-unchecked works p f = f
Fits-unchecked returns p f = f
Fits-unchecked returned p f = f

module _ (env : Env) (u : Settings) (job : Job) where
  Keeps-loaded : (r : Error ⊎ JobState) → Keeps (λ _. Unit) (load_or_create env job r)
  unfolding load_or_create
  Keeps-loaded (inr s) = search (keeps_rules)
  Keeps-loaded (inl e) = Keeps-create_state Framed-all env job.id job.input_path job.chunk_duration

  Keeps-state : Keeps (λ _. Unit) (get_or_create_state env job)
  unfolding get_or_create_state
  Keeps-state = search (keeps_rules, Framed-all, Keeps-load_state, Keeps-loaded) depth 9

  Step-Fits :
      {p q : Process} {v w : World} → Step env u job p v q w → Fits p.stage p → Fits q.stage q
  Step-Fits (starts_monitor at) f = (rw (rw at at f), refl)
  Step-Fits (has_state at e) f = let (d, m) = rw at at f in (rw d, refl, m)
  Step-Fits (has_no_state at e) f = inr (inr (inl (rw at at f)))
  Step-Fits (acts at) f = f
  Step-Fits (finishes at) f = inl (rw at at f)
  Step-Fits (measures on) f = f
  Step-Fits (pulses on) f = f
  Step-Fits (within_limit on e) f = f
  Step-Fits {p} (over_limit on e) f = Fits-unchecked p.stage p f
  Step-Fits {p} (sends h hs at d on) f =
      subst (λ s. Fits s (record (silence h p) { deferred = hs })) (sym (stage-silence h p ∙ at))
        (unwind h hs p d (rw at at f))
  Step-Fits (ends at d) f = tt

  Reach-Fits :
      {w₀ : World} {p : Process} {w : World} → Reach env u job new_process w₀ p w → Fits p.stage p
  Reach-Fits here = refl
  Reach-Fits (later r st) = Step-Fits st (Reach-Fits r)

  -- Some acts lead to the end of process.
  abbrev pub CanReturn : Process → World → Type 0
  CanReturn p w = (q : Process) × (v : World) × Reach env u job p w q v × (q.stage ≡ returned)

  Reach-cons :
      {p q : Process} {w v : World} {r : Process} {x : World}
      → Step env u job p w q v
      → Reach env u job q v r x
      → Reach env u job p w r x
  Reach-cons st here = later here st
  Reach-cons st (later r st') = later (Reach-cons st r) st'

  before : {p q : Process} {w v : World} → Step env u job p w q v → CanReturn q v → CanReturn p w
  before st (r, x, reach, done) = (r, x, Reach-cons st reach, done)

  without_sends : (p : Process) (w : World) → p.stage ≡ returns → p.deferred ≡ [] → CanReturn p w
  without_sends p w at d = (record p { stage = returned }, w, later here (ends at d), refl)

  with_monitor :
      (p : Process) (w : World)
      → p.stage ≡ returns
      → p.deferred ≡ monitor ∷ []
      → p.monitors ≡ true
      → CanReturn p w
  with_monitor p w at d m = before (sends monitor [] at d m) (without_sends _ w at refl)

  with_heart :
      (p : Process) (w : World)
      → p.stage ≡ returns
      → p.deferred ≡ heart ∷ monitor ∷ []
      → p.beats ≡ true
      → p.monitors ≡ true
      → CanReturn p w
  with_heart p w at d b m = before (sends heart (monitor ∷ []) at d b) (with_monitor _ w at refl m)

  from_returns :
      (p : Process) (w : World) → p.stage ≡ returns → Unwinds p → (Abandoned p → ⊥) → CanReturn p w
  from_returns p w at (inl (d, b, m)) not = elim (Bool-cases p.checks) [
    | inl on ↦ before (sends disk_checker _ at d on) (with_heart _ w at refl b m)
    | inr off ↦ absurd (not (inr at, off, _, d))
  ]
  from_returns p w at (inr (inl (d, b, m))) not = with_heart p w at d b m
  from_returns p w at (inr (inr (inl (d, m)))) not = with_monitor p w at d m
  from_returns p w at (inr (inr (inr d))) not = without_sends p w at d

  from_works :
      (p : Process) (w : World) → p.stage ≡ works → Fits works p → (Abandoned p → ⊥) → CanReturn p w
  from_works p w at f not = before (finishes at) (
      from_returns (record p { stage = returns }) w refl (inl f)
        (λ (s, off, hs, d). not (inl at, off, hs, d)))

  loaded :
      (p : Process) (w : World) (x : Result JobState × World)
      → p.stage ≡ loads
      → Fits loads p
      → get_or_create_state env job w ≡ x
      → IsCalm x.0
      → CanReturn p w
  loaded p w (ok s, v) at (d, m) e calm =
      before (has_state at e) (from_works _ v refl (rw d refl, refl, m) λ a. cc (a.1))
  loaded p w (err x, v) at (d, m) e calm = before (has_no_state at e) (with_monitor _ v refl d m)
  loaded p w (panic, v) at f e calm = absurd calm

  from_loads : (p : Process) (w : World) → p.stage ≡ loads → Fits loads p → CanReturn p w
  from_loads p w at f = loaded p w (get_or_create_state env job w) at f refl (Keeps-state.at w tt).1

  from_fresh : (p : Process) (w : World) → p.stage ≡ fresh → Fits fresh p → CanReturn p w
  from_fresh p w at f = before (starts_monitor at) (from_loads _ w refl (rw f refl, refl))

  from_here :
      (s : Stage) (p : Process) (w : World)
      → p.stage ≡ s
      → Fits s p
      → (Abandoned p → ⊥)
      → CanReturn p w
  from_here fresh p w at f not = from_fresh p w at f
  from_here loads p w at f not = from_loads p w at f
  from_here works p w at f not = from_works p w at f not
  from_here returns p w at f not = from_returns p w at f not
  from_here returned p w at f not = (p, w, here, at)

  -- A process whose disk check is gone stays so, and does not return.
  Step-Abandoned :
      {p q : Process} {v w : World} → Step env u job p v q w → Abandoned p → Abandoned q
  Step-Abandoned (starts_monitor at) (inl s, off, hs, d) = absurd (cc)
  Step-Abandoned (starts_monitor at) (inr s, off, hs, d) = absurd (cc)
  Step-Abandoned (has_state at e) (inl s, off, hs, d) = absurd (cc)
  Step-Abandoned (has_state at e) (inr s, off, hs, d) = absurd (cc)
  Step-Abandoned (has_no_state at e) (s, off, hs, d) = (inr refl, off, hs, d)
  Step-Abandoned (acts at) a = a
  Step-Abandoned (finishes at) (s, off, hs, d) = (inr refl, off, hs, d)
  Step-Abandoned (measures on) a = a
  Step-Abandoned (pulses on) a = a
  Step-Abandoned (within_limit on e) a = a
  Step-Abandoned (over_limit on e) (s, off, hs, d) = (s, refl, hs, d)
  Step-Abandoned (sends monitor hs at d' on) (s, off, hs', d) = absurd (cc)
  Step-Abandoned (sends heart hs at d' on) (s, off, hs', d) = absurd (cc)
  Step-Abandoned (sends disk_checker hs at d' on) (s, off, hs', d) = absurd (cc)
  Step-Abandoned (ends at d') (s, off, hs, d) = absurd (cc)

  Reach-Abandoned :
      {p : Process} {w : World} {q : Process} {v : World}
      → Reach env u job p w q v
      → Abandoned p
      → Abandoned q
  Reach-Abandoned here a = a
  Reach-Abandoned (later r st) a = Step-Abandoned st (Reach-Abandoned r a)

  stays : {p : Process} {w : World} → CanReturn p w → Abandoned p → ⊥
  stays (q, v, r, done) a = elim (Reach-Abandoned r a).0 [ inl s ↦ cc | inr s ↦ cc ]

  -- At every point of a run of process that has started at any world, process can still return to
  -- its caller exactly when its disk check has not returned by itself: once it has, because the job
  -- was over its size limit, the deferred send to it waits for ever.
  pub Reach-CanReturn_iff :
      {w₀ : World} {p : Process} {w : World}
      → Reach env u job new_process w₀ p w
      → CanReturn p w ↔ ¬ (Abandoned p)
  Reach-CanReturn_iff {p} {w} r = (stays, from_here p.stage p w refl (Reach-Fits r))
