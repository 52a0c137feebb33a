-- ===== src/Server/Serves.antt =====
-- What the handlers share: calls that cannot fail and keep the invariant of the service.
use video_encoder_service.Prelude.{◌⊎◌, inl, inr, ℕ, String, ◌≡◌, arith}
use video_encoder_service.Types.Error.{Error, M, pure, try}
use video_encoder_service.Types.Job.{Job, JobStatus}
use video_encoder_service.Types.Triple.{
  Ensures, Ensures-pure, Ensures-bind, Ensures-weaken, Ensures-try,
}
use video_encoder_service.Jobs.Service.{set_status, get_job}
use video_encoder_service.Jobs.Valid.{Holds}
use video_encoder_service.Server.State.{Server, Site, on_service}
use video_encoder_service.Server.Handlers.{make_job, validate}
use video_encoder_service.Server.Sound.{
  Heap, IsPointer, Stable, Stable-none, Knows, Calls-get, Calls-create, Ensures-service,
}
use video_encoder_service.Server.Rules.{Ensures-ask, Ensures-clock}

abbrev pub Nothing : Heap → Type 0
Nothing h = Unit

-- A call that cannot fail and keeps the invariant.
abbrev pub Serves : {A : Type 0} → (Heap → Type 0) → M Server A → Type 0
Serves F m = Ensures (λ _. ⊥) (Knows F) (λ _. Knows Nothing) m

pub Serves-pure : {A : Type 0} {F : Heap → Type 0} (a : A) → Serves F (pure a)
Serves-pure a = Ensures-pure a (λ s k. record { sound = k.sound; known = tt })

-- What is known where a call succeeds.
abbrev pub Outcome : {A : Type 0} → (A → Heap → Type 0) → Error ⊎ A → Heap → Type 0
Outcome R (inl e) h = Unit
Outcome R (inr a) h = R a h

-- `a, err := m` for a call of the JobService.
pub Ensures-attempt :
    {A : Type 0} {I : Server → Type 0} {F : Heap → Type 0} (R : A → Heap → Type 0) (m : M Server A)
    → Ensures (Knows F) (Knows F) (λ a. Knows (R a)) m
    → Ensures I (Knows F) (λ r. Knows (Outcome R r)) (try m)
Ensures-attempt R m em =
    Ensures-try m em (λ e s k. record { sound = k.sound; known = tt }) (λ a s k. k)

pub Ensures-get :
    (id : String)
    → Ensures
        (Knows Nothing)
        (Knows Nothing)
        (λ p. Knows (λ h. Holds h id p))
        (on_service (get_job id))
Ensures-get id =
    Ensures-weaken _ (Ensures-service _ Stable-none (Calls-get id)) (λ s k. k) (λ s k. k)
      (λ p s k. record { sound = k.sound; known = k.known.1 })

pub Stable-IsPointer : (p : ℕ) → Stable (λ h. IsPointer h p)
Stable-IsPointer p = record { grown = λ h h' g (id, held). (id, g id p held) }

pub set_status-id :
    (status : JobStatus) (now : ℕ) (job : Job) → (set_status status now job).id ≡ job.id
unfolding set_status
set_status-id status now job = ground arith

module _ (site : Site) where
  pub Ensures-make :
      {F : Heap → Type 0} (path : String) (chunk : ℕ)
      → Stable F
      → Ensures
          (Knows F)
          (Knows F)
          (λ p. Knows (λ h. F h × IsPointer h p))
          (make_job site path chunk)
  unfolding make_job
  Ensures-make path chunk st =
      Ensures-bind _ _ _ (Ensures-clock site)
        λ now. Ensures-service _ st (Calls-create site.config path chunk now)

  pub Ensures-validate :
      {I : Server → Type 0} {F : Heap → Type 0} (path : String)
      → Ensures I (Knows F) (λ _. Knows F) (validate site path)
  unfolding validate
  Ensures-validate path = Ensures-bind _ _ _ (Ensures-ask _) λ m. Ensures-pure _ (λ s k. k)

  pub Ensures-made :
      (path : String) (chunk : ℕ)
      → Ensures
          (λ _. ⊥)
          (Knows Nothing)
          (λ r. Knows (Outcome (λ p h. IsPointer h p) r))
          (try (make_job site path chunk))
  Ensures-made path chunk = Ensures-attempt _ _ (
      Ensures-weaken _ (Ensures-make path chunk Stable-none) (λ s k. k) (λ s k. k)
        (λ p s k. record { sound = k.sound; known = k.known.1 }))
