-- ===== src/Cleanup/Tidied.antt =====
-- What a run of AutoCleanup does.
use video_encoder_service.Prelude.{
  ◌⊎◌, ℕ, Bool, true, false, ◌≡◌, ◌≢◌, refl, List, ◌++◌, Option, some, ltb, leb, All, map,
}
use mathlib.Core.List.{Perm}
use mathlib.Core.List.Perm
use video_encoder_service.Types.Error.{Error}
use video_encoder_service.Types.Triple.{Ensures}
use video_encoder_service.Transcode.World.{World, ask}
use video_encoder_service.Cleanup.Service.{JobInfo, Entry, Disks, goes_before, target_usage}
use video_encoder_service.Cleanup.Order.{IsSort, InOrder}
use video_encoder_service.Cleanup.Spared.{IsUntouched, Anything, Cleans}

-- The jobs are in the order of a cleanup: no job of the second part goes before one of the first.
abbrev pub GoFirst : (JobInfo → JobInfo → Bool) → List JobInfo → List JobInfo → Type 0
GoFirst less gone left = All (λ g. All (λ l. less l g ≡ false) left) gone

-- What a run of AutoCleanup did, from the world `w₀`. The jobs are those of the directories that
-- os.ReadDir found; `gone` is what the loop tried to remove, one after another, from the world
-- `from` on.
pub record IsTidied (d : Disks) (w₀ : World) (is_emergency : Bool) (w : World) : Type 0 where
  pub now : ℕ
  pub gone : List JobInfo
  pub left : List JobInfo
  pub clocked : (k : ℕ) × (d.env.now k ≡ now)
  pub found :
      (k : ℕ) × (es : List Entry) × (d.entries k ≡ some es)
      × Perm (map (λ g. g.job_id) (gone ++ left)) (map (λ e. e.name) es)
  pub from : World
  pub untouched : IsUntouched Anything w₀ from
  pub cleans : Cleans d (target_usage d is_emergency) gone left from w
  pub spared : IsUntouched (λ j. All (λ g. g.job_id ≢ j) gone) w₀ w
  pub first : GoFirst (goes_before now is_emergency) gone left
  pub order : InOrder (goes_before now is_emergency) (gone ++ left)

module _ (d : Disks) (is_sort : IsSort d.sort) (w₀ : World) where
  abbrev Same : World → Type 0
  Same = IsUntouched Anything w₀

  -- The names of the directories are the IDs of the jobs.
  abbrev Named : List Entry → List JobInfo → World → Type 0
  Named es jobs w = Same w × (map (λ g. g.job_id) jobs ≡ map (λ e. e.name) es)

  -- The list for a cleanup is in its order, and has the jobs of the directories.
  abbrev Listed : Bool → List JobInfo → World → Type 0
  Listed is_emergency jobs w =
      Same w
      × ((now : ℕ) × ((k : ℕ) × (d.env.now k ≡ now)) × InOrder (goes_before now is_emergency) jobs)
      × ((k : ℕ) × (es : List Entry) × (d.entries k ≡ some es)
          × Perm (map (λ g. g.job_id) jobs) (map (λ e. e.name) es))

  -- An answer of the outside that is there.
  answered :
      {A : Type 0} (f : ℕ → Option A)
      → Ensures Same Same (λ o w. Same w × ((k : ℕ) × (f k ≡ o))) (ask f)
  unfolding ask
  answered f = record { at = λ w u. (record { states = u.states; dirs = u.dirs }, (w.tick, refl)) }

  -- What AutoCleanup comes to at a usage.
  abbrev pub Ran : ℕ → World → Type 0
  Ran usage t =
      ((ltb usage d.threshold_percent ≡ true) × IsUntouched Anything w₀ t)
      ⊎ ((ltb usage d.threshold_percent ≡ false) × IsTidied d w₀ (leb d.hard_limit_percent usage) t)

  abbrev pub Tidied : ℕ → World → Type 0
  Tidied n t = (usage : ℕ) × (d.usage w₀.tick ≡ some usage) × Ran usage t
