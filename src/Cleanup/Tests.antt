-- ===== src/Cleanup/Tests.antt =====
-- AutoCleanup with an insertion sort, on a disk with two jobs.
use video_encoder_service.Prelude.{
  ◌≡◌, refl, Bool, true, false, List, [], ◌∷◌, some, if◌then◌else◌, leb,
}
use mathlib.Core.List.{Perm}
use mathlib.Core.List.Perm
use video_encoder_service.Samples.{env, settings}
use video_encoder_service.Cleanup.Service.{JobInfo, Disks, get_cleanup_priority, goes_before}
use video_encoder_service.Cleanup.Priority.{goes_before-failed}
use video_encoder_service.Cleanup.Tidied.{Tidied}

module _ {A : Type 0} (less : A → A → Bool) where
  unfoldable insert : A → List A → List A
  insert x [] = x ∷ []
  insert x (y ∷ ys) = let rest = insert x ys in if less x y then x ∷ y ∷ ys else y ∷ rest

  unfoldable sort : List A → List A
  sort [] = []
  sort (x ∷ xs) = insert x (sort xs)

-- Two directories, and a usage of 95 percent that falls to 60.
abbrev disks : Disks
disks = record {
  env = env;
  settings = settings;
  threshold_percent = 80;
  hard_limit_percent = 90;
  usage = λ n. some (if leb n 3 then 95 else 60);
  entries = λ n. some (
      record { name = "job_5"; mod_time = 3; size = 900 }
      ∷ record { name = "job_7"; mod_time = 2; size = 400 }
      ∷ []);
  sort = sort;
}

-- A job that is being transcoded is removed like one whose state cannot be read.
running_unprotected :
    get_cleanup_priority 50 false
      (record { job_id = "a"; mod_time = 10; size = 0; status = "processing" })
    ≡ get_cleanup_priority 50 false
        (record { job_id = "b"; mod_time = 10; size = 0; status = "unknown" })
unfolding get_cleanup_priority
running_unprotected = refl

abbrev failed_job : JobInfo
failed_job = record { job_id = "a"; mod_time = 40; size = 0; status = "FAILED" }

abbrev done_job : JobInfo
done_job = record { job_id = "b"; mod_time = 10; size = 0; status = "COMPLETED" }

goes_before-failed_example :
    (goes_before 50 true failed_job done_job ≡ true)
    × (goes_before 50 true done_job failed_job ≡ false)
goes_before-failed_example = goes_before-failed 50 true failed_job done_job refl refl
