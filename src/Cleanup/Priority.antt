-- ===== src/Cleanup/Priority.antt =====
-- Which jobs a cleanup removes first.
use video_encoder_service.Prelude.{
  ℕ, ◌≤◌, ◌≡◌, refl, Bool, true, false, [], ◌∷◌, one_of, if◌then◌else◌, ltb, arith, ◌-◌, ◌*◌,
}
use video_encoder_service.Cleanup.Service.{JobInfo, get_cleanup_priority, goes_before, day}

abbrev pub is_failed : JobInfo → Bool
is_failed job = one_of job.status ("FAILED" ∷ "failed" ∷ [])

-- The priorities, as the tests of getCleanupPriority come out.
others-le :
    (f i c e p : Bool) (d1 d3 d7 d30 : Bool)
    → f ≡ false
    → (if f
        then 100
        else if i
        then (if d1 then 90 else 50)
        else if c
        then (if e then (if d3 then 80 else 40) else (if d7 then 70 else 30))
        else if p
        then (if d7 then 60 else 25)
        else (if d30 then 50 else 20))
      ≤ 90
others-le f i c e p d1 d3 d7 d30 h = ground arith

failed_priority :
    (now : ℕ) (e : Bool) (job : JobInfo)
    → is_failed job ≡ true
    → get_cleanup_priority now e job ≡ 100
unfolding get_cleanup_priority
failed_priority now e job h = rw h refl

other_priority :
    (now : ℕ) (e : Bool) (job : JobInfo)
    → is_failed job ≡ false
    → get_cleanup_priority now e job ≤ 90
unfolding get_cleanup_priority
other_priority now e job h =
    let age = now - job.mod_time in
    others-le (is_failed job) (one_of job.status ("INTERRUPTED" ∷ "interrupted" ∷ []))
      (one_of job.status ("COMPLETED" ∷ "completed" ∷ [])) e
      (one_of job.status ("PARTIAL_SUCCESS" ∷ "partial_success" ∷ [])) (ltb day age)
      (ltb (3 * day) age) (ltb (7 * day) age) (ltb (30 * day) age) h

-- In a cleanup, in an emergency or not and whatever their ages, each job that failed goes before
-- each job that did not.
pub goes_before-failed :
    (now : ℕ) (is_emergency : Bool) (a b : JobInfo)
    → is_failed a ≡ true
    → is_failed b ≡ false
    → (goes_before now is_emergency a b ≡ true) × (goes_before now is_emergency b a ≡ false)
unfolding goes_before
goes_before-failed now is_emergency a b h k =
    let p = failed_priority now is_emergency a h in
    let q = other_priority now is_emergency b k in (ground (arith, p, q), ground (arith, p, q))
