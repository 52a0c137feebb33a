-- ===== src/Dedup/Tests.antt =====
-- A restart after three calls, the second with a disk that is full.
use video_encoder_service.Prelude.{◌≡◌, List, [], ◌∷◌, none, some, str_eq, if◌then◌else◌}
use video_encoder_service.Prelude.Dict
use video_encoder_service.Dedup.Cache.{new_cache, check_duplicate, store}
use video_encoder_service.Dedup.Reload.{Call, stores, run, remembered, new_cache-run}

abbrev calls : List Call
calls = stores "abc" "job_1" none ∷ stores "def" "job_2" (some "disk full") ∷ []

new_cache-run_example :
    check_duplicate "def"
      (new_cache (store "123" "job_3" none (run calls (new_cache none none))).1.file none)
    ≡ (if str_eq "123" "def"
        then some "job_3"
        else remembered calls (λ k. Dict.lookup k (new_cache none none).hash_map) "def")
new_cache-run_example = new_cache-run calls "123" "job_3" (new_cache none none) "def"
