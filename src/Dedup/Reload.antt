-- ===== src/Dedup/Reload.antt =====
-- A restart of the service finds the hashes that were stored.
use video_encoder_service.Prelude.{
  String, ◌≡◌, refl, ◌∙◌, ap, List, [], ◌∷◌, Option, none, some, str_eq, if◌then◌else◌,
}
use video_encoder_service.Prelude.Dict
use video_encoder_service.Prelude.Dict.{Dict}
use video_encoder_service.Types.Error.{◌>>=◌}
use video_encoder_service.Dedup.Cache.{
  Cache, new_cache, check_duplicate, save, put, drop, store, delete,
}

-- A call, with the answer of the file system to its write.
pub data Call : Type 0 where
  stores : (hash job_id : String) (write : Option String) → Call
  deletes : (hash : String) (write : Option String) → Call

abbrev pub run : List Call → Cache → Cache
run [] c = c
run (stores hash job_id write ∷ cs) c = run cs (store hash job_id write c).1
run (deletes hash write ∷ cs) c = run cs (delete hash write c).1

-- What the calls say of a hash.
abbrev pub remembered : List Call → (String → Option String) → String → Option String
remembered [] f hash = f hash
remembered (stores h id write ∷ cs) f hash =
    remembered cs (λ k. if str_eq h k then some id else f k) hash
remembered (deletes h write ∷ cs) f hash =
    remembered cs (λ k. if str_eq h k then none else f k) hash

remembered-cong :
    (cs : List Call) (f g : String → Option String)
    → ((k : String) → f k ≡ g k)
    → (hash : String) → remembered cs f hash ≡ remembered cs g hash
remembered-cong [] f g same hash = same hash
remembered-cong (stores h id write ∷ cs) f g same hash =
    remembered-cong cs _ _ (λ k. ap (λ o. if str_eq h k then some id else o) (same k)) hash
remembered-cong (deletes h write ∷ cs) f g same hash =
    remembered-cong cs _ _ (λ k. ap (λ o. if str_eq h k then none else o) (same k)) hash

stored_map :
    (h id : String) (write : Option String) (c : Cache)
    → (store h id write c).1.hash_map ≡ Dict.insert h id c.hash_map
unfolding store put save ◌>>=◌
stored_map h id none c = refl
stored_map h id (some text) c = refl

deleted_map :
    (h : String) (write : Option String) (c : Cache)
    → (delete h write c).1.hash_map ≡ Dict.delete h c.hash_map
unfolding delete drop save ◌>>=◌
deleted_map h none c = refl
deleted_map h (some text) c = refl

run-remembered :
    (cs : List Call) (c : Cache) (hash : String)
    → check_duplicate hash (run cs c) ≡ remembered cs (λ k. Dict.lookup k c.hash_map) hash
unfolding check_duplicate
run-remembered [] c hash = refl
run-remembered (stores h id write ∷ cs) c hash =
    run-remembered cs (store h id write c).1 hash
    ∙ remembered-cong cs _ _
        (λ k. ap (Dict.lookup k) (stored_map h id write c) ∙ Dict.lookup-insert h k id c.hash_map)
        hash
run-remembered (deletes h write ∷ cs) c hash =
    run-remembered cs (delete h write c).1 hash
    ∙ remembered-cong cs _ _
        (λ k. ap (Dict.lookup k) (deleted_map h write c) ∙ Dict.lookup-delete h k c.hash_map) hash

reloaded :
    (h id : String) (c : Cache)
    → (new_cache (store h id none c).1.file none).hash_map ≡ (store h id none c).1.hash_map
unfolding new_cache store put save ◌>>=◌
reloaded h id c = refl

-- After any calls of Store and Delete, those whose writes failed among them, and a Store whose
-- write succeeds, a new cache on the file that can be read answers for each hash what the calls, in
-- their order, said last of it.
pub new_cache-run :
    (cs : List Call) (h id : String) (c : Cache) (hash : String)
    → check_duplicate hash (new_cache (store h id none (run cs c)).1.file none)
      ≡ (if str_eq h hash then some id else remembered cs (λ k. Dict.lookup k c.hash_map) hash)
unfolding check_duplicate
new_cache-run cs h id c hash =
    ap (Dict.lookup hash) (reloaded h id (run cs c) ∙ stored_map h id none (run cs c))
    ∙ Dict.lookup-insert h hash id (run cs c).hash_map
    ∙ ap (λ o. if str_eq h hash then some id else o) (run-remembered cs c hash)
