-- ===== src/Dedup/Cache.antt =====
-- The map of deduplication.go and the file that it is saved to. Each call has the answer of the
-- file system as an argument: none, or the text of an error. JSON of a map of strings always
-- marshals.
use video_encoder_service.Prelude.{String, [], Option, none, some}
use video_encoder_service.Prelude.Dict
use video_encoder_service.Prelude.Dict.{Dict}
use video_encoder_service.Types.Error.{message, wrap, ok, err, M, ◌>>◌}

-- A map, or what a write that failed left behind.
pub data CacheFile : Type 0 where
  whole : Dict String → CacheFile
  torn : CacheFile

pub record Cache : Type 0 where
  pub hash_map : Dict String
  pub file : Option CacheFile

-- `load` on the empty map; its error is dropped. A file that is torn or cannot be read loads
-- nothing.
abbrev pub loaded : Option CacheFile → Option String → Dict String
loaded (some (whole m)) none = m
loaded _ _ = []

-- NewDeduplicationCache
unfoldable pub new_cache : Option CacheFile → Option String → Cache
new_cache file read = record { hash_map = loaded file read; file = file }

unfoldable pub check_duplicate : String → Cache → Option String
check_duplicate hash c = Dict.lookup hash c.hash_map

unfoldable pub save : Option String → M Cache (Unit {0})
save none c = (ok tt, record c { file = some (whole c.hash_map) })
save (some text) c =
    (err (wrap "failed to write cache file: " (message text)), record c { file = some torn })

unfoldable pub put : String → String → M Cache (Unit {0})
put hash job_id c = (ok tt, record c { hash_map = Dict.insert hash job_id c.hash_map })

unfoldable pub drop : String → M Cache (Unit {0})
drop hash c = (ok tt, record c { hash_map = Dict.delete hash c.hash_map })

-- Store
unfoldable pub store : String → String → Option String → M Cache (Unit {0})
store hash job_id write = do put hash job_id; save write

-- Delete
unfoldable pub delete : String → Option String → M Cache (Unit {0})
delete hash write = do drop hash; save write
