-- ===== src/Sockets/Manager.antt =====
-- The connections of manager.go. A connection is its number; the set of those of a job is a list
-- with no duplicates. The mutex makes each call one step. Messages and upgrades are left out.
use video_encoder_service.Prelude.{
  ℕ, ◌+◌, String, Bool, false, ◌||◌, List, [], ◌∷◌, Option, none, some, if◌then◌else◌, ◌==◌, length,
}
use video_encoder_service.Prelude.Dict
use video_encoder_service.Prelude.Dict.{Dict}

abbrev pub Conns : Type 0
Conns = List ℕ

abbrev pub has_conn : ℕ → Conns → Bool
has_conn c [] = false
has_conn c (d ∷ ds) = d == c || has_conn c ds

-- `m[c] = true`
abbrev pub put_conn : ℕ → Conns → Conns
put_conn c cs = if has_conn c cs then cs else c ∷ cs

-- `delete(m, c)`
abbrev pub drop_conn : ℕ → Conns → Conns
drop_conn c [] = []
drop_conn c (d ∷ ds) = let rest = drop_conn c ds in if d == c then ds else d ∷ rest

abbrev pub or_empty : Option Conns → Conns
or_empty none = []
or_empty (some cs) = cs

-- The connections of a job.
abbrev pub conns_of : String → Dict Conns → Conns
conns_of id m = or_empty (Dict.lookup id m)

unfoldable pub add_connection : String → ℕ → Dict Conns → Dict Conns
add_connection id c m = Dict.insert id (put_conn c (conns_of id m)) m

abbrev pub put_or_delete : String → Conns → Dict Conns → Dict Conns
put_or_delete id [] m = Dict.delete id m
put_or_delete id (c ∷ cs) m = Dict.insert id (c ∷ cs) m

abbrev pub remove_found : String → ℕ → Option Conns → Dict Conns → Dict Conns
remove_found id c none m = m
remove_found id c (some cs) m = put_or_delete id (drop_conn c cs) m

unfoldable pub remove_connection : String → ℕ → Dict Conns → Dict Conns
remove_connection id c m = remove_found id c (Dict.lookup id m) m

unfoldable pub get_connection_count : String → Dict Conns → ℕ
get_connection_count id m = length (conns_of id m)

unfoldable pub get_total_connections : Dict Conns → ℕ
get_total_connections [] = 0
get_total_connections ((id, cs) ∷ m) = length cs + get_total_connections m

-- The connections that BroadcastProgress writes to.
unfoldable pub broadcast_to : String → Dict Conns → Conns
broadcast_to id m = conns_of id m
