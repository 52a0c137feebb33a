-- ===== src/Sockets/Counts.antt =====
-- The counts of manager.go, and that no entry of the registry is empty.
use video_encoder_service.Prelude.{
  ℕ, suc, ◌+◌, ◌≡◌, refl, sym, ◌∙◌, ap, inl, inr, String, true, false, List, [], ◌∷◌, none, some,
  arith, length, str_eq, str_eq_iff, Option-cases, Bool-cases,
}
use video_encoder_service.Prelude.Dict
use video_encoder_service.Prelude.Dict.{Dict, IsMap}
use video_encoder_service.Sockets.Manager.{
  Conns, has_conn, put_conn, drop_conn, conns_of, add_connection, put_or_delete, remove_connection,
  get_total_connections,
}

length-drop_conn :
    (c : ℕ) (cs : Conns) → has_conn c cs ≡ true → suc (length (drop_conn c cs)) ≡ length cs
length-drop_conn c [] h = ground arith
length-drop_conn c (d ∷ ds) h = ground (arith, length-drop_conn c ds)

-- A changed entry counts in place of the old one.
total-insert :
    (id : String) (cs : Conns) (m : Dict Conns)
    → get_total_connections (Dict.insert id cs m) + length (conns_of id m)
      ≡ get_total_connections m + length cs
unfolding get_total_connections Dict.insert Dict.lookup
total-insert id cs [] = omega arith
total-insert id cs ((j, ds) ∷ m) = elim (Bool-cases (str_eq j id)) [
  | inl same ↦ rw same (omega arith)
  | inr other ↦ rw other (omega (arith, total-insert id cs m))
]

-- An entry that is not there is not deleted.
total-delete-none :
    (id : String) (m : Dict Conns)
    → Dict.lookup id m ≡ none
    → get_total_connections (Dict.delete id m) ≡ get_total_connections m
unfolding get_total_connections Dict.delete Dict.lookup
total-delete-none id [] h = refl
total-delete-none id ((j, ds) ∷ m) h = elim (Bool-cases (str_eq j id)) [
  | inl same ↦ let gone : some ds ≡ none = rw same at h in cc
  | inr other ↦ rw other (omega (arith, total-delete-none id m (rw other at h)))
]

total-delete :
    (id : String) (m : Dict Conns)
    → IsMap m
    → get_total_connections (Dict.delete id m) + length (conns_of id m) ≡ get_total_connections m
unfolding get_total_connections Dict.delete Dict.lookup
total-delete id [] h = refl
total-delete id ((j, ds) ∷ m) h = elim (Bool-cases (str_eq j id)) [
  | inl same ↦
      let gone =
        total-delete-none id m (ap (λ k. Dict.lookup k m) (sym ((str_eq_iff j id).0 same)) ∙ h.0) in
      rw same (omega (arith, gone))
  | inr other ↦ rw other (omega (arith, total-delete id m h.1))
]

-- What HandleConnection does to the registry: its start and its end.
pub data Visit : Type 0 where
  opens : (id : String) (conn : ℕ) → Visit
  closes : (id : String) (conn : ℕ) → Visit

unfoldable pub visit : Visit → Dict Conns → Dict Conns
unfolding add_connection remove_connection
visit (opens id c) m = add_connection id c m
visit (closes id c) m = remove_connection id c m

-- The connection of a start is new, and that of an end has been added.
abbrev pub CanVisit : Visit → Dict Conns → Type 0
CanVisit (opens id c) m = has_conn c (conns_of id m) ≡ false
CanVisit (closes id c) m = has_conn c (conns_of id m) ≡ true

abbrev pub CanVisitAll : List Visit → Dict Conns → Type 0
CanVisitAll [] m = Unit
CanVisitAll (v ∷ vs) m = CanVisit v m × CanVisitAll vs (visit v m)

unfoldable pub visit_all : List Visit → Dict Conns → Dict Conns
unfolding visit
visit_all [] m = m
visit_all (v ∷ vs) m = visit_all vs (visit v m)

abbrev pub opened : List Visit → ℕ
opened [] = 0
opened (opens id c ∷ vs) = suc (opened vs)
opened (closes id c ∷ vs) = opened vs

abbrev pub closed : List Visit → ℕ
closed [] = 0
closed (opens id c ∷ vs) = closed vs
closed (closes id c ∷ vs) = suc (closed vs)

open-total :
    (id : String) (c : ℕ) (m : Dict Conns)
    → has_conn c (conns_of id m) ≡ false
    → get_total_connections (add_connection id c m) ≡ suc (get_total_connections m)
unfolding add_connection
open-total id c m h =
    let sum = total-insert id (put_conn c (conns_of id m)) m in
    let longer : length (put_conn c (conns_of id m)) ≡ suc (length (conns_of id m)) = rw h in
    omega (arith, sum, longer)

put_or_delete-total :
    (id : String) (cs : Conns) (m : Dict Conns)
    → IsMap m
    → get_total_connections (put_or_delete id cs m) + length (conns_of id m)
      ≡ get_total_connections m + length cs
put_or_delete-total id [] m h = omega (arith, total-delete id m h)
put_or_delete-total id (c ∷ cs) m h = total-insert id (c ∷ cs) m

close-total :
    (id : String) (c : ℕ) (m : Dict Conns)
    → IsMap m
    → has_conn c (conns_of id m) ≡ true
    → suc (get_total_connections (remove_connection id c m)) ≡ get_total_connections m
unfolding remove_connection
close-total id c m is_map h = elim (Option-cases (Dict.lookup id m)) [
  | inl missing ↦ let no_conn : false ≡ true = rw missing at h in ground (arith, no_conn)
  | inr (cs, found) ↦
      let held : has_conn c cs ≡ true = rw found at h in
      let sum = put_or_delete-total id (drop_conn c cs) m is_map in
      let sum' = rw found at sum in rw found (omega (arith, sum', length-drop_conn c cs held))
]

put_or_delete-IsMap :
    (id : String) (cs : Conns) (m : Dict Conns) → IsMap m → IsMap (put_or_delete id cs m)
put_or_delete-IsMap id [] m h = Dict.delete-IsMap id m h
put_or_delete-IsMap id (c ∷ cs) m h = Dict.insert-IsMap id (c ∷ cs) m h

visit-IsMap : (v : Visit) (m : Dict Conns) → IsMap m → IsMap (visit v m)
unfolding visit add_connection remove_connection
visit-IsMap (opens id c) m h = Dict.insert-IsMap id _ m h
visit-IsMap (closes id c) m h = elim (Option-cases (Dict.lookup id m)) [
  | inl missing ↦ rw missing h
  | inr (cs, found) ↦ rw found (put_or_delete-IsMap id (drop_conn c cs) m h)
]

-- After any starts and ends of HandleConnection, in any order, with a new connection at each start
-- and one that is registered at each end, GetTotalConnections has grown by the starts less the
-- ends.
pub total-visit_all :
    (vs : List Visit) (m : Dict Conns)
    → IsMap m
    → CanVisitAll vs m
    → get_total_connections (visit_all vs m) + closed vs ≡ get_total_connections m + opened vs
unfolding visit_all visit
total-visit_all [] m is_map can = refl
total-visit_all (opens id c ∷ vs) m is_map can =
    omega (
      arith,
      total-visit_all vs _ (visit-IsMap (opens id c) m is_map) can.1,
      open-total id c m can.0,
    )
total-visit_all (closes id c ∷ vs) m is_map can = omega (
  arith,
  total-visit_all vs _ (visit-IsMap (closes id c) m is_map) can.1,
  close-total id c m is_map can.0,
)
