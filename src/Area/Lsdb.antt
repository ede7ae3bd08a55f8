-- ===== src/Area/Lsdb.antt =====
-- ospfd/area/mod.rs and ospfd/area/lsa.rs: the link state database of an area, and the database of
-- AS-external LSAs that the areas share (`STATIC_DB`). An `Instant` is a number of milliseconds. `none` is a
-- panic: an overflow of unsigned arithmetic (as in a build with overflow checks), a failed
-- `assert!` or an `unwrap` of `None`.
pub mod Insert
use rust_ospfd.Prelude.{
  ℕ, Bool, true, false, List, [], ◌∷◌, ◌++◌, Option, some, none, ◌==◌, not, ◌&&◌, ◌||◌, leb,
  if◌then◌else◌, ◌+◌, ◌-◌, ◌/◌, min, map, get, insert, remove, modify, values, filter, ◌>>=◌, ◌>>◌,
  assert,
}
use rust_ospfd.Packet.Lsa.{
  Ipv4Addr, LsaHeader, Lsa, LsaIndex, AsExternalLsa, index, index_eq, lsa_max_age, as_external_lsa,
}
use rust_ospfd.Packet.Order.{header_ge}
use rust_ospfd.Packet.Convert.{ok, err, lsa_to_external}
use rust_ospfd.Area.Nodes.{ShortPathTree}

-- The value of an `LsaDB` entry: the LSA as it came, the `LsaTimer`'s `created`, and the time at
-- which it was last sent.
pub record Entry : Type 0 where
  pub lsa : Lsa
  pub created : ℕ
  pub updated : ℕ

abbrev pub LsaDb : Type 0
LsaDb = List (LsaIndex × Entry)

pub record Area : Type 0 where
  pub area_id : Ipv4Addr
  pub lsa_database : LsaDb
  pub short_path_tree : ShortPathTree
  pub transit_capability : Bool
  pub external_routing_capability : Bool
  pub stub_default_cost : ℕ

unfoldable pub new : Ipv4Addr → Area
new id = record {
  area_id = id;
  lsa_database = [];
  short_path_tree = [];
  transit_capability = false;
  external_routing_capability = true;
  stub_default_cost = 0;
}

-- `created.elapsed().as_secs()`
abbrev pub elapsed_secs : ℕ → ℕ → ℕ
elapsed_secs now t = (now - t) / 1000

-- `LsaTimer::update_lsa_age_header`
unfoldable pub update_lsa_age_header : ℕ → ℕ → LsaHeader → LsaHeader
update_lsa_age_header now created h = record h {
  ls_age = min (h.ls_age + elapsed_secs now created) lsa_max_age;
}

-- `LsaTimer::update_lsa_age`
unfoldable pub update_lsa_age : ℕ → ℕ → Lsa → Lsa
unfolding update_lsa_age_header
update_lsa_age now created l = record l { header = update_lsa_age_header now created l.header }

-- `a.or(b)` on options.
abbrev pub or {ℓ} : {A : Type ℓ} → Option A → Option A → Option A
or (some a) b = some a
or none b = b

abbrev pub is_some {ℓ} : {A : Type ℓ} → Option A → Bool
is_some (some a) = true
is_some none = false

-- `Area::m_external_db`
unfoldable pub m_external_db : Area → LsaDb → Option LsaDb
m_external_db a db = if a.external_routing_capability then some db else none

-- `Area::m_get_lsa`. The `?` on `m_external_db` stands in the argument of `or`, which is computed
-- first: an area without the capability answers `None` for every key.
unfoldable pub m_get_lsa : ℕ → Area → LsaDb → LsaIndex → Option (Lsa × ℕ × ℕ)
unfolding m_external_db update_lsa_age
m_get_lsa now a db key = do
  ext ← m_external_db a db
  e ← or (get key a.lsa_database) (get key ext)
  some (update_lsa_age now e.created e.lsa, e.created, e.updated)

-- `Area::contains_lsa`
unfoldable pub contains_lsa : Area → LsaDb → LsaIndex → Bool
contains_lsa a db key =
    is_some (get key a.lsa_database) || (a.external_routing_capability && is_some (get key db))

-- `Area::m_insert_lsa`: the new area and the new shared database. `LsaMaxAge - ls_age` is the delay
-- of the refresh timer, and overflows for an age above `LsaMaxAge`.
unfoldable pub m_insert_lsa : ℕ → Area → LsaDb → LsaIndex → Lsa → Option (Area × LsaDb)
m_insert_lsa now a db key value =
    let entry : Entry = record { lsa = value; created = now; updated = now } in
    let shared = a.external_routing_capability && key.ls_type == as_external_lsa in
    let own =
      assert (not (key.ls_type == as_external_lsa))
      >> some (record a { lsa_database = insert key entry a.lsa_database }, db) in
    assert (leb value.header.ls_age lsa_max_age)
    >> (if shared then some (a, insert key entry db) else own)

-- `Area::m_remove_lsa` and `Area::remove_lsa`: the shared database is looked at only if the area's
-- own has no such key.
unfoldable pub remove_lsa : Area → LsaDb → LsaIndex → Area × LsaDb
remove_lsa a db key =
    if is_some (get key a.lsa_database)
    then (record a { lsa_database = remove key a.lsa_database }, db)
    else (a, if a.external_routing_capability then remove key db else db)

-- `Area::need_update`
unfoldable pub need_update : ℕ → Area → LsaDb → LsaHeader → Bool
need_update now a db h = elim (m_get_lsa now a db (index h)) [
  | none ↦ true
  | some r ↦ not (header_ge r.0.header h)
]

-- `Area::insert_lsa`
unfoldable pub insert_lsa : ℕ → Area → LsaDb → Lsa → Option (Area × LsaDb)
insert_lsa now a db value =
    if need_update now a db value.header
    then m_insert_lsa now a db (index value.header) value
    else some (a, db)

-- `Area::lsa_has_sent`
unfoldable pub lsa_has_sent : ℕ → Area → LsaDb → Lsa → Area × LsaDb
lsa_has_sent now a db l =
    let key = index l.header in
    let touch = λ (e : Entry). record e { updated = now } in
    if is_some (get key a.lsa_database)
    then (record a { lsa_database = modify key touch a.lsa_database }, db)
    else (a, if a.external_routing_capability then modify key touch db else db)

-- The headers of the entries that have not reached `LsaMaxAge`, aged to `now`.
unfoldable pub live_headers : ℕ → LsaDb → List LsaHeader
unfolding update_lsa_age_header
live_headers now db =
    filter (λ h. not (h.ls_age == lsa_max_age))
      (map (λ (e : Entry). update_lsa_age_header now e.created e.lsa.header) (values db))

-- `Area::get_all_area_lsa`
unfoldable pub get_all_area_lsa : ℕ → Area → List LsaHeader
get_all_area_lsa now a = live_headers now a.lsa_database

-- `Area::get_all_lsa`
unfoldable pub get_all_lsa : ℕ → Area → LsaDb → List LsaHeader
get_all_lsa now a db =
    if a.external_routing_capability
    then live_headers now a.lsa_database ++ live_headers now db
    else live_headers now a.lsa_database

-- `Area::get_all_external_lsa`, on the LSAs of the shared database.
unfoldable pub external_lsas : List Lsa → List (LsaHeader × AsExternalLsa)
unfolding lsa_to_external
external_lsas [] = []
external_lsas (l ∷ ls) =
    let rest = external_lsas ls in
    let converted : List (LsaHeader × AsExternalLsa) = elim (lsa_to_external l) [
      | ok p ↦ p ∷ rest
      | err e ↦ rest
    ] in
    if l.header.ls_age == lsa_max_age then rest else converted
