-- ===== src/Database.antt =====
-- ospfd/database/mod.rs: the areas of the router and the operations that `ProtocolDB` delegates to
-- them. `virtual_links` and `backbone` are read by no operation and are left out. `none` is a panic.
use rust_ospfd.Prelude.{ℕ, Bool, List, Option, some, if◌then◌else◌, get, insert, ◌>>=◌, nat_eq}
use rust_ospfd.Packet.Lsa.{Ipv4Addr, LsaHeader, Lsa, LsaIndex}
use rust_ospfd.Routing.Table.{Table, RouteChange, recalculate}
use rust_ospfd.Area.Lsdb
use rust_ospfd.Area.Lsdb.{Area, LsaDb, is_some}

-- `ProtocolDB` with `STATIC_DB`.
pub record ProtocolDb : Type 0 where
  pub areas : List (Ipv4Addr × Area)
  pub external : LsaDb
  pub external_routes : List Ipv4Addr
  pub routing_table : Table

-- `ProtocolDB::insert_area`
unfoldable pub insert_area : Ipv4Addr → ProtocolDb → ProtocolDb
insert_area id db =
    if is_some (get id db.areas) then db else record db { areas = insert id (Lsdb.new id) db.areas }

-- The delegating methods: `self.areas.get(&area_id).unwrap().$func(key)`.
unfoldable pub get_lsa : ℕ → ProtocolDb → Ipv4Addr → LsaIndex → Option (Option (Lsa × ℕ × ℕ))
get_lsa now db id key = do a ← get id db.areas; some (Lsdb.m_get_lsa now a db.external key)

unfoldable pub contains_lsa : ProtocolDb → Ipv4Addr → LsaIndex → Option Bool
contains_lsa db id key = do a ← get id db.areas; some (Lsdb.contains_lsa a db.external key)

unfoldable pub need_update : ℕ → ProtocolDb → Ipv4Addr → LsaHeader → Option Bool
need_update now db id h = do a ← get id db.areas; some (Lsdb.need_update now a db.external h)

unfoldable pub insert_lsa : ℕ → ProtocolDb → Ipv4Addr → Lsa → Option ProtocolDb
insert_lsa now db id l = do
  a ← get id db.areas
  (a', ext) ← Lsdb.insert_lsa now a db.external l
  some (record db { areas = insert id a' db.areas; external = ext })

unfoldable pub lsa_has_sent : ℕ → ProtocolDb → Ipv4Addr → Lsa → Option ProtocolDb
lsa_has_sent now db id l = do
  a ← get id db.areas
  let (a', ext) = Lsdb.lsa_has_sent now a db.external l
  some (record db { areas = insert id a' db.areas; external = ext })

-- `ProtocolDB::recalc_routing`, with the requests to the kernel.
unfoldable pub recalc_routing : ℕ → ℕ → ProtocolDb → Option (ProtocolDb × List RouteChange)
unfolding recalculate
recalc_routing now router_id db = do
  (areas, table, changes) ← recalculate now router_id db.areas db.external db.routing_table
  some (record db { areas = areas; routing_table = table }, changes)

-- `refresh_lsa`, which the timer of an LSA runs at its end.
unfoldable pub refresh_lsa :
    ℕ → ℕ → ProtocolDb → Ipv4Addr → LsaIndex → Option (ProtocolDb × List RouteChange)
unfolding recalc_routing
refresh_lsa now router_id db id key = do
  a ← get id db.areas
  let (a', ext) = Lsdb.remove_lsa a db.external key
  recalc_routing now router_id (record db { areas = insert id a' db.areas; external = ext })
