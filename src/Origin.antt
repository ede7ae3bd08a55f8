-- ===== src/Origin.antt =====
-- ospfd/gen_lsa.rs: the LSAs that the router makes itself. `none` is a panic. The log line for a
-- loopback interface is left out.
pub mod Same
pub mod Bodies
pub mod Newer
pub mod Invariant
use rust_ospfd.Prelude.{
  ℕ, zero, suc, Bool, true, false, List, [], ◌∷◌, ◌++◌, Option, some, none, ◌==◌, not, ◌&&◌, ◌||◌,
  ltb, if◌then◌else◌, ◌+◌, ◌%◌, ◌^◌, map, get, filter, values, contains, nat_eq, is_empty, length,
  ◌>>=◌, ◌>>◌, assert,
}
use rust_ospfd.Prelude.Int.{ℤ, pos, negsuc}
use rust_ospfd.Packet.Lsa.{
  Ipv4Addr, LsaHeader, Lsa, LsaData, RouterLsa, RouterLsaLink, NetworkLsa, SummaryLsa, index,
  ls_infinity, ls_refresh_time, router_lsa, network_lsa, summary_ip_lsa, summary_asbr_lsa,
  transit_link, stub_link,
}
use rust_ospfd.Packet.Types.{option_e, backbone_area}
use rust_ospfd.Packet.Convert.{Converted, router_to_lsa, network_to_lsa, summary_to_lsa}
use rust_ospfd.Packet.Checksum.{update_length, update_checksum}
use rust_ospfd.Neighbor.State.{Neighbor, full, eq_state}
use rust_ospfd.Neighbor.Event.{Env}
use rust_ospfd.Interface.State.{Interface, NetType, broadcast, nbma, is_dr}
use rust_ospfd.Interface.Event.{is_down, is_loopback}
use rust_ospfd.Routing.{
  RoutingTableItem, RoutingTableItemType, RoutingTablePathType, area_internal, area_external,
  as_external_t1, as_external_t2,
}
use rust_ospfd.Routing.Table.{RouteChange}
use rust_ospfd.Area.Lsdb.{is_some}
use rust_ospfd.Area.Routes.{unwrap}
use rust_ospfd.Database
use rust_ospfd.Database.{ProtocolDb, recalc_routing}
use rust_ospfd.Sender.{World}
use rust_ospfd.Flooding.{Interfaces, flooding}
use rust_ospfd.Origin.Same.{same_body}
use rust_ospfd.Origin.Bodies.{links_of, router_body, network_body, summaries}

-- `InterfacesGuard::iter`
abbrev pub all_interfaces : Interfaces → List Interface
all_interfaces s = s.me ∷ s.other

abbrev pub log_changes : List RouteChange → List RouteChange → List RouteChange
log_changes [] log = log
log_changes (c ∷ cs) log = log_changes cs (c ∷ log)

-- `ProtocolDB::get().recalc_routing()`
unfoldable pub recalc : Env → World → Option World
recalc env w = do
  (db, changes) ← recalc_routing env.now env.router_id w.db
  some (record w { db = db; routes = log_changes changes w.routes })

-- `InitialSequenceNumber` and `MaxSequenceNumber`, and the next number.
abbrev pub initial_sequence_number : ℤ
initial_sequence_number = negsuc 0x7fff_fffe

abbrev pub is_max_sequence_number : ℤ → Bool
is_max_sequence_number (pos n) = n == 0x7fff_ffff
is_max_sequence_number (negsuc n) = false

abbrev pub next_number : ℤ → ℤ
next_number (pos n) = pos (suc n)
next_number (negsuc zero) = pos 0
next_number (negsuc (suc n)) = negsuc n

unfoldable pub new_header : Interface → ℕ → Ipv4Addr → Ipv4Addr → LsaHeader
new_header me ty id adv = record {
  ls_age = 0;
  options = if me.external_routing then option_e else 0;
  ls_type = ty;
  link_state_id = id;
  advertising_router = adv;
  ls_sequence_number = initial_sequence_number;
  ls_checksum = 0;
  length = 0;
}

-- The header that follows the database copy.
unfoldable pub number_after : Option (Lsa × ℕ × ℕ) → LsaHeader → Option LsaHeader
number_after none h = some h
number_after (some old) h =
    assert (not (is_max_sequence_number old.0.header.ls_sequence_number))
    >> some (record h { ls_sequence_number = next_number old.0.header.ls_sequence_number })

-- The conversion, and the header's length and checksum.
unfoldable pub finish : Converted Lsa → Option Lsa
finish c = do l ← unwrap c; sized ← update_length l; update_checksum sized

abbrev pub is_identical : Option (Lsa × ℕ × ℕ) → Lsa → Bool
is_identical none l = false
is_identical (some old) l = ltb old.0.header.ls_age ls_refresh_time && same_body old.0.body l.body

-- The end of `gen_lsa_impl`: database, flooding, routes.
unfoldable pub install : Env → Lsa → Interfaces → World → Option (Interfaces × World)
unfolding recalc
install env l s w = do
  db ← Database.insert_lsa env.now w.db s.me.area_id l
  (s', w', sent) ← flooding env s.me.ip_addr l s (record w { db = db })
  w'' ← recalc env w'
  some (s', w'')

-- `gen_lsa_impl`, with the conversion of the body.
unfoldable pub gen_lsa_impl :
    Env
    → ℕ
    → Ipv4Addr
    → Ipv4Addr
    → (LsaHeader → Converted Lsa)
    → Interfaces
    → World
    → Option (Interfaces × World)
unfolding new_header number_after finish install
gen_lsa_impl env ty id adv to s w =
    let header = new_header s.me ty id adv in
    do
      old ← Database.get_lsa env.now w.db s.me.area_id (index header)
      h ← number_after old header
      l ← finish (to h)
      if is_identical old l then some (s, w) else install env l s w

unfoldable pub gen_router_lsa : Env → Interfaces → World → Option (Interfaces × World)
unfolding links_of router_body gen_lsa_impl
gen_router_lsa env s w = do
  links ← links_of s.me.area_id (all_interfaces s)
  gen_lsa_impl env router_lsa env.router_id env.router_id
      (λ h. router_to_lsa h (router_body w.db links)) s w

unfoldable pub gen_network_lsa : Env → Interfaces → World → Option (Interfaces × World)
unfolding network_body gen_lsa_impl
gen_network_lsa env s w =
    let l = network_body env s.me in
    if is_dr s.me && ltb 1 (length l.attached_routers)
    then gen_lsa_impl env network_lsa s.me.ip_addr env.router_id (λ h. network_to_lsa h l) s w
    else some (s, w)

unfoldable pub gen_all :
    Env → List (ℕ × Ipv4Addr × SummaryLsa) → Interfaces → World → Option (Interfaces × World)
unfolding gen_lsa_impl
gen_all env [] s w = some (s, w)
gen_all env ((ty, id, l) ∷ ps) s w = do
  (s', w') ← gen_lsa_impl env ty id env.router_id (λ h. summary_to_lsa h l) s w
  gen_all env ps s' w'

-- The areas that no interface is in go.
abbrev pub retain_areas : List Interface → ProtocolDb → ProtocolDb
retain_areas is db = record db {
  areas = filter (λ p. contains (map (λ (i : Interface). i.area_id) is) p.0) db.areas;
}

unfoldable pub gen_summary_lsa : Env → Interfaces → World → Option (Interfaces × World)
unfolding gen_all summaries
gen_summary_lsa env s w =
    let db = retain_areas (all_interfaces s) w.db in
    let w' = record w { db = db } in
    if ltb 1 (length db.areas)
    then gen_all env (summaries s.me (values db.routing_table)) s w'
    else some (s, w')
