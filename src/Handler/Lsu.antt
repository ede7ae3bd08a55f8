-- ===== src/Handler/Lsu.antt =====
-- ospfd/handler/lsu.rs. `none` is a panic.
pub mod Send
pub mod Accepted
pub mod Delayed
pub mod Packet
pub mod Invariant
pub mod Valid
use rust_ospfd.Prelude.{
  ℕ, Bool, true, false, List, [], ◌∷◌, ◌++◌, Option, some, none, ◌==◌, not, ◌&&◌, ◌||◌, ltb, leb,
  if◌then◌else◌, map, any, get, contains, remove_set, nat_eq, is_empty, ◌>>=◌,
}
use rust_ospfd.Packet.Lsa.{
  Ipv4Addr, LsaHeader, Lsa, LsaIndex, index, index_beq, index_eq, lsa_max_age, as_external_lsa,
  network_lsa,
}
use rust_ospfd.Packet.Order.{header_eq}
use rust_ospfd.Packet.Checksum.{checksum_ok}
use rust_ospfd.Packet.Types.{LsUpdate, SubPacket, lsu, ack, all_d_routers, all_spf_routers}
use rust_ospfd.Neighbor.State
use rust_ospfd.Neighbor.State.{Neighbor, exchange, loading, eq_state}
use rust_ospfd.Neighbor.Event.{Env, lsr_recv_update, restart_exchange}
use rust_ospfd.Interface.State as IfState
use rust_ospfd.Interface.State.{Interface, InterfaceState, is_drother}
use rust_ospfd.Interface.Event.{on_neighbor}
use rust_ospfd.Area.Lsdb.{elapsed_secs, is_some}
use rust_ospfd.Database
use rust_ospfd.Sender.{World, send_packet}
use rust_ospfd.Flooding.{Interfaces, flooding, update_of}
use rust_ospfd.Origin.{all_interfaces, recalc, gen_summary_lsa, is_max_sequence_number}

-- `MinLSArrival`
abbrev pub min_ls_arrival : ℕ
min_ls_arrival = 1

-- The interfaces, the world, and the headers whose acknowledgement is delayed.
pub record Progress : Type 0 where
  pub interfaces : Interfaces
  pub world : World
  pub delay : List LsaHeader

-- `ControlFlow`
pub data Flow : Type 0 where
  go_on break : Progress → Flow

abbrev pub change_neighbor : Ipv4Addr → (Neighbor → Neighbor) → Interfaces → Interfaces
change_neighbor src f s = record s { me = on_neighbor src f s.me }

abbrev pub delayed : LsaHeader → Progress → Progress
delayed h p = record p { delay = p.delay ++ (h ∷ []) }

abbrev pub is_backup : InterfaceState → Bool
is_backup InterfaceState.backup = true
is_backup _ = false

-- `send_packet(&mut meta.0.me, &packet, ..)`
unfoldable pub send : Env → SubPacket → Ipv4Addr → Progress → Option Progress
send env packet dest p = do
  w ← send_packet env p.interfaces.me packet dest p.world
  some (record p { world = w })

abbrev pub ack_of : LsaHeader → SubPacket
ack_of h = ack (record { lsa_header = h ∷ [] })

-- The tests of steps 1 to 3, the first of which can panic.
unfoldable pub is_admissible : Lsa → Interface → Option Bool
is_admissible l me = do
  sum ← checksum_ok l
  some (
      sum
      && (leb 1 l.header.ls_type
          && (leb l.header.ls_type 5
              && (not (l.header.ls_type == as_external_lsa) || me.external_routing))))

-- The answer to a request of this router.
unfoldable pub is_answer : Lsa → Neighbor → Bool
is_answer l n = elim n.ls_request_list [
  | [] ↦ false
  | h ∷ hs ↦ index_beq (index l.header) (index h)
]

unfoldable pub take_answer : Ipv4Addr → Lsa → Progress → Option Progress
unfolding is_answer
take_answer src l p = do
  n ← get src p.interfaces.me.neighbors
  let answered = record p { interfaces = change_neighbor src lsr_recv_update p.interfaces }
  some (if is_answer l n then answered else p)

-- Step 4: no neighbor is in the exchange of databases.
abbrev pub is_exchanging : Neighbor → Bool
is_exchanging n = eq_state n.state exchange || eq_state n.state loading

abbrev pub any_exchanging : List Interface → Bool
any_exchanging is =
    any (λ (i : Interface). any (λ (p : Ipv4Addr × Neighbor). is_exchanging p.1) i.neighbors) is

unfoldable pub is_discarded : Lsa → Progress → Option Bool
is_discarded l p = do
  known ← Database.contains_lsa p.world.db p.interfaces.me.area_id (index l.header)
  some (
      l.header.ls_age == lsa_max_age
      && (not known && not (any_exchanging (all_interfaces p.interfaces))))

-- Step 5c.
abbrev pub forget_on : LsaIndex → Neighbor → Neighbor
forget_on key n = record n { ls_retransmission_list = remove_set key n.ls_retransmission_list }

abbrev pub forget_in : LsaIndex → Interface → Interface
forget_in key i = record i {
  neighbors = map (λ (p : Ipv4Addr × Neighbor). (p.0, forget_on key p.1)) i.neighbors;
}

abbrev pub forget : LsaIndex → Interfaces → Interfaces
forget key s = record { me = forget_in key s.me; other = map (forget_in key) s.other }

-- The copy that the database had goes by its own key.
abbrev pub forget_copy : Option (Lsa × ℕ × ℕ) → Interfaces → Interfaces
forget_copy none s = s
forget_copy (some copy) s = forget (index copy.0.header) s

-- Step 5e: the acknowledgement of an LSA that was not flooded back.
unfoldable pub ack_later : Ipv4Addr → LsaHeader → Bool → Progress → Option Progress
ack_later src h flooded p =
    let from_dr = (do n ← get src p.interfaces.me.neighbors; some (State.is_dr n)) in
    let wanted = if is_backup p.interfaces.me.state then from_dr else some true in
    if flooded then some p else (wanted >>= λ b. some (if b then delayed h p else p))

-- Step 5f.
unfoldable pub is_own : Env → LsaHeader → Interfaces → Bool
is_own env h s =
    h.advertising_router == env.router_id
    || h.ls_type == network_lsa
      && any (λ (i : Interface). i.ip_addr == h.link_state_id) (all_interfaces s)

unfoldable pub age_out : Env → Ipv4Addr → Lsa → Progress → Option Progress
unfolding send
age_out env src l p =
    let old = record l { header = record l.header { ls_age = lsa_max_age } } in
    do
      db ← Database.insert_lsa env.now p.world.db p.interfaces.me.area_id old
      send env (update_of old) src (record p { world = record p.world { db = db } })

-- Steps 5b to 5f.
unfoldable pub accept : Env → Ipv4Addr → Lsa → Option (Lsa × ℕ × ℕ) → Progress → Option Progress
unfolding ack_later is_own age_out
accept env src l found p = do
  (s1, w1, flooded) ← flooding env src l p.interfaces p.world
  let s2 = forget_copy found s1
  db ← Database.insert_lsa env.now w1.db s2.me.area_id l
  w2 ← recalc env (record w1 { db = db })
  (s3, w3) ← gen_summary_lsa env s2 w2
  q ← ack_later src l.header flooded (record { interfaces = s3; world = w3; delay = p.delay })
  if is_own env l.header q.interfaces && not (is_some found) then age_out env src l q else some q

-- Step 5a: an LSA that comes too soon after its predecessor is dropped.
abbrev pub is_too_soon : Env → Option (Lsa × ℕ × ℕ) → Bool
is_too_soon env none = false
is_too_soon env (some r) = ltb (elapsed_secs env.now r.1) min_ls_arrival

unfoldable pub newer : Env → Ipv4Addr → Lsa → Progress → Option Progress
unfolding accept
newer env src l p = do
  found ← Database.get_lsa env.now p.world.db p.interfaces.me.area_id (index l.header)
  if is_too_soon env found then some p else accept env src l found p

-- Step 7: the LSA is the database copy.
unfoldable pub duplicate : Env → Ipv4Addr → LsaHeader → Neighbor → Progress → Option Progress
unfolding send
duplicate env src h n p =
    let implied = record p {
      interfaces = change_neighbor src (forget_on (index h)) p.interfaces;
    } in
    if contains n.ls_retransmission_list (index h)
    then some
        (if is_backup p.interfaces.me.state && State.is_dr n then delayed h implied else implied)
    else send env (ack_of h) src p

-- Step 8: the database copy is newer.
unfoldable pub older : Env → Ipv4Addr → Lsa → ℕ → Progress → Option Progress
unfolding send
older env src copy updated p =
    if copy.header.ls_age == lsa_max_age && is_max_sequence_number copy.header.ls_sequence_number
      || not (ltb min_ls_arrival (elapsed_secs env.now updated))
    then some p
    else send env (update_of copy) src p

-- Steps 6 to 8.
unfoldable pub not_newer : Env → Ipv4Addr → Lsa → Progress → Option Flow
unfolding duplicate older
not_newer env src l p =
    let compared = λ (n : Neighbor). do
      found ← Database.get_lsa env.now p.world.db p.interfaces.me.area_id (index l.header)
      (copy, created, updated) ← found
      q ←
          (if header_eq copy.header l.header
            then duplicate env src l.header n p
            else older env src copy updated p)
      some (go_on q)
    in do
      n ← get src p.interfaces.me.neighbors
      if any (λ (h : LsaHeader). header_eq h l.header) n.ls_request_list
          then some (
              break
                (record p { interfaces = change_neighbor src (restart_exchange env) p.interfaces }))
          else compared n

-- Steps 4 to 8.
unfoldable pub examine : Env → Ipv4Addr → Lsa → Progress → Option Flow
unfolding is_discarded send newer not_newer
examine env src l p = do
  discarded ← is_discarded l p
  update ← Database.need_update env.now p.world.db p.interfaces.me.area_id l.header
  let handled =
      if update then (newer env src l p >>= λ q. some (go_on q)) else not_newer env src l p
  if discarded then (send env (ack_of l.header) src p >>= λ q. some (go_on q)) else handled

-- `handle_one`
unfoldable pub handle_one : Env → Ipv4Addr → Lsa → Progress → Option Flow
unfolding is_admissible take_answer examine
handle_one env src l p = do
  admissible ← is_admissible l p.interfaces.me
  if admissible then (take_answer src l p >>= λ q. examine env src l q) else some (go_on p)

unfoldable pub handle_all : Env → Ipv4Addr → List Lsa → Progress → Option Progress
unfolding handle_one
handle_all env src [] p = some p
handle_all env src (l ∷ ls) p = do
  f ← handle_one env src l p
  elim f [ go_on q ↦ handle_all env src ls q | break q ↦ some q ]

-- `handle`
unfoldable pub handle : Env → Ipv4Addr → LsUpdate → Interfaces → World → Option (Interfaces × World)
unfolding handle_all send
handle env src packet s w = do
  p ← handle_all env src packet.lsa (record { interfaces = s; world = w; delay = [] })
  let dest = if is_drother p.interfaces.me then all_d_routers else all_spf_routers
  q ← if is_empty p.delay then some p else send env (ack (record { lsa_header = p.delay })) dest p
  some (q.interfaces, q.world)
