-- ===== src/Timers.antt =====
-- ospfd/interface/state.rs, `send_hello` and `set_hello_timer`: one round of the hello timer and one
-- of the retransmission timer. `none` is a panic.
pub mod Retransmitted
use rust_ospfd.Prelude.{
  ℕ, Bool, List, [], ◌∷◌, Option, some, none, ltb, if◌then◌else◌, length, take, values, ◌>>=◌,
}
use rust_ospfd.Packet.Lsa.{Ipv4Addr, Lsa, LsaIndex}
use rust_ospfd.Packet.Types.{LsUpdate, hello, lsu, all_spf_routers}
use rust_ospfd.Neighbor.State.{Neighbor, exchange, ge_state}
use rust_ospfd.Neighbor.Event.{Env}
use rust_ospfd.Interface.State.{Interface, shrink_neighbors}
use rust_ospfd.Interface.Event.{hello_of}
use rust_ospfd.Database
use rust_ospfd.Database.{ProtocolDb}
use rust_ospfd.Sender.{World, send_packet}

-- `send_hello`
unfoldable pub send_hello : Env → Interface → World → Option (Interface × World)
send_hello env i w = do
  let shrunk = shrink_neighbors i
  w' ← send_packet env shrunk (hello (hello_of shrunk)) all_spf_routers w
  some (shrunk, w')

-- `filter_map` of the keys by `get_lsa`.
unfoldable pub find_lsas : Env → ProtocolDb → Ipv4Addr → List LsaIndex → Option (List Lsa)
find_lsas env db area [] = some []
find_lsas env db area (k ∷ ks) = do
  found ← Database.get_lsa env.now db area k
  ls ← find_lsas env db area ks
  some (elim found [ none ↦ ls | some r ↦ r.0 ∷ ls ])

abbrev pub update_with : List Lsa → LsUpdate
update_with ls = record { num_lsa = length ls; lsa = ls }

-- The packets for the neighbors in `Exchange` or beyond: each has up to eight of the LSAs that the
-- neighbor has not acknowledged.
unfoldable pub owed_packets :
    Env → ProtocolDb → Ipv4Addr → List Neighbor → Option (List (LsUpdate × Ipv4Addr))
owed_packets env db area [] = some []
owed_packets env db area (n ∷ ns) =
    let rest = owed_packets env db area ns in
    let owed = do
      ls ← find_lsas env db area (take 8 n.ls_retransmission_list)
      ps ← rest
      some ((update_with ls, n.ip_addr) ∷ ps)
    in if ge_state n.state exchange then owed else rest

-- The loop that sends them, but for the empty ones.
unfoldable pub send_all : Env → Interface → List (LsUpdate × Ipv4Addr) → World → Option World
send_all env i [] w = some w
send_all env i ((p, ip) ∷ ps) w =
    let sent = do w' ← send_packet env i (lsu p) ip w; send_all env i ps w'
    in let skipped = send_all env i ps w in if ltb 0 p.num_lsa then sent else skipped

-- One round of the retransmission timer.
unfoldable pub retransmit : Env → Interface → World → Option World
retransmit env i w = do
  ps ← owed_packets env w.db i.area_id (values i.neighbors)
  send_all env i ps w
