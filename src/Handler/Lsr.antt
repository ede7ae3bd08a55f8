-- ===== src/Handler/Lsr.antt =====
-- ospfd/handler/lsr.rs. `none` is a panic.
pub mod Answers
use rust_ospfd.Prelude.{
  ℕ, List, [], ◌∷◌, Option, some, none, if◌then◌else◌, ◌%◌, ◌^◌, get, nat_eq, ◌>>=◌,
}
use rust_ospfd.Packet.Lsa.{Ipv4Addr, Lsa, LsaIndex}
use rust_ospfd.Packet.Types.{LsRequest, lsu}
use rust_ospfd.Neighbor.State.{Neighbor, exchange, ge_state}
use rust_ospfd.Neighbor.Event.{Env, restart_exchange}
use rust_ospfd.Interface.State.{Interface}
use rust_ospfd.Interface.Event.{on_neighbor}
use rust_ospfd.Database
use rust_ospfd.Sender.{World, send_packet}

-- The key that a request asks for; `ls_type as u8` keeps the low 8 bits.
abbrev pub request_index : LsRequest → LsaIndex
request_index p = record {
  ls_type = p.ls_type % 2 ^ 8;
  ls_id = p.ls_id;
  ad_router = p.advertising_router;
}

-- What is done with the database's answer.
unfoldable pub answer :
    Env
    → Ipv4Addr
    → Neighbor
    → Interface
    → World
    → Option (Lsa × ℕ × ℕ)
    → Option (Interface × World)
answer env ip n i w none = some (on_neighbor ip (restart_exchange env) i, w)
answer env ip n i w (some r) = do
  w' ← send_packet env i (lsu (record { num_lsa = 1; lsa = r.0 ∷ [] })) n.ip_addr w
  some (i, w')

-- `handle`
unfoldable pub handle : Env → Ipv4Addr → LsRequest → Interface → World → Option (Interface × World)
handle env ip p i w =
    let process = λ (n : Neighbor). do
      found ← Database.get_lsa env.now w.db i.area_id (request_index p)
      answer env ip n i w found
    in do n ← get ip i.neighbors; if ge_state n.state exchange then process n else some (i, w)
