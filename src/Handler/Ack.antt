-- ===== src/Handler/Ack.antt =====
-- ospfd/handler/ack.rs.
pub mod Cleared
use rust_ospfd.Prelude.{
  Bool, List, [], ◌∷◌, if◌then◌else◌, remove_set, nat_eq, ◌≡◌, refl, map, arith, contains,
  Bool-cases, inl, inr,
}
use rust_ospfd.Packet.Lsa.{Ipv4Addr, LsaHeader, LsaIndex, index, index_eq}
use rust_ospfd.Packet.Types.{LsAcknowledge}
use rust_ospfd.Neighbor.State.{Neighbor, exchange, ge_state}
use rust_ospfd.Interface.State.{Interface}
use rust_ospfd.Interface.Event.{on_neighbor}

-- The loop over the acknowledged headers.
unfoldable pub acknowledge : List LsaHeader → List LsaIndex → List LsaIndex
acknowledge [] waiting = waiting
acknowledge (h ∷ hs) waiting = acknowledge hs (remove_set (index h) waiting)

unfoldable pub ack_neighbor : LsAcknowledge → Neighbor → Neighbor
ack_neighbor p n =
    if ge_state n.state exchange
    then record n { ls_retransmission_list = acknowledge p.lsa_header n.ls_retransmission_list }
    else n

-- `handle`
unfoldable pub handle : Ipv4Addr → LsAcknowledge → Interface → Interface
unfolding ack_neighbor
handle ip p i = on_neighbor ip (ack_neighbor p) i
