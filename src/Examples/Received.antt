-- ===== src/Examples/Received.antt =====
-- A packet with an update, as it is received.
use rust_ospfd.Prelude.{ℕ, List, [], ◌∷◌, ◌++◌, Option, some, none, ◌≡◌, refl, arith}
use rust_ospfd.Packet.Bits.{Bytes}
use rust_ospfd.Packet.Ospf.{Ospf, auto_test_checksum}
use rust_ospfd.Packet.Types.{all_spf_routers}
use rust_ospfd.Packet.Codec.Packets.{lsu_from_buf}
use rust_ospfd.Neighbor.State.{full}
use rust_ospfd.Interface.Invariant as If
use rust_ospfd.Sender.{World}
use rust_ospfd.Flooding.{Interfaces}
use rust_ospfd.Flooding.Invariant.{AreValid}
use rust_ospfd.Handler.Dispatch.{receive}
use rust_ospfd.Handler.Dispatch.Valid.{receive-AreValid}
use rust_ospfd.Examples.{env, world, interface, nbr_ip}
use rust_ospfd.Examples.Updates.{interfaces}

abbrev payload : Bytes
payload =
    0 ∷ 0 ∷ 0 ∷ 1 ∷ 0 ∷ 5 ∷ 2 ∷ 3 ∷ 192 ∷ 168 ∷ 1 ∷ 0 ∷ 0 ∷ 0 ∷ 0 ∷ 2 ∷ 128 ∷ 0 ∷ 0 ∷ 2 ∷ 105 ∷ 114
    ∷ 0 ∷ 28 ∷ 255 ∷ 255 ∷ 255 ∷ 0 ∷ 0 ∷ 0 ∷ 0 ∷ 20 ∷ []

abbrev packet : Ospf
packet = record {
  version = 2;
  message_type = 4;
  length = 56;
  router_id = 2;
  area_id = 0;
  checksum = 20840;
  au_type = 0;
  authentication = 0;
  payload = payload;
}

abbrev packet_bytes : Bytes
packet_bytes =
    2 ∷ 4 ∷ 0 ∷ 56 ∷ 0 ∷ 0 ∷ 0 ∷ 2 ∷ 0 ∷ 0 ∷ 0 ∷ 0 ∷ 81 ∷ 104 ∷ 0 ∷ 0 ∷ 0 ∷ 0 ∷ 0 ∷ 0 ∷ 0 ∷ 0 ∷ 0
    ∷ 0 ∷ 0 ∷ 0 ∷ 0 ∷ 1 ∷ 0 ∷ 5 ∷ 2 ∷ 3 ∷ 192 ∷ 168 ∷ 1 ∷ 0 ∷ 0 ∷ 0 ∷ 0 ∷ 2 ∷ 128 ∷ 0 ∷ 0 ∷ 2 ∷ 105
    ∷ 114 ∷ 0 ∷ 28 ∷ 255 ∷ 255 ∷ 255 ∷ 0 ∷ 0 ∷ 0 ∷ 0 ∷ 20 ∷ []

abbrev received : Interfaces × World
unfolding receive
received = elim (receive env nbr_ip all_spf_routers packet_bytes packet interfaces world) [
  | some r ↦ r
  | none ↦ (interfaces, world)
]

interface-IsValid : If.IsValid (interface full)
interface-IsValid = ground arith

receive-AreValid_example : AreValid received.0
unfolding receive rust_ospfd.Database.get_lsa rust_ospfd.Area.Lsdb.m_get_lsa
    rust_ospfd.Packet.Codec.Whole.lsa_to_bytes rust_ospfd.Packet.Codec.header_to_bytes
    rust_ospfd.Packet.Codec.Whole.body_to_bytes rust_ospfd.Packet.Checksum.checksum
    rust_ospfd.Packet.Checksum.checksum_ok rust_ospfd.Database.contains_lsa
    rust_ospfd.Database.need_update rust_ospfd.Packet.Order.header_eq rust_ospfd.Database.insert_lsa
    rust_ospfd.Area.Lsdb.insert_lsa rust_ospfd.Area.Lsdb.need_update
    rust_ospfd.Area.Lsdb.m_insert_lsa rust_ospfd.Flooding.flooding
    rust_ospfd.Flooding.flood_interface rust_ospfd.Flooding.flooding_on
    rust_ospfd.Flooding.flood_neighbors rust_ospfd.Flooding.flood_neighbor
    rust_ospfd.Flooding.position rust_ospfd.Flooding.enlist rust_ospfd.Flooding.served_already
    rust_ospfd.Flooding.send_copy rust_ospfd.Flooding.aged_copy rust_ospfd.Flooding.flood_interfaces
    rust_ospfd.Sender.send_packet rust_ospfd.Database.lsa_has_sent rust_ospfd.Area.Lsdb.lsa_has_sent
    rust_ospfd.Packet.Order.header_ge rust_ospfd.Packet.Order.cmp rust_ospfd.Packet.Order.cmp_age
    rust_ospfd.Database.recalc_routing rust_ospfd.Area.Edges.copy_lsas
    rust_ospfd.Area.Lsdb.get_all_area_lsa rust_ospfd.Area.Lsdb.live_headers
    rust_ospfd.Area.Edges.edges_of rust_ospfd.Area.Edges.add_stubs rust_ospfd.Area.Lsdb.get_all_lsa
    rust_ospfd.Prelude.contains rust_ospfd.Origin.recalc rust_ospfd.Origin.gen_summary_lsa
    rust_ospfd.Handler.Lsu.handle received auto_test_checksum lsu_from_buf
    rust_ospfd.Packet.Macros.get_vec rust_ospfd.Packet.Codec.Whole.lsa_from_buf
    rust_ospfd.Packet.Codec.header_from_buf rust_ospfd.Packet.Codec.Whole.body_from_buf
    rust_ospfd.Sender.transmit rust_ospfd.Packet.Codec.Packets.to_bytes
    rust_ospfd.Packet.Codec.Packets.lsu_to_bytes rust_ospfd.Packet.Codec.Packets.ack_to_bytes
receive-AreValid_example =
    receive-AreValid env nbr_ip all_spf_routers packet_bytes packet interfaces world received
      (interface-IsValid, tt) refl
