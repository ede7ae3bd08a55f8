-- ===== src/Sender.antt =====
-- ospfd/sender.rs. What the network device is given is a log of packets. What it answers to the
-- packets is a part of the state: `none` is an error, else the number of bytes it sent. The length
-- and checksum of the header, which the source computes from the bytes, are not recorded here.
pub mod Total
use rust_ospfd.Prelude.{ℕ, List, [], ◌∷◌, Option, some, ◌>>=◌, ◌>>◌, assert, ◌==◌, ◌+◌, length}
use rust_ospfd.Packet.Lsa.{Ipv4Addr, Lsa}
use rust_ospfd.Packet.Types.{SubPacket, hello, dd, lsr, lsu, ack, get_type}
use rust_ospfd.Packet.Codec.Packets.{to_bytes}
use rust_ospfd.Routing.Table.{RouteChange}
use rust_ospfd.Database
use rust_ospfd.Database.{ProtocolDb}
use rust_ospfd.Neighbor.Event.{Env}
use rust_ospfd.Interface.State.{Interface}

-- A packet on its way: the fields of `Ospf` that `create_packet` sets, and the destination.
pub record Sent : Type 0 where
  pub version : ℕ
  pub message_type : ℕ
  pub router_id : ℕ
  pub area_id : Ipv4Addr
  pub au_type : ℕ
  pub authentication : ℕ
  pub payload : SubPacket
  pub destination : Ipv4Addr

-- The global state: the database, the packets sent and the requests to the kernel's routing table,
-- the last first in both, and the answers of the device to the packets by their number.
pub record World : Type 0 where
  pub send_to : ℕ → Sent → Option ℕ
  pub db : ProtocolDb
  pub out : List Sent
  pub routes : List RouteChange

unfoldable pub create_packet : Env → Interface → SubPacket → Ipv4Addr → Sent
create_packet env i p destination = record {
  version = 2;
  message_type = get_type p;
  router_id = env.router_id;
  area_id = i.area_id;
  au_type = i.au_type;
  authentication = i.au_key;
  payload = p;
  destination = destination;
}

-- `OspfSubPacket::get_lsa_and_then`: the LSAs that a packet carries whole.
abbrev pub carried : SubPacket → List Lsa
carried (hello _) = []
carried (dd _) = []
carried (lsr _) = []
carried (lsu p) = p.lsa
carried (ack _) = []

unfoldable pub mark_sent : ℕ → ProtocolDb → Ipv4Addr → List Lsa → Option ProtocolDb
mark_sent now db area [] = some db
mark_sent now db area (l ∷ ls) = do
  db' ← Database.lsa_has_sent now db area l
  mark_sent now db' area ls

-- The size of the header of an OSPF packet in bytes.
abbrev pub packet_header_size : ℕ
packet_header_size = 24

-- The device takes the packet with all its bytes, or there is a panic.
unfoldable pub transmit : Sent → World → Option (Unit {0})
transmit packet w = do
  payload ← to_bytes packet.payload
  n ← w.send_to (length w.out) packet
  assert (n == packet_header_size + length payload)

-- `send_packet`
unfoldable pub send_packet : Env → Interface → SubPacket → Ipv4Addr → World → Option World
unfolding create_packet mark_sent transmit
send_packet env i p destination w = do
  transmit (create_packet env i p destination) w
  db' ← mark_sent env.now w.db i.area_id (carried p)
  some (record w { db = db'; out = create_packet env i p destination ∷ w.out })
