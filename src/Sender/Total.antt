-- ===== src/Sender/Total.antt =====
-- Sending while the interface's area is in the database and the device sends.
use rust_ospfd.Prelude.{
  ℕ, ◌+◌, length, arith, List, [], ◌∷◌, some, ◌≡◌, refl, get, insert, nat_eq, get-insert_self,
}
use rust_ospfd.Packet.Lsa.{Ipv4Addr, Lsa}
use rust_ospfd.Packet.Types.{SubPacket}
use rust_ospfd.Neighbor.Event.{Env}
use rust_ospfd.Interface.State.{Interface}
use rust_ospfd.Area.Lsdb
use rust_ospfd.Area.Lsdb.{Area}
use rust_ospfd.Database
use rust_ospfd.Database.{ProtocolDb}
use rust_ospfd.Sender.{
  World, Sent, packet_header_size, create_packet, mark_sent, transmit, send_packet, carried,
}
use rust_ospfd.Packet.Bits.{Bytes}
use rust_ospfd.Packet.Codec.Packets.{to_bytes}
use rust_ospfd.Packet.Codec.Written.{to_bytes_total}

mark_sent_total :
    (now : ℕ) (db : ProtocolDb) (area : Ipv4Addr) (ls : List Lsa) {a : Area}
    → get area db.areas ≡ some a
    → (db' : ProtocolDb) × (mark_sent now db area ls ≡ some db')
unfolding mark_sent Database.lsa_has_sent
mark_sent_total now db area [] e = (db, refl)
mark_sent_total now db area (l ∷ ls) {a} e =
    let next : Area × Lsdb.LsaDb = Lsdb.lsa_has_sent now a db.external l in
    rw e (
      mark_sent_total now (record db { areas = insert area next.0 db.areas; external = next.1 })
        area ls (get-insert_self area next.0 db.areas))

-- The device sends the next packet whole, whatever it is.
abbrev pub SendsWhole : World → Type 0
SendsWhole w =
    (packet : Sent) (payload : Bytes)
    → to_bytes packet.payload ≡ some payload
    → w.send_to (length w.out) packet ≡ some (packet_header_size + length payload)

transmit_total : (packet : Sent) (w : World) → SendsWhole w → transmit packet w ≡ some tt
unfolding transmit
transmit_total packet w up =
    let (payload, e) = to_bytes_total packet.payload in rw (e, up packet payload e) (ground arith)

pub send_packet_total :
    (env : Env) (i : Interface) (p : SubPacket) (d : Ipv4Addr) (w : World) {a : Area}
    → get i.area_id w.db.areas ≡ some a
    → SendsWhole w
    → (w' : World) × (send_packet env i p d w ≡ some w')
unfolding send_packet
send_packet_total env i p d w e up =
    let r = mark_sent_total env.now w.db i.area_id (carried p) e in
    let t = transmit_total (create_packet env i p d) w up in
    (record w { db = r.0; out = create_packet env i p d ∷ w.out }, rw (t, r.1) refl)
