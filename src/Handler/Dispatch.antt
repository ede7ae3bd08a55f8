-- ===== src/Handler/Dispatch.antt =====
-- ospfd/handler/mod.rs: a packet that an interface has received. The interfaces are as
-- `InterfacesGuard` holds them once the lock is upgraded, with the one that received first. The parsing
-- of the OSPF header is the packet library's. `none` is a panic, which ends the task of this packet.
pub mod Invariant
pub mod Valid
use rust_ospfd.Prelude.{
  Bool, Option, some, ◌==◌, not, ◌&&◌, ◌||◌, if◌then◌else◌, get, insert, nat_eq, ◌>>=◌, ◌>>◌,
  assert,
}
use rust_ospfd.Packet.Lsa.{Ipv4Addr}
use rust_ospfd.Packet.Bits.{Bytes}
use rust_ospfd.Packet.Ospf.{Ospf, auto_test_checksum}
use rust_ospfd.Packet.Types.{
  hello_packet, db_description, ls_request, ls_update, ls_acknowledge, all_d_routers,
}
use rust_ospfd.Packet.Codec.Packets.{
  hello_from_buf, dd_from_buf, lsr_from_buf, lsu_from_buf, ack_from_buf,
}
use rust_ospfd.Neighbor.State.{new_neighbor}
use rust_ospfd.Neighbor.Event.{Env}
use rust_ospfd.Interface.State.{Interface, is_p2p_or_virtual, is_dr, is_bdr, is_drother}
use rust_ospfd.Area.Lsdb.{is_some}
use rust_ospfd.Sender.{World}
use rust_ospfd.Flooding.{Interfaces}
use rust_ospfd.Handler.Hello as Hello
use rust_ospfd.Handler.Dd as Dd
use rust_ospfd.Handler.Lsr as Lsr
use rust_ospfd.Handler.Lsu as Lsu
use rust_ospfd.Handler.Ack as Ack

-- The tests on the area and the destination.
unfoldable pub is_for : Interface → Ipv4Addr → Ospf → Bool
is_for i dest p =
    (p.area_id == i.area_id || p.area_id == 0 && (is_dr i || is_bdr i))
    && not (dest == all_d_routers && is_drother i)

-- The neighbor's key and router identifier: on a point-to-point or virtual link they change places.
abbrev pub sender_of : Interface → Ipv4Addr → Ospf → Ipv4Addr × Ipv4Addr
sender_of i src p = if is_p2p_or_virtual i.net_type then (p.router_id, src) else (src, p.router_id)

unfoldable pub insert_neighbor : Ipv4Addr → Ipv4Addr → Interface → Interface
insert_neighbor ip router_id i =
    if is_some (get ip i.neighbors)
    then i
    else record i { neighbors = insert ip (new_neighbor router_id ip) i.neighbors }

-- The handlers, by the type of the packet. One that changes its interface alone leaves the others.
abbrev pub on_me : Interfaces → Option (Interface × World) → Option (Interfaces × World)
on_me s r = r >>= λ x. some (record s { me = x.0 }, x.1)

unfoldable pub dispatch : Env → Ipv4Addr → Ospf → Interfaces → World → Option (Interfaces × World)
dispatch env ip p s w =
    let hello = do
      (b, rest) ← hello_from_buf p.payload
      some (record s { me = Hello.handle env ip b s.me }, w)
    in let dd = do (b, rest) ← dd_from_buf p.payload; on_me s (Dd.handle env ip b s.me w)
      in let lsr = do (b, rest) ← lsr_from_buf p.payload; on_me s (Lsr.handle env ip b s.me w)
        in let lsu = do (b, rest) ← lsu_from_buf p.payload; Lsu.handle env ip b s w
          in let ack = do
            (b, rest) ← ack_from_buf p.payload
            some (record s { me = Ack.handle ip b s.me }, w)
            in if p.message_type == hello_packet
              then hello
              else if p.message_type == db_description
              then dd
              else if p.message_type == ls_request
              then lsr
              else if p.message_type == ls_update
              then lsu
              else if p.message_type == ls_acknowledge
              then ack
              else some (s, w)

-- `ospf_handle`; `todo!()` for any authentication is a panic.
unfoldable pub ospf_handle :
    Env → Ipv4Addr → Ipv4Addr → Ospf → Interfaces → World → Option (Interfaces × World)
unfolding is_for insert_neighbor dispatch
ospf_handle env src dest p s w =
    let sender = sender_of s.me src p in
    let known = record s { me = insert_neighbor sender.0 sender.1 s.me } in
    let process = assert (p.au_type == 0) >> dispatch env sender.0 p known w in
    if is_for s.me dest p then process else some (s, w)

-- The closure of `ospf_handler_maker`, on the bytes of the packet and what the packet library reads
-- from them.
unfoldable pub receive :
    Env → Ipv4Addr → Ipv4Addr → Bytes → Ospf → Interfaces → World → Option (Interfaces × World)
unfolding ospf_handle auto_test_checksum
receive env src dest bytes p s w = do
  sum ← auto_test_checksum bytes
  if sum && p.version == 2 then ospf_handle env src dest p s w else some (s, w)
