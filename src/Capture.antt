-- ===== src/Capture.antt =====
-- ospfd/capture.rs and the loop of ospfd/daemon.rs around it: which frames of an interface's device
-- become packets for the handler. What `pnet` reads from the bytes of a frame is a parameter, where
-- `none` is a buffer that is too short. In the model's own results `none` is a panic.
pub mod Passed
use rust_ospfd.Prelude.{
  ℕ, Bool, List, [], ◌∷◌, ◌++◌, Option, some, none, ◌==◌, ◌||◌, any, if◌then◌else◌, ◌>>=◌,
}
use rust_ospfd.Packet.Lsa.{Ipv4Addr}
use rust_ospfd.Packet.Bits.{Bytes}
use rust_ospfd.Packet.Types.{all_spf_routers, all_d_routers}
use rust_ospfd.Packet.Ospf.{Ospf}

-- `IpNetwork`: an address of the device with its mask; one of IPv6 has no part here.
pub data IpNetwork : Type 0 where
  v4 : Ipv4Addr → Ipv4Addr → IpNetwork
  v6 : IpNetwork

pub record Ethernet : Type 0 where
  pub ethertype : ℕ
  pub payload : Bytes

pub record Ipv4 : Type 0 where
  pub source : Ipv4Addr
  pub destination : Ipv4Addr
  pub next_level_protocol : ℕ
  pub payload : Bytes

-- `EthernetPacket::new`, `Ipv4Packet::new` and `OspfPacket::new`.
pub record Parsers : Type 0 where
  pub ethernet : Bytes → Option Ethernet
  pub ipv4 : Bytes → Option Ipv4
  pub ospf : Bytes → Option Ospf

-- `EtherTypes::Ipv4` and `IpNextHeaderProtocols::OspfigP`
abbrev pub ethertype_ipv4 : ℕ
ethertype_ipv4 = 0x0800

abbrev pub ospfigp : ℕ
ospfigp = 89

-- The addresses that `CaptureOspfDaemon::new` keeps.
unfoldable pub capture_ips : List IpNetwork → List Ipv4Addr
capture_ips [] = []
capture_ips (v4 ip mask ∷ ips) = ip ∷ capture_ips ips
capture_ips (v6 ∷ ips) = capture_ips ips

-- `CaptureOspfDaemon::check_ip`
unfoldable pub check_ip : List Ipv4Addr → Ipv4Addr → Bool
check_ip ips ip = ip == all_spf_routers || (ip == all_d_routers || any (λ i. i == ip) ips)

-- A call of the handler, with the bytes that the packet was read from.
pub record Call : Type 0 where
  pub source : Ipv4Addr
  pub destination : Ipv4Addr
  pub bytes : Bytes
  pub packet : Ospf

-- The arm of `OspfigP`.
abbrev pub call : Parsers → Ipv4 → Option (List Call)
call parse h = parse.ospf h.payload >>= λ p.
    some (
      record { source = h.source; destination = h.destination; bytes = h.payload; packet = p } ∷ [])

-- `handle_packet`: the calls of the handler, of which there is one at most.
unfoldable pub handle_ipv4 : Parsers → List Ipv4Addr → Ipv4 → Option (List Call)
unfolding check_ip
handle_ipv4 parse ips h =
    let called = call parse h in
    if check_ip ips h.source
    then some []
    else if check_ip ips h.destination
    then (if h.next_level_protocol == ospfigp then called else some [])
    else some []

unfoldable pub handle_packet : Parsers → List Ipv4Addr → Ethernet → Option (List Call)
unfolding handle_ipv4
handle_packet parse ips e =
    let found : Option (List Call) = elim (parse.ipv4 e.payload) [
      | none ↦ some []
      | some h ↦ handle_ipv4 parse ips h
    ] in
    if e.ethertype == ethertype_ipv4 then found else some []

-- What `receiver.next()` gives.
pub data Received : Type 0 where
  frame : Bytes → Received
  failed : Received

-- `Runnable::run` for `CaptureOspfDaemon`.
unfoldable pub run : Parsers → List Ipv4Addr → Received → Option (List Call)
unfolding handle_packet
run parse ips failed = some []
run parse ips (frame bytes) = parse.ethernet bytes >>= λ e. handle_packet parse ips e

-- `run_forever` on what is received: a round that panics is logged, and the loop goes on.
unfoldable pub run_forever : Parsers → List Ipv4Addr → List Received → List Call
unfolding run
run_forever parse ips [] = []
run_forever parse ips (r ∷ rs) =
    let rest = run_forever parse ips rs in
    elim (run parse ips r) [ none ↦ rest | some calls ↦ calls ++ rest ]
