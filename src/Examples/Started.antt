-- ===== src/Examples/Started.antt =====
-- A router with a device for loops, one of IPv6 and two of IPv4, and frames that it receives.
use rust_ospfd.Prelude.{Bool, true, false, List, [], ◌∷◌, Option, some, none, ◌≡◌, refl, ◌↔◌, In}
use rust_ospfd.Packet.Bits.{Bytes}
use rust_ospfd.Packet.Ospf.{Ospf}
use rust_ospfd.Interface.State.{Interface, new_interface}
use rust_ospfd.Interface.Event as Event
use rust_ospfd.Interface.Invariant as If
use rust_ospfd.Flooding.{Interfaces}
use rust_ospfd.Capture.{
  v4, v6, Ipv4, Parsers, Call, Received, frame, failed, run_forever, capture_ips,
}
use rust_ospfd.Capture.Passed.{SomePassed, run_forever-SomePassed}
use rust_ospfd.Command.Text.{codes}
use rust_ospfd.Startup.{NetworkInterface, Boot, boot, upgrade_lock, empty_db}
use rust_ospfd.Startup.Booted.{IsBooted, boot-IsBooted}
use rust_ospfd.Startup.Guarded.{IsSplit, upgrade_lock-IsSplit}
use rust_ospfd.Examples.{me_ip, nbr_ip, net}

abbrev flags : Event.NetworkInterface
flags = record { is_point_to_point = false; is_multicast = true; is_broadcast = true }

abbrev devices : List NetworkInterface
devices =
    record { name = codes "lo"; ips = v4 0x7f00_0001 0xff00_0000 ∷ v6 ∷ []; device = flags }
    ∷ record { name = codes "wg0"; ips = v6 ∷ []; device = flags }
    ∷ record { name = codes "eth0"; ips = v6 ∷ v4 nbr_ip 0xffff_ff00 ∷ []; device = flags }
    ∷ record { name = codes "eth1"; ips = v4 me_ip 0xffff_ff00 ∷ []; device = flags }
    ∷ []

abbrev opens_all : NetworkInterface → Bool
opens_all n = true

abbrev booted : Boot
unfolding boot
booted = elim (boot opens_all devices) [
  | some b ↦ b
  | none ↦ record { router_id = 0; interfaces = []; db = empty_db }
]

boot-IsBooted_example : IsBooted devices booted
unfolding boot
boot-IsBooted_example = boot-IsBooted opens_all devices booted refl

booted_id : booted.router_id ≡ me_ip
unfolding boot
booted_id = refl

abbrev three : List Interface
three =
    new_interface 0 nbr_ip 0xffff_ff00
    ∷ new_interface 0 me_ip 0xffff_ff00
    ∷ new_interface 0 net 0xffff_ff00
    ∷ []

upgrade_lock-IsSplit_example :
    (s : Interfaces) × (upgrade_lock me_ip three ≡ some s)
    × IsSplit If.IsValid me_ip three s.me s.other
unfolding new_interface
upgrade_lock-IsSplit_example = upgrade_lock-IsSplit If.IsValid me_ip three refl

-- Frames that hold a packet of the neighbor for this router; the first byte is the protocol.
abbrev ospf_packet : Ospf
ospf_packet = record {
  version = 2;
  message_type = 1;
  length = 44;
  router_id = 2;
  area_id = 0;
  checksum = 0;
  au_type = 0;
  authentication = 0;
  payload = [];
}

abbrev ipv4_of : Bytes → Option Ipv4
ipv4_of [] = none
ipv4_of (protocol ∷ bytes) = some (record {
  source = nbr_ip;
  destination = me_ip;
  next_level_protocol = protocol;
  payload = bytes;
})

abbrev ospf_of : Bytes → Option Ospf
ospf_of [] = none
ospf_of (b ∷ bytes) = some ospf_packet

abbrev parsers : Parsers
parsers = record {
  ethernet = λ bytes. some (record { ethertype = 0x0800; payload = bytes });
  ipv4 = ipv4_of;
  ospf = ospf_of;
}

abbrev called : Call
called = record { source = nbr_ip; destination = me_ip; bytes = 7 ∷ []; packet = ospf_packet }

-- The second of these is a panic of its round.
abbrev received : List Received
received = failed ∷ frame (89 ∷ []) ∷ frame (6 ∷ 7 ∷ []) ∷ frame (89 ∷ 7 ∷ []) ∷ []

run_forever-SomePassed_example :
    In called (run_forever parsers (capture_ips (v4 me_ip 0xffff_ff00 ∷ [])) received)
    ↔ SomePassed parsers (capture_ips (v4 me_ip 0xffff_ff00 ∷ [])) received called
run_forever-SomePassed_example =
    run_forever-SomePassed parsers (capture_ips (v4 me_ip 0xffff_ff00 ∷ [])) received called

received_one : run_forever parsers (capture_ips (v4 me_ip 0xffff_ff00 ∷ [])) received ≡ called ∷ []
unfolding run_forever capture_ips
received_one = refl
