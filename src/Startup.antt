-- ===== src/Startup.antt =====
-- The start of the program: ospfd/main.rs, `Interface::from` of ospfd/interface/mod.rs, and `init`
-- and `upgrade_lock` of ospfd/database/mod.rs. Whether the host opens the sockets for a device is an
-- argument. `none` is a panic.
pub mod Booted
pub mod Guarded
use rust_ospfd.Prelude.{
  ℕ, suc, zero, Bool, true, false, List, [], ◌∷◌, Option, some, none, ◌==◌, ltb, not, any, is_empty,
  map, min, if◌then◌else◌, ◌>>=◌, ◌>>◌, assert,
}
use rust_ospfd.Packet.Lsa.{Ipv4Addr}
use rust_ospfd.Packet.Types.{backbone_area}
use rust_ospfd.Interface.State.{Interface, new_interface}
use rust_ospfd.Interface.Event as Event
use rust_ospfd.Flooding.{Interfaces, swap_remove_back}
use rust_ospfd.Database.{ProtocolDb, insert_area}
use rust_ospfd.Capture.{IpNetwork, v4, v6}
use rust_ospfd.Command.Text.{Text, byte_len}
use rust_ospfd.Command.Effects.{Named}

-- `pnet`'s `NetworkInterface`.
pub record NetworkInterface : Type 0 where
  pub name : Text
  pub ips : List IpNetwork
  pub device : Event.NetworkInterface

-- `Ipv4Addr::LOCALHOST`, and the size of `ifr_name`.
abbrev pub localhost : Ipv4Addr
localhost = 0x7f00_0001

abbrev pub ifr_name_size : ℕ
ifr_name_size = 16

abbrev pub is_localhost : IpNetwork → Bool
is_localhost (v4 ip mask) = ip == localhost
is_localhost v6 = false

-- `iface.ips.iter().find_map(..)`
unfoldable pub first_v4 : List IpNetwork → Option (Ipv4Addr × Ipv4Addr)
first_v4 [] = none
first_v4 (v4 ip mask ∷ ips) = some (ip, mask)
first_v4 (v6 ∷ ips) = first_v4 ips

-- `Interface::from`
unfoldable pub interface_from :
    (NetworkInterface → Bool) → NetworkInterface → Ipv4Addr → Option Named
unfolding first_v4 new_interface byte_len
interface_from opens n area = do
  (ip, mask) ← first_v4 n.ips
  assert (opens n)
  assert (ltb (byte_len n.name) ifr_name_size)
  some (record { interface_name = n.name; device = n.device; iface = new_interface area ip mask })

-- `start`: nothing for a device with the local address or without one of IPv4.
unfoldable pub start : (NetworkInterface → Bool) → NetworkInterface → Option (Option Named)
unfolding interface_from first_v4
start opens n =
    let made = interface_from opens n backbone_area >>= λ i. some (some i) in
    if any is_localhost n.ips
    then some none
    else elim (first_v4 n.ips) [ none ↦ some none | some x ↦ made ]

-- `datalink::interfaces().iter().filter_map(start).collect()`
unfoldable pub start_all : (NetworkInterface → Bool) → List NetworkInterface → Option (List Named)
unfolding start
start_all opens [] = some []
start_all opens (n ∷ ns) = do
  i ← start opens n
  is ← start_all opens ns
  some (elim i [ none ↦ is | some x ↦ x ∷ is ])

-- The router's identifier of `ProtocolDB::init`.
unfoldable pub least : Ipv4Addr → List Named → Ipv4Addr
least a [] = a
least a (i ∷ is) = least (min a i.iface.ip_addr) is

unfoldable pub init_router_id : List Named → Option Ipv4Addr
unfolding least
init_router_id [] = none
init_router_id (i ∷ is) = some (least i.iface.ip_addr is)

pub record Boot : Type 0 where
  pub router_id : Ipv4Addr
  pub interfaces : List Named
  pub db : ProtocolDb

abbrev pub empty_db : ProtocolDb
empty_db = record { areas = []; external = []; external_routes = []; routing_table = [] }

-- `main`, up to the loop of the commands.
unfoldable pub boot : (NetworkInterface → Bool) → List NetworkInterface → Option Boot
unfolding start_all init_router_id insert_area
boot opens ns = do
  is ← start_all opens ns
  assert (not (is_empty is))
  id ← init_router_id is
  some (record { router_id = id; interfaces = is; db = insert_area backbone_area empty_db })

-- `vec.iter().position(|i| i.ip_addr == ip)`, with the interface found there.
unfoldable pub position_of : Ipv4Addr → List Interface → Option (ℕ × Interface)
position_of ip [] = none
position_of ip (i ∷ is) =
    let later : Option (ℕ × Interface) = (position_of ip is >>= λ p. some (suc p.0, p.1)) in
    if i.ip_addr == ip then some (zero, i) else later

-- `ProtocolDB::upgrade_lock` with `InterfacesGuard::from`: the interface, taken out of all by
-- `swap_remove`, and the others.
unfoldable pub upgrade_lock : Ipv4Addr → List Interface → Option Interfaces
unfolding position_of
upgrade_lock ip is = do
  (at, me) ← position_of ip is
  some (record { me = me; other = swap_remove_back at is })
