-- ===== src/Interface/Event.antt =====
-- ospfd/interface/state.rs, `InterfaceEvent`, and the neighbor events of ospfd/neighbor/state.rs
-- that end in the interface's `neighbor_change`. What the host says of the network device
-- (`pnet`'s `NetworkInterface`) is an argument.
use rust_ospfd.Prelude.{
  Bool, true, false, ◌==◌, ◌&&◌, if◌then◌else◌, some, none, modify, get, nat_eq, map, values,
}
use rust_ospfd.Packet.Lsa.{Ipv4Addr}
use rust_ospfd.Packet.Types.{HelloPacket, option_e}
use rust_ospfd.Neighbor.State.{Neighbor, running, idle, ge_state, two_way}
use rust_ospfd.Neighbor.State
use rust_ospfd.Neighbor.Event.{Env}
use rust_ospfd.Interface.State as IfState
use rust_ospfd.Interface.State.{
  Interface, NetType, p2p, p2mp, broadcast, nbma, virtual, InterfaceState, down, loopback, waiting,
  point_to_point, dr_other, backup, designated, always_adjacent,
}
use rust_ospfd.Interface.Elect.{select_dr}

pub record NetworkInterface : Type 0 where
  pub is_point_to_point : Bool
  pub is_multicast : Bool
  pub is_broadcast : Bool

abbrev pub is_down : InterfaceState → Bool
is_down down = true
is_down _ = false

abbrev pub is_loopback : InterfaceState → Bool
is_loopback loopback = true
is_loopback _ = false

abbrev pub is_waiting : InterfaceState → Bool
is_waiting waiting = true
is_waiting _ = false

-- `matches!(old, DROther | Backup | DR)`
abbrev pub has_elected : InterfaceState → Bool
has_elected dr_other = true
has_elected backup = true
has_elected designated = true
has_elected _ = false

unfoldable pub net_type_of : NetworkInterface → NetType
net_type_of dev =
    if dev.is_point_to_point && dev.is_multicast
    then p2mp
    else if dev.is_point_to_point
    then p2p
    else if dev.is_broadcast
    then broadcast
    else if dev.is_multicast
    then nbma
    else virtual

-- `interface_up`, with `set_hello_timer`.
unfoldable pub interface_up : NetworkInterface → Interface → Interface
unfolding net_type_of
interface_up dev i =
    let net = net_type_of dev in
    let up = record i { net_type = net; hello_timer = running; retransmission_timer = running } in
    if is_down i.state
    then (if always_adjacent net
        then record up { state = point_to_point }
        else if i.router_priority == 0
        then record up { state = dr_other }
        else record up { state = waiting; wait_timer = running })
    else i

-- `wait_timer` and `backup_seen`
unfoldable pub end_waiting : Env → Interface → Interface
end_waiting env i = if is_waiting i.state then select_dr env i else i

-- `neighbor_change`
unfoldable pub neighbor_change : Env → Interface → Interface
neighbor_change env i = if has_elected i.state then select_dr env i else i

-- `loop_ind`
unfoldable pub loop_ind : Interface → Interface
unfolding IfState.reset
loop_ind i = record (IfState.reset i) { state = loopback }

-- `unloop_ind`
unfoldable pub unloop_ind : Interface → Interface
unloop_ind i = if is_loopback i.state then record i { state = down } else i

-- `interface_down`
unfoldable pub interface_down : Interface → Interface
unfolding IfState.reset
interface_down i = record (IfState.reset i) { state = down }

-- A change of the neighbor of a `RefNeighbor`.
abbrev pub on_neighbor : Ipv4Addr → (Neighbor → Neighbor) → Interface → Interface
on_neighbor ip f i = record i { neighbors = modify ip f i.neighbors }

-- `one_way_received`: only a neighbor that is two-way at least is changed.
abbrev pub fall_to_init : Neighbor → Neighbor
fall_to_init n = record (State.reset n) { state = State.init }

unfoldable pub one_way_received : Env → Ipv4Addr → Interface → Interface
one_way_received env ip i = elim (get ip i.neighbors) [
  | none ↦ i
  | some n ↦
      if ge_state n.state two_way then neighbor_change env (on_neighbor ip fall_to_init i) else i
]

-- The neighbor's part of `kill_nbr` and `ll_down`.
abbrev pub fall_down : Neighbor → Neighbor
fall_down n = record (State.reset n) { inactive_timer = idle; state = State.NeighborState.down }

-- `kill_nbr` and `ll_down`
unfoldable pub kill_nbr : Env → Ipv4Addr → Interface → Interface
kill_nbr env ip i = neighbor_change env (on_neighbor ip fall_down i)

-- `inactivity_timer`, which the timer's own task runs.
abbrev pub time_out : Neighbor → Neighbor
time_out n = record (State.reset n) { state = State.NeighborState.down }

unfoldable pub inactivity_timer : Env → Ipv4Addr → Interface → Interface
inactivity_timer env ip i = neighbor_change env (on_neighbor ip time_out i)

-- `send_hello`: the packet that it sends, after `shrink_neighbors`.
unfoldable pub hello_of : Interface → HelloPacket
hello_of i = record {
  network_mask = i.ip_mask;
  hello_interval = i.hello_interval;
  options = if i.external_routing then option_e else 0;
  router_priority = i.router_priority;
  router_dead_interval = i.dead_interval;
  designated_router = i.dr;
  backup_designated_router = i.bdr;
  neighbors = map (λ (n : Neighbor). n.router_id) (values i.neighbors);
}
