-- ===== src/Interface/State.antt =====
-- ospfd/interface/mod.rs, and `InterfaceState` of ospfd/interface/state.rs. `me`, `interface_name`
-- and `sender` are handles of the host and are left out. `neighbors` is in the order in which the
-- map happens to iterate.
use rust_ospfd.Prelude.{ℕ, Bool, true, List, [], ◌==◌, not, ◌&&◌, filter}
use rust_ospfd.Packet.Lsa.{Ipv4Addr}
use rust_ospfd.Neighbor.State.{Neighbor, AbortHandle, idle, eq_state}
use rust_ospfd.Neighbor.State

pub data NetType : Type 0 where
  p2p broadcast nbma p2mp virtual : NetType

pub data InterfaceState : Type 0 where
  down loopback waiting point_to_point dr_other backup designated : InterfaceState

pub record Interface : Type 0 where
  pub net_type : NetType
  pub state : InterfaceState
  pub ip_addr : Ipv4Addr
  pub ip_mask : Ipv4Addr
  pub area_id : Ipv4Addr
  pub hello_interval : ℕ
  pub dead_interval : ℕ
  pub inf_trans_delay : ℕ
  pub router_priority : ℕ
  pub external_routing : Bool
  pub hello_timer : AbortHandle
  pub wait_timer : AbortHandle
  pub retransmission_timer : AbortHandle
  pub neighbors : List (Ipv4Addr × Neighbor)
  pub dr : Ipv4Addr
  pub bdr : Ipv4Addr
  pub cost : ℕ
  pub rxmt_interval : ℕ
  pub au_type : ℕ
  pub au_key : ℕ

-- `Interface::new`
unfoldable pub new_interface : Ipv4Addr → Ipv4Addr → Ipv4Addr → Interface
new_interface area ip mask = record {
  net_type = broadcast;
  state = down;
  ip_addr = ip;
  ip_mask = mask;
  area_id = area;
  hello_interval = 10;
  dead_interval = 40;
  inf_trans_delay = 1;
  router_priority = 1;
  external_routing = true;
  hello_timer = idle;
  wait_timer = idle;
  retransmission_timer = idle;
  neighbors = [];
  dr = 0;
  bdr = 0;
  cost = 1;
  rxmt_interval = 4;
  au_type = 0;
  au_key = 0;
}

-- `Interface::shrink_neighbors`
unfoldable pub shrink_neighbors : Interface → Interface
shrink_neighbors i = record i {
  neighbors = filter (λ p. not (eq_state p.1.state State.NeighborState.down)) i.neighbors;
}

-- `Interface::reset`
unfoldable pub reset : Interface → Interface
reset i = record i {
  hello_timer = idle;
  wait_timer = idle;
  retransmission_timer = idle;
  neighbors = [];
  dr = 0;
  bdr = 0;
  cost = 0;
}

abbrev pub is_dr : Interface → Bool
is_dr i = i.dr == i.ip_addr

abbrev pub is_bdr : Interface → Bool
is_bdr i = i.bdr == i.ip_addr

abbrev pub is_drother : Interface → Bool
is_drother i = not (is_dr i) && not (is_bdr i)

-- `matches!(net_type, NetType::P2P | NetType::P2MP | NetType::Virtual)`
abbrev pub always_adjacent : NetType → Bool
always_adjacent p2p = true
always_adjacent p2mp = true
always_adjacent virtual = true
always_adjacent broadcast = Bool.false
always_adjacent nbma = Bool.false

-- `matches!(net_type, NetType::P2P | NetType::Virtual)`
abbrev pub is_p2p_or_virtual : NetType → Bool
is_p2p_or_virtual p2p = true
is_p2p_or_virtual virtual = true
is_p2p_or_virtual p2mp = Bool.false
is_p2p_or_virtual broadcast = Bool.false
is_p2p_or_virtual nbma = Bool.false
