-- ===== src/Neighbor/State.antt =====
-- ospfd/neighbor/mod.rs, and `NeighborState` of ospfd/neighbor/state.rs. A task that was spawned is
-- `running` until it is aborted or ends; `abort` ends it at once. A retransmission task holds the
-- packet that it sends again.
use rust_ospfd.Prelude.{ℕ, Bool, true, false, List, [], leb, ◌==◌, not}
use rust_ospfd.Packet.Lsa.{Ipv4Addr, LsaHeader, LsaIndex}
use rust_ospfd.Packet.Types.{DbDescription}

pub data NeighborState : Type 0 where
  down attempt init two_way ex_start exchange loading full : NeighborState

-- The derived `Ord`: the order of declaration.
abbrev pub rank : NeighborState → ℕ
rank down = 0
rank attempt = 1
rank init = 2
rank two_way = 3
rank ex_start = 4
rank exchange = 5
rank loading = 6
rank full = 7

abbrev pub ge_state : NeighborState → NeighborState → Bool
ge_state s t = leb (rank t) (rank s)

abbrev pub eq_state : NeighborState → NeighborState → Bool
eq_state s t = rank s == rank t

pub data AbortHandle : Type 0 where
  idle running : AbortHandle

abbrev pub is_finished : AbortHandle → Bool
is_finished idle = true
is_finished running = false

pub record LsrHandle : Type 0 where
  pub master_task : AbortHandle
  pub child_task : AbortHandle

pub record DdPacketCache : Type 0 where
  pub sequence_number : ℕ
  pub init_bit : Bool
  pub more_bit : Bool
  pub master_bit : Bool

pub data DdRxmt : Type 0 where
  handle : DbDescription → DdRxmt
  packet : DbDescription → DdRxmt
  nothing : DdRxmt

pub record Neighbor : Type 0 where
  pub state : NeighborState
  pub inactive_timer : AbortHandle
  -- true if the neighbor is the master
  pub master : Bool
  pub dd_seq_num : ℕ
  pub dd_last_packet : DdPacketCache
  pub router_id : Ipv4Addr
  pub priority : ℕ
  pub ip_addr : Ipv4Addr
  pub option : ℕ
  pub dr : Ipv4Addr
  pub bdr : Ipv4Addr
  pub dd_rxmt : DdRxmt
  pub lsr_handle : LsrHandle
  pub ls_retransmission_list : List LsaIndex
  pub db_summary_list : List LsaHeader
  pub ls_request_list : List LsaHeader

abbrev pub no_task : LsrHandle
no_task = record { master_task = idle; child_task = idle }

-- `DdPacketCache::default`
abbrev pub default_cache : DdPacketCache
default_cache = record {
  sequence_number = 0;
  init_bit = false;
  more_bit = false;
  master_bit = false;
}

-- `From<&DBDescription> for DdPacketCache`
abbrev pub cache_of : DbDescription → DdPacketCache
cache_of p = record {
  sequence_number = p.db_sequence_number;
  init_bit = not (p.init == 0);
  more_bit = not (p.more == 0);
  master_bit = not (p.master == 0);
}

-- `Neighbor::new`
unfoldable pub new_neighbor : Ipv4Addr → Ipv4Addr → Neighbor
new_neighbor id ip = record {
  state = down;
  inactive_timer = idle;
  master = false;
  dd_seq_num = 0;
  dd_last_packet = default_cache;
  router_id = id;
  priority = 0;
  ip_addr = ip;
  option = 0;
  dr = 0;
  bdr = 0;
  dd_rxmt = nothing;
  lsr_handle = no_task;
  ls_retransmission_list = [];
  db_summary_list = [];
  ls_request_list = [];
}

-- `Neighbor::reset`
unfoldable pub reset : Neighbor → Neighbor
reset n = record n {
  dd_seq_num = 0;
  dd_rxmt = nothing;
  lsr_handle = no_task;
  ls_retransmission_list = [];
  db_summary_list = [];
  ls_request_list = [];
}

-- `Neighbor::is_dr` and `is_bdr`, which `NeighborSubStruct` has too.
abbrev pub is_dr : Neighbor → Bool
is_dr n = n.ip_addr == n.dr

abbrev pub is_bdr : Neighbor → Bool
is_bdr n = n.ip_addr == n.bdr
