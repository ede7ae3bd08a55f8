-- ===== src/Examples.antt =====
-- The data of the concrete runs in the children.
pub mod Packets
pub mod Machines
pub mod Messages
pub mod Routes
pub mod Trees
pub mod Tables
pub mod Updates
pub mod Received
pub mod Commands
pub mod Started
use rust_ospfd.Prelude.{ℕ, Option, some, ◌>>=◌, ◌+◌, length, Bool, true, false, List, [], ◌∷◌}
use rust_ospfd.Prelude.Int.{ℤ, pos, negsuc}
use rust_ospfd.Packet.Lsa.{Ipv4Addr, LsaHeader, Lsa, summary_ip, SummaryLsa, index}
use rust_ospfd.Packet.Types.{HelloPacket, DbDescription, option_e}
use rust_ospfd.Neighbor.State.{
  Neighbor, NeighborState, new_neighbor, ex_start, exchange, full, no_task, default_cache, nothing,
  running, idle,
}
use rust_ospfd.Neighbor.Event.{Env}
use rust_ospfd.Interface.State.{Interface, broadcast, designated}
use rust_ospfd.Area.Lsdb.{Area}
use rust_ospfd.Database.{ProtocolDb}
use rust_ospfd.Packet.Codec.Packets.{to_bytes}
use rust_ospfd.Sender.{World, Sent, packet_header_size}

-- 10.0.0.1, 10.0.0.2 and 192.168.1.0.
abbrev pub me_ip : Ipv4Addr
me_ip = 0x0a00_0001

abbrev pub nbr_ip : Ipv4Addr
nbr_ip = 0x0a00_0002

abbrev pub net : Ipv4Addr
net = 0xc0a8_0100

abbrev pub env : Env
env = record { router_id = 1; unix_secs = 70000; now = 5000 }

abbrev pub header : LsaHeader
header = record {
  ls_age = 5;
  options = 2;
  ls_type = 3;
  link_state_id = net;
  advertising_router = 2;
  ls_sequence_number = negsuc 0x7fff_fffe;
  ls_checksum = 0;
  length = 28;
}

abbrev pub body : SummaryLsa
body = record { network_mask = 0xffff_ff00; metric = 20 }

abbrev pub lsa : Lsa
lsa = record { header = header; body = summary_ip body }

-- A neighbor that has settled in a state.
abbrev pub neighbor : NeighborState → Neighbor
neighbor s = record {
  state = s;
  inactive_timer = running;
  master = false;
  dd_seq_num = 7;
  dd_last_packet = default_cache;
  router_id = 2;
  priority = 1;
  ip_addr = nbr_ip;
  option = 2;
  dr = me_ip;
  bdr = nbr_ip;
  dd_rxmt = nothing;
  lsr_handle = no_task;
  ls_retransmission_list = [];
  db_summary_list = [];
  ls_request_list = [];
}

abbrev pub interface : NeighborState → Interface
interface s = record {
  net_type = broadcast;
  state = designated;
  ip_addr = me_ip;
  ip_mask = 0xffff_ff00;
  area_id = 0;
  hello_interval = 10;
  dead_interval = 40;
  inf_trans_delay = 1;
  router_priority = 1;
  external_routing = true;
  hello_timer = running;
  wait_timer = idle;
  retransmission_timer = running;
  neighbors = (nbr_ip, neighbor s) ∷ [];
  dr = me_ip;
  bdr = nbr_ip;
  cost = 1;
  rxmt_interval = 4;
  au_type = 0;
  au_key = 0;
}

abbrev pub area : Area
area = record {
  area_id = 0;
  short_path_tree = [];
  lsa_database = (index header, record { lsa = lsa; created = 1000; updated = 1000 }) ∷ [];
  transit_capability = false;
  external_routing_capability = true;
  stub_default_cost = 0;
}

-- The area once the LSA has been sent.
abbrev pub marked_area : Area
marked_area = record area {
  lsa_database = (index header, record { lsa = lsa; created = 1000; updated = 5000 }) ∷ [];
}

-- A device that sends every packet whole.
abbrev pub send_whole : ℕ → Sent → Option ℕ
send_whole k packet = do
  payload ← to_bytes packet.payload
  some (packet_header_size + length payload)

abbrev pub world : World
world = record {
  send_to = send_whole;
  db = record { areas = (0, area) ∷ []; external = []; external_routes = []; routing_table = [] };
  out = [];
  routes = [];
}

-- The first description packet of a master.
abbrev pub first_packet : DbDescription
first_packet = record {
  interface_mtu = 0;
  options = 2;
  init = 1;
  more = 1;
  master = 1;
  db_sequence_number = 90;
  lsa_header = [];
}
