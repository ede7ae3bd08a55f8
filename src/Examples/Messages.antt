-- ===== src/Examples/Messages.antt =====
-- Concrete packets given to the handlers.
use rust_ospfd.Prelude.{
  some, if◌then◌else◌, contains, true, false, [], ◌∷◌, ◌++◌, ◌≡◌, refl, ◌⊎◌, arith, ◌≤◌, ◌<◌, ◌+◌,
  length,
}
use rust_ospfd.Packet.Lsa.{LsaHeader, index, index_eq}
use rust_ospfd.Packet.Types.{LsAcknowledge, LsRequest, DbDescription}
use rust_ospfd.Neighbor.State.{
  Neighbor, NeighborState, ex_start, exchange, full, DdPacketCache, cache_of, ge_state,
}
use rust_ospfd.Neighbor.State as NbrState
use rust_ospfd.Neighbor.Event.{negotiation_done, spawn_master_send_dd, exchange_done}
use rust_ospfd.Neighbor.Invariant as Nbr
use rust_ospfd.Interface.State.{Interface}
use rust_ospfd.Interface.Invariant as If
use rust_ospfd.Flooding.{update_of}
use rust_ospfd.Area.Lsdb
use rust_ospfd.Database
use rust_ospfd.Handler.Ack.{ack_neighbor}
use rust_ospfd.Handler.Ack.Cleared.{acknowledged, ack_neighbor-clears}
use rust_ospfd.Handler.Dd.{negotiate, answer_slave}
use rust_ospfd.Handler.Dd.Roles.{negotiate-roles, answer_slave-headers, held}
use rust_ospfd.Handler.Lsr
use rust_ospfd.Handler.Lsr.Answers.{Answered, handle-Answered, handle_total}
use rust_ospfd.Sender.{World, create_packet, send_packet, mark_sent}
use rust_ospfd.Examples.{
  area, env, net, marked_area, interface, neighbor, header, lsa, world, send_whole, nbr_ip,
  first_packet,
}

interface-IsValid : If.IsValid (interface full)
interface-IsValid = ground arith

-- A neighbor that is owed one LSA, and its acknowledgement.
abbrev owed : Neighbor
owed = record (neighbor full) { ls_retransmission_list = index header ∷ [] }

abbrev ack : LsAcknowledge
ack = record { lsa_header = header ∷ [] }

ack_example :
    ((ge_state owed.state exchange ≡ true)
      × (contains (ack_neighbor ack owed).ls_retransmission_list (index header) ≡ (
          if acknowledged ack.lsa_header (index header)
          then false
          else contains owed.ls_retransmission_list (index header))))
    ⊎ ((ge_state owed.state exchange ≡ false) × (ack_neighbor ack owed ≡ owed))
ack_example = ack_neighbor-clears ack owed (index header)

-- The answer of the neighbor that becomes the master.
abbrev slave : Neighbor
slave = record (neighbor exchange) {
  option = 2;
  master = true;
  dd_seq_num = 90;
  db_summary_list = header ∷ [];
}

negotiate_example :
    (slave.state ≡ exchange)
    × (((slave.master ≡ true)
          × (env.router_id < (neighbor ex_start).router_id)
          × (slave.dd_seq_num ≡ first_packet.db_sequence_number))
        ⊎ ((slave.master ≡ false)
            × ((neighbor ex_start).router_id < env.router_id)
            × (slave.dd_seq_num ≡ (neighbor ex_start).dd_seq_num)
            × (first_packet.db_sequence_number ≡ (neighbor ex_start).dd_seq_num)))
unfolding negotiate negotiation_done
negotiate_example =
    negotiate-roles env (header ∷ []) first_packet (neighbor ex_start) {m = slave} refl refl

-- The first answer of a slave that has more to describe.
abbrev answered : Neighbor
answered = record (neighbor exchange) {
  dd_seq_num = 8;
  db_summary_list = [];
  dd_rxmt = NbrState.handle (record {
    interface_mtu = 0;
    options = 2;
    init = 0;
    more = 0;
    master = 1;
    db_sequence_number = 8;
    lsa_header = header ∷ [];
  });
}

abbrev exchanging : Neighbor
exchanging = record (neighbor exchange) { db_summary_list = header ∷ [] }

abbrev more : DdPacketCache
more = record { sequence_number = 7; init_bit = false; more_bit = true; master_bit = false }

answer_slave_example :
    (answered.dd_seq_num ≡ 7 + 1)
    × (((held answered.dd_rxmt ++ answered.db_summary_list ≡ header ∷ [])
          × (length (held answered.dd_rxmt) ≤ 12))
        ⊎ ((true ≡ false) × (exchanging.db_summary_list ≡ [])))
unfolding answer_slave spawn_master_send_dd exchange_done
answer_slave_example = answer_slave-headers more 7 exchanging {m = answered} refl

-- The LSA four seconds after it came.
abbrev aged : LsaHeader
aged = record header { ls_age = 9 }

-- The neighbor after the first packet of its master, and the answer.
abbrev first_answer : DbDescription
first_answer = record {
  interface_mtu = 0;
  options = 2;
  init = 0;
  more = 1;
  master = 0;
  db_sequence_number = 90;
  lsa_header = aged ∷ [];
}

starting : Nbr.IsValid (neighbor ex_start)
starting = ground arith

abbrev request : LsRequest
request = record { ls_type = 3; ls_id = net; advertising_router = 2 }

abbrev sent : World
sent = record {
  send_to = send_whole;
  db = record {
    areas = (0, marked_area) ∷ [];
    external = [];
    external_routes = [];
    routing_table = [];
  };
  out = create_packet env (interface full) (update_of (record lsa { header = aged })) nbr_ip ∷ [];
  routes = [];
}

handle-Answered_example :
    Answered env nbr_ip request (interface full) (neighbor full) world (interface full) sent
unfolding Lsr.handle Lsr.answer Database.get_lsa Lsdb.m_get_lsa send_packet mark_sent create_packet
    Database.lsa_has_sent Lsdb.lsa_has_sent Lsdb.update_lsa_age rust_ospfd.Sender.transmit
    rust_ospfd.Packet.Codec.Packets.to_bytes rust_ospfd.Packet.Codec.Packets.lsu_to_bytes
    rust_ospfd.Packet.Codec.Packets.ack_to_bytes rust_ospfd.Packet.Codec.Whole.lsa_to_bytes
    rust_ospfd.Packet.Codec.header_to_bytes rust_ospfd.Packet.Codec.Whole.body_to_bytes
handle-Answered_example =
    handle-Answered env nbr_ip request (interface full) (neighbor full) world {i' = interface full}
      {w' = sent} refl refl refl

handle_total_example :
    (r : Interface × World) × (Lsr.handle env nbr_ip request (interface full) world ≡ some r)
handle_total_example =
    handle_total env nbr_ip request (interface full) world {n = neighbor full} {a = area} refl refl
      (λ p b e. rw e refl)
