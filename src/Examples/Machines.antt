-- ===== src/Examples/Machines.antt =====
-- Concrete histories of a neighbor and of an interface, an election, and the flooding of an LSA.
use rust_ospfd.Prelude.{
  Bool, All, values, ℕ, true, false, List, [], ◌∷◌, some, ◌≡◌, refl, arith, if◌then◌else◌, ◌==◌,
  insert_set,
}
use rust_ospfd.Packet.Lsa.{Ipv4Addr, Lsa, index, index_eq}
use rust_ospfd.Packet.Types.{LsUpdate, lsu, all_spf_routers}
use rust_ospfd.Area.Lsdb
use rust_ospfd.Database
use rust_ospfd.Neighbor.State.{init, ex_start, full}
use rust_ospfd.Neighbor.Event.{Env}
use rust_ospfd.Neighbor.Invariant as Nbr
use rust_ospfd.Neighbor.Invariant.{hello, two_way_seen, negotiated, exchanged, adjacency_check}
use rust_ospfd.Neighbor.Diagram.{◌⟶◌, step-⟶}
use rust_ospfd.Interface.Negotiated.{AreEarly, run-AreEarly}
use rust_ospfd.Interface.State.{Interface}
use rust_ospfd.Interface.Elect.{candidates, elect_loop, elect_round, select_dr}
use rust_ospfd.Interface.Winner.{Chosen, ChosenBdr, select_dr-Chosen}
use rust_ospfd.Interface.Loop.{elect_loop_total}
use rust_ospfd.Interface.Invariant as If
use rust_ospfd.Interface.Invariant.{up, wait_over}
use rust_ospfd.Flooding.{
  flood_neighbors, flood_neighbor, enlist, position, flooding_on, served_already, aged_copy,
  send_copy, update_of,
}
use rust_ospfd.Flooding.Reliable.{Served, Pairwise, flood_neighbors-Served}
use rust_ospfd.Flooding.Total.{flooding_on_total}
use rust_ospfd.Flooding.Sends.{Sends, flooding_on-Sends}
use rust_ospfd.Sender.{World, create_packet, send_packet, mark_sent}
use rust_ospfd.Timers.{retransmit, owed_packets, find_lsas, send_all}
use rust_ospfd.Timers.Retransmitted.{IsOwed, log_after, retransmit-Owed}
use rust_ospfd.Examples.{
  area, env, marked_area, interface, neighbor, lsa, header, world, send_whole, me_ip, nbr_ip,
}

-- Hello, two-way, negotiation and the end of the exchange.
abbrev events : List (Env × Interface × Nbr.Event)
events =
    (env, interface init, hello)
    ∷ (env, interface init, two_way_seen)
    ∷ (env, interface init, negotiated (header ∷ []))
    ∷ (env, interface init, exchanged)
    ∷ []

step-⟶_example : init ⟶ (Nbr.step env (interface init) two_way_seen (neighbor init)).state
step-⟶_example = step-⟶ env (interface init) two_way_seen (neighbor init)

-- A neighbor in ExStart: a Hello, a check of the adjacency, an election, and its end.
abbrev early_events : List (Env × If.Event)
early_events =
    (env, If.Event.nbr nbr_ip hello)
    ∷ (env, If.Event.nbr nbr_ip adjacency_check)
    ∷ (env, If.Event.nbr_change)
    ∷ (env, If.Event.killed nbr_ip)
    ∷ []

run-AreEarly_example : AreEarly (If.run early_events (interface ex_start)).neighbors
run-AreEarly_example = run-AreEarly early_events (interface ex_start) refl (omega arith, tt)

select_dr-Chosen_example :
    (b : ℕ) × ChosenBdr (candidates env (interface full)) b
    × Chosen
        (λ v. v.dr == v.ip)
        (candidates env (interface full))
        b
        (select_dr env (interface full)).dr
    × ((select_dr env (interface full)).bdr
        ≡ (if (select_dr env (interface full)).dr == b then 0 else b))
select_dr-Chosen_example = select_dr-Chosen env (interface full)

elect_loop_total_example :
    elect_loop 2 (candidates env (interface full)) (interface full)
    ≡ some (elect_round (candidates env (interface full)) (interface full)).0
elect_loop_total_example = elect_loop_total 0 (candidates env (interface full)) (interface full)

abbrev interface_events : List (Env × If.Event)
interface_events =
    (env, up (record { is_point_to_point = false; is_multicast = true; is_broadcast = true }))
    ∷ (env, wait_over)
    ∷ []

flood_neighbors-Served_example :
    Pairwise
      (Served me_ip lsa)
      (interface full).neighbors
      (flood_neighbors me_ip lsa (interface full).neighbors).0
flood_neighbors-Served_example = flood_neighbors-Served me_ip lsa (interface full).neighbors

-- The flooding of the router's own LSA: the copy that leaves, and what it leaves behind.
abbrev copy : Lsa
copy = record lsa { header = record header { ls_age = 6 } }

abbrev after : World
after = record {
  send_to = send_whole;
  db = record {
    areas = (0, marked_area) ∷ [];
    external = [];
    external_routes = [];
    routing_table = [];
  };
  out = create_packet env (interface full) (update_of copy) all_spf_routers ∷ [];
  routes = [];
}

abbrev owing : Interface
owing = record (interface full) {
  neighbors = (nbr_ip, record (neighbor full) { ls_retransmission_list = index header ∷ [] }) ∷ [];
}

flooding_on-Sends_example :
    (owing ≡ record (interface full) {
      neighbors = (flood_neighbors me_ip lsa (interface full).neighbors).0;
    })
    × Sends env lsa (interface full) world after true
unfolding flooding_on flood_neighbors flood_neighbor position enlist served_already send_copy
    aged_copy send_packet mark_sent create_packet Database.lsa_has_sent Lsdb.lsa_has_sent insert_set
    rust_ospfd.Sender.transmit rust_ospfd.Packet.Codec.Packets.to_bytes
    rust_ospfd.Packet.Codec.Packets.lsu_to_bytes rust_ospfd.Packet.Codec.Packets.ack_to_bytes
    rust_ospfd.Packet.Codec.Whole.lsa_to_bytes rust_ospfd.Packet.Codec.header_to_bytes
    rust_ospfd.Packet.Codec.Whole.body_to_bytes
flooding_on-Sends_example =
    flooding_on-Sends env me_ip me_ip lsa (interface full) world {i' = owing} {w' = after}
      {b = true} refl

-- The repetition of an LSA that the neighbor has not acknowledged.
abbrev update : LsUpdate
update = record { num_lsa = 1; lsa = (record lsa { header = record header { ls_age = 9 } }) ∷ [] }

abbrev sent_again : World
sent_again = record {
  send_to = send_whole;
  db = record {
    areas = (0, marked_area) ∷ [];
    external = [];
    external_routes = [];
    routing_table = [];
  };
  out = create_packet env owing (lsu update) nbr_ip ∷ [];
  routes = [];
}

retransmit-Owed_example :
    (ps : List (LsUpdate × Ipv4Addr)) × All (IsOwed (values owing.neighbors)) ps
    × (sent_again.out ≡ log_after env owing ps [])
unfolding retransmit owed_packets find_lsas send_all Database.get_lsa Lsdb.m_get_lsa
    Lsdb.update_lsa_age send_packet mark_sent create_packet Database.lsa_has_sent Lsdb.lsa_has_sent
    rust_ospfd.Sender.transmit rust_ospfd.Packet.Codec.Packets.to_bytes
    rust_ospfd.Packet.Codec.Packets.lsu_to_bytes rust_ospfd.Packet.Codec.Packets.ack_to_bytes
    rust_ospfd.Packet.Codec.Whole.lsa_to_bytes rust_ospfd.Packet.Codec.header_to_bytes
    rust_ospfd.Packet.Codec.Whole.body_to_bytes
retransmit-Owed_example = retransmit-Owed env owing world {w' = sent_again} refl

flooding_on_total_example :
    (r : Interface × World × Bool) × (flooding_on env me_ip nbr_ip lsa (interface full) world
      ≡ some r)
flooding_on_total_example =
    flooding_on_total env me_ip nbr_ip lsa (interface full) world {a = area} {n = neighbor full}
      refl refl (omega arith) (λ p b e. rw e refl)
