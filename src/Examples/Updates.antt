-- ===== src/Examples/Updates.antt =====
-- Updates, and LSAs of the router's own, in the area of the examples.
use rust_ospfd.Prelude.{
  ℕ, Bool, true, false, List, [], ◌∷◌, ◌++◌, Option, some, none, ◌≡◌, ◌⊎◌, refl, arith, inl, inr,
  map, In, All,
}
use rust_ospfd.Prelude.Int.{negsuc}
use rust_ospfd.Packet.Lsa.{Lsa, index, network_lsa}
use rust_ospfd.Packet.Bits.{Bytes}
use rust_ospfd.Packet.Checksum.{update_checksum}
use rust_ospfd.Packet.Convert.{network_to_lsa}
use rust_ospfd.Packet.Ospf.{auto_set_checksum, auto_test_checksum}
use rust_ospfd.Packet.Ospf.Tested.{auto_test-auto_set}
use rust_ospfd.Neighbor.State.{Neighbor, exchange, full}
use rust_ospfd.Area.Lsdb.{Area}
use rust_ospfd.Sender.{World}
use rust_ospfd.Flooding.{Interfaces}
use rust_ospfd.Origin.Bodies.{network_body}
use rust_ospfd.Origin.{all_interfaces, gen_lsa_impl, gen_summary_lsa}
use rust_ospfd.Origin.Newer.{IsFresh, gen_lsa_impl-IsFresh}
use rust_ospfd.Handler.Lsu.{Progress, break, accept, handle_one, handle_all, take_answer}
use rust_ospfd.Handler.Lsu.Accepted.{IsReplaced, accept-IsReplaced}
use rust_ospfd.Handler.Lsu.Delayed.{IsRestarted}
use rust_ospfd.Handler.Lsu.Packet.{handle_one-IsRestarted, handle_all-delay}
use rust_ospfd.Examples.{env, lsa, header, area, world, interface, neighbor, nbr_ip, me_ip}

abbrev packet_bytes : Bytes
packet_bytes =
    2 ∷ 1 ∷ 0 ∷ 24 ∷ 0 ∷ 0 ∷ 0 ∷ 1 ∷ 0 ∷ 0 ∷ 0 ∷ 0 ∷ 7 ∷ 7 ∷ 0 ∷ 0 ∷ 0 ∷ 0 ∷ 0 ∷ 0 ∷ 0 ∷ 0 ∷ 0 ∷ 0
    ∷ []

auto_test-auto_set_example :
    (r : Bytes) × (auto_set_checksum packet_bytes ≡ some r) × (auto_test_checksum r ≡ some true)
auto_test-auto_set_example = auto_test-auto_set packet_bytes 12 (ground arith) refl (omega arith)

-- A network LSA, for a network with one adjacent router.
abbrev pub interfaces : Interfaces
interfaces = record { me = interface full; other = [] }

abbrev made : Interfaces × World
unfolding gen_lsa_impl
made =
    elim (gen_lsa_impl env network_lsa me_ip 1
      (λ h. network_to_lsa h (network_body env (interface full))) interfaces world) [
        | some r ↦ r
        | none ↦ (interfaces, world)
      ]

gen_lsa_impl-IsFresh_example :
    (made ≡ (interfaces, world))
    ⊎ IsFresh env
        (record { ls_type = network_lsa; ls_id = me_ip; ad_router = 1 })
        interfaces
        world
        made
unfolding gen_lsa_impl network_to_lsa network_body rust_ospfd.Packet.Checksum.update_length
    update_checksum rust_ospfd.Database.get_lsa rust_ospfd.Area.Lsdb.m_get_lsa
    rust_ospfd.Packet.Codec.Whole.lsa_to_bytes rust_ospfd.Packet.Codec.header_to_bytes
    rust_ospfd.Packet.Codec.Whole.body_to_bytes rust_ospfd.Packet.Checksum.checksum
    rust_ospfd.Database.insert_lsa rust_ospfd.Area.Lsdb.insert_lsa rust_ospfd.Area.Lsdb.need_update
    rust_ospfd.Area.Lsdb.m_insert_lsa rust_ospfd.Flooding.flooding
    rust_ospfd.Flooding.flood_interface rust_ospfd.Flooding.flooding_on
    rust_ospfd.Flooding.flood_neighbors rust_ospfd.Flooding.flood_neighbor
    rust_ospfd.Flooding.position rust_ospfd.Flooding.enlist rust_ospfd.Flooding.served_already
    rust_ospfd.Flooding.send_copy rust_ospfd.Flooding.aged_copy rust_ospfd.Flooding.flood_interfaces
    rust_ospfd.Sender.send_packet rust_ospfd.Database.lsa_has_sent rust_ospfd.Area.Lsdb.lsa_has_sent
    rust_ospfd.Packet.Order.header_ge rust_ospfd.Packet.Order.cmp rust_ospfd.Packet.Order.cmp_age
    rust_ospfd.Database.recalc_routing rust_ospfd.Area.Edges.copy_lsas
    rust_ospfd.Area.Lsdb.get_all_area_lsa rust_ospfd.Area.Lsdb.live_headers
    rust_ospfd.Area.Edges.edges_of rust_ospfd.Area.Edges.add_stubs rust_ospfd.Area.Lsdb.get_all_lsa
    rust_ospfd.Sender.transmit rust_ospfd.Packet.Codec.Packets.to_bytes
    rust_ospfd.Packet.Codec.Packets.lsu_to_bytes rust_ospfd.Packet.Codec.Packets.ack_to_bytes
gen_lsa_impl-IsFresh_example =
    gen_lsa_impl-IsFresh env network_lsa me_ip 1
      (λ h. network_to_lsa h (network_body env (interface full))) interfaces world made
      (λ h l e. ground arith) refl

-- A newer instance of the LSA of the area, from one of two neighbors.
abbrev pub newer_lsa : Lsa
newer_lsa = record lsa {
  header = record header { ls_sequence_number = negsuc 0x7fff_fffd; ls_checksum = 26994 };
}

abbrev third : Neighbor
third = record (neighbor full) { router_id = 3; ip_addr = 0x0a00_0003 }

abbrev busy : Interfaces
busy = record {
  me = record (interface full) { neighbors = (nbr_ip, neighbor full) ∷ (0x0a00_0003, third) ∷ [] };
  other = [];
}

abbrev found : Lsa × ℕ × ℕ
found = (record lsa { header = record header { ls_age = 9 } }, 1000, 1000)

abbrev before : Progress
before = record { interfaces = busy; world = world; delay = [] }

abbrev after : Progress
unfolding accept
after = elim (accept env nbr_ip newer_lsa (some found) before) [ some q ↦ q | none ↦ before ]

accept-IsReplaced_example : IsReplaced env nbr_ip newer_lsa before after
unfolding accept gen_summary_lsa rust_ospfd.Prelude.contains rust_ospfd.Origin.recalc
    rust_ospfd.Database.get_lsa rust_ospfd.Area.Lsdb.m_get_lsa
    rust_ospfd.Packet.Codec.Whole.lsa_to_bytes rust_ospfd.Packet.Codec.header_to_bytes
    rust_ospfd.Packet.Codec.Whole.body_to_bytes rust_ospfd.Packet.Checksum.checksum
    rust_ospfd.Database.insert_lsa rust_ospfd.Area.Lsdb.insert_lsa rust_ospfd.Area.Lsdb.need_update
    rust_ospfd.Area.Lsdb.m_insert_lsa rust_ospfd.Flooding.flooding
    rust_ospfd.Flooding.flood_interface rust_ospfd.Flooding.flooding_on
    rust_ospfd.Flooding.flood_neighbors rust_ospfd.Flooding.flood_neighbor
    rust_ospfd.Flooding.position rust_ospfd.Flooding.enlist rust_ospfd.Flooding.served_already
    rust_ospfd.Flooding.send_copy rust_ospfd.Flooding.aged_copy rust_ospfd.Flooding.flood_interfaces
    rust_ospfd.Sender.send_packet rust_ospfd.Database.lsa_has_sent rust_ospfd.Area.Lsdb.lsa_has_sent
    rust_ospfd.Packet.Order.header_ge rust_ospfd.Packet.Order.cmp rust_ospfd.Packet.Order.cmp_age
    rust_ospfd.Database.recalc_routing rust_ospfd.Area.Edges.copy_lsas
    rust_ospfd.Area.Lsdb.get_all_area_lsa rust_ospfd.Area.Lsdb.live_headers
    rust_ospfd.Area.Edges.edges_of rust_ospfd.Area.Edges.add_stubs rust_ospfd.Area.Lsdb.get_all_lsa
    rust_ospfd.Sender.transmit rust_ospfd.Packet.Codec.Packets.to_bytes
    rust_ospfd.Packet.Codec.Packets.lsu_to_bytes rust_ospfd.Packet.Codec.Packets.ack_to_bytes
accept-IsReplaced_example = accept-IsReplaced env nbr_ip newer_lsa found before after refl refl

-- Its only neighbor sends it: the acknowledgement is delayed.
abbrev alone : Progress
alone = record { interfaces = interfaces; world = world; delay = [] }

abbrev handled : Progress
unfolding handle_all
handled = elim (handle_all env nbr_ip (newer_lsa ∷ []) alone) [ some q ↦ q | none ↦ alone ]

handle_all-delay_example :
    In newer_lsa.header [] ⊎ In newer_lsa.header (map (λ (l : Lsa). l.header) (newer_lsa ∷ []))
unfolding handle_all rust_ospfd.Prelude.contains rust_ospfd.Origin.recalc gen_summary_lsa
    rust_ospfd.Packet.Checksum.checksum_ok rust_ospfd.Database.contains_lsa
    rust_ospfd.Database.need_update rust_ospfd.Packet.Order.header_eq rust_ospfd.Database.get_lsa
    rust_ospfd.Area.Lsdb.m_get_lsa rust_ospfd.Packet.Codec.Whole.lsa_to_bytes
    rust_ospfd.Packet.Codec.header_to_bytes rust_ospfd.Packet.Codec.Whole.body_to_bytes
    rust_ospfd.Packet.Checksum.checksum rust_ospfd.Database.insert_lsa
    rust_ospfd.Area.Lsdb.insert_lsa rust_ospfd.Area.Lsdb.need_update
    rust_ospfd.Area.Lsdb.m_insert_lsa rust_ospfd.Flooding.flooding
    rust_ospfd.Flooding.flood_interface rust_ospfd.Flooding.flooding_on
    rust_ospfd.Flooding.flood_neighbors rust_ospfd.Flooding.flood_neighbor
    rust_ospfd.Flooding.position rust_ospfd.Flooding.enlist rust_ospfd.Flooding.served_already
    rust_ospfd.Flooding.send_copy rust_ospfd.Flooding.aged_copy rust_ospfd.Flooding.flood_interfaces
    rust_ospfd.Sender.send_packet rust_ospfd.Database.lsa_has_sent rust_ospfd.Area.Lsdb.lsa_has_sent
    rust_ospfd.Packet.Order.header_ge rust_ospfd.Packet.Order.cmp rust_ospfd.Packet.Order.cmp_age
    rust_ospfd.Database.recalc_routing rust_ospfd.Area.Edges.copy_lsas
    rust_ospfd.Area.Lsdb.get_all_area_lsa rust_ospfd.Area.Lsdb.live_headers
    rust_ospfd.Area.Edges.edges_of rust_ospfd.Area.Edges.add_stubs rust_ospfd.Area.Lsdb.get_all_lsa
    rust_ospfd.Sender.transmit rust_ospfd.Packet.Codec.Packets.to_bytes
    rust_ospfd.Packet.Codec.Packets.lsu_to_bytes rust_ospfd.Packet.Codec.Packets.ack_to_bytes
handle_all-delay_example =
    handle_all-delay env nbr_ip (newer_lsa ∷ []) alone handled newer_lsa.header refl (inl refl)

-- An LSA that is in the database already, and still requested from the neighbor.
abbrev known_world : World
known_world = record world {
  db = record world.db {
    areas =
        (
          0,
          record area {
            lsa_database =
                (index header, record { lsa = newer_lsa; created = 1000; updated = 1000 }) ∷ [];
          },
        )
        ∷ [];
  };
}

abbrev asking : Progress
asking = record {
  interfaces = record {
    me = record (interface exchange) {
      neighbors =
          (
            nbr_ip,
            record (neighbor exchange) {
              ls_request_list = record header { link_state_id = 9 } ∷ newer_lsa.header ∷ [];
            },
          )
          ∷ [];
    };
    other = [];
  };
  world = known_world;
  delay = [];
}

abbrev stopped : Progress
unfolding handle_one
stopped = elim (handle_one env nbr_ip newer_lsa asking) [ some (break q) ↦ q | _ ↦ alone ]

handle_one-IsRestarted_example :
    (stopped.world ≡ known_world)
    × (stopped.delay ≡ [])
    × ((p : Progress) × (take_answer nbr_ip newer_lsa asking ≡ some p)
        × IsRestarted env nbr_ip newer_lsa p stopped)
unfolding handle_one rust_ospfd.Packet.Checksum.checksum_ok
    rust_ospfd.Packet.Codec.Whole.lsa_to_bytes rust_ospfd.Packet.Codec.header_to_bytes
    rust_ospfd.Packet.Codec.Whole.body_to_bytes rust_ospfd.Packet.Checksum.checksum
    rust_ospfd.Database.contains_lsa rust_ospfd.Database.need_update
    rust_ospfd.Area.Lsdb.need_update rust_ospfd.Area.Lsdb.m_get_lsa
    rust_ospfd.Packet.Order.header_ge rust_ospfd.Packet.Order.cmp rust_ospfd.Packet.Order.cmp_age
    rust_ospfd.Packet.Order.header_eq
handle_one-IsRestarted_example = handle_one-IsRestarted env nbr_ip newer_lsa asking stopped refl
