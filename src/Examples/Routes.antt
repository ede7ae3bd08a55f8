-- ===== src/Examples/Routes.antt =====
-- Concrete items of the routing table.
use rust_ospfd.Prelude.{false}
use rust_ospfd.Packet.Lsa.{index}
use rust_ospfd.Routing.{RoutingTableItem, RoutingTableItemType, area_internal}
use rust_ospfd.Examples.{header, net, nbr_ip}

abbrev pub route : RoutingTableItem
route = record {
  dest_type = RoutingTableItemType.network;
  dest_id = net;
  addr_mask = 0xffff_ff00;
  external_cap = false;
  area_id = 0;
  path_type = area_internal;
  cost = 30;
  cost_t2 = 0;
  lsa_origin = index header;
  next_hop = nbr_ip;
  ad_router = 2;
}

abbrev pub cheaper : RoutingTableItem
cheaper = record route { cost = 10 }
