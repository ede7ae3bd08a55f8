-- ===== src/Origin/Bodies.antt =====
-- ospfd/gen_lsa.rs: the bodies of the LSAs that the router makes itself.
use rust_ospfd.Prelude.{
  ℕ, Bool, true, false, List, [], ◌∷◌, ◌++◌, Option, some, none, ◌==◌, not, ◌&&◌, ◌||◌, ltb,
  if◌then◌else◌, ◌%◌, ◌^◌, map, get, filter, values, nat_eq, is_empty, length, ◌>>=◌, ◌>>◌, assert,
}
use rust_ospfd.Packet.Lsa.{
  Ipv4Addr, RouterLsa, RouterLsaLink, NetworkLsa, SummaryLsa, ls_infinity, summary_ip_lsa,
  summary_asbr_lsa, transit_link, stub_link,
}
use rust_ospfd.Packet.Types.{backbone_area}
use rust_ospfd.Neighbor.State.{Neighbor, full, eq_state}
use rust_ospfd.Neighbor.Event.{Env}
use rust_ospfd.Interface.State.{Interface, NetType, broadcast, nbma, is_dr}
use rust_ospfd.Interface.Event.{is_down, is_loopback}
use rust_ospfd.Routing.{
  RoutingTableItem, RoutingTableItemType, RoutingTablePathType, area_internal, area_external,
  as_external_t1, as_external_t2,
}
use rust_ospfd.Database.{ProtocolDb}

-- The link of an interface: to the network, if there is another router on it, or to a stub network.
abbrev pub transit_of : Interface → RouterLsaLink
transit_of i = record {
  link_id = i.dr;
  link_data = i.ip_addr;
  link_type = transit_link;
  tos = 0;
  metric = i.cost;
}

abbrev pub stub_of : Interface → RouterLsaLink
stub_of i = record {
  link_id = i.ip_addr;
  link_data = i.ip_mask;
  link_type = stub_link;
  tos = 0;
  metric = i.cost;
}

abbrev pub is_full : Option Neighbor → Bool
is_full none = false
is_full (some n) = eq_state n.state full

abbrev pub is_transit : Interface → Bool
is_transit i = is_dr i && not (is_empty i.neighbors) || is_full (get i.dr i.neighbors)

abbrev pub is_multi_access : NetType → Bool
is_multi_access broadcast = true
is_multi_access nbma = true
is_multi_access _ = false

-- The body of the loop of `gen_router_lsa`.
unfoldable pub link_of : Ipv4Addr → Interface → Option (List RouterLsaLink)
link_of area i =
    let link = if is_transit i then transit_of i else stub_of i in
    let linked = assert (is_multi_access i.net_type) >> some (link ∷ []) in
    if not (i.area_id == area) || is_down i.state || is_loopback i.state then some [] else linked

unfoldable pub links_of : Ipv4Addr → List Interface → Option (List RouterLsaLink)
unfolding link_of
links_of area [] = some []
links_of area (i ∷ is) = do l ← link_of area i; ls ← links_of area is; some (l ++ ls)

abbrev pub bit : Bool → ℕ
bit true = 1
bit false = 0

unfoldable pub router_body : ProtocolDb → List RouterLsaLink → RouterLsa
router_body db links = record {
  v = 0;
  e = bit (not (is_empty db.external_routes));
  b = bit (ltb 1 (length db.areas));
  num_links = length links % 2 ^ 16;
  links = links;
}

unfoldable pub network_body : Env → Interface → NetworkLsa
network_body env i = record {
  network_mask = i.ip_mask;
  attached_routers =
      map (λ (n : Neighbor). n.router_id) (filter (λ n. eq_state n.state full) (values i.neighbors))
      ++ (env.router_id ∷ []);
}

abbrev pub is_inside : RoutingTablePathType → Bool
is_inside area_internal = true
is_inside area_external = true
is_inside as_external_t1 = false
is_inside as_external_t2 = false

abbrev pub is_internal : RoutingTablePathType → Bool
is_internal area_internal = true
is_internal _ = false

-- The summaries of routes: type, identifier and body.
unfoldable pub summary_of : Interface → RoutingTableItem → List (ℕ × Ipv4Addr × SummaryLsa)
summary_of me i =
    let body : SummaryLsa = record { network_mask = i.addr_mask; metric = i.cost } in
    let packet : List (ℕ × Ipv4Addr × SummaryLsa) = elim i.dest_type [
      | RoutingTableItemType.router ↦
          if me.external_routing then (summary_asbr_lsa, i.dest_id, body) ∷ [] else []
      | RoutingTableItemType.network ↦ (summary_ip_lsa, i.dest_id, body) ∷ []
    ] in
    if is_inside i.path_type
      && (ltb i.cost ls_infinity
          && (not (me.area_id == i.area_id)
              && (not (me.area_id == backbone_area) || is_internal i.path_type)))
    then packet
    else []

unfoldable pub summaries : Interface → List RoutingTableItem → List (ℕ × Ipv4Addr × SummaryLsa)
unfolding summary_of
summaries me [] = []
summaries me (i ∷ is) = summary_of me i ++ summaries me is
