-- ===== src/Area/Routes.antt =====
-- ospfd/area/tree.rs, `get_routing` and `get_routing_external`: the routes that an area gives. `none`
-- is a panic: a failed conversion or `unwrap`, an overflow of a cost, or the shift by 32 of an empty
-- mask.
use rust_ospfd.Prelude.{
  ℕ, Bool, List, [], ◌∷◌, Option, some, none, ◌==◌, not, ◌||◌, ltb, if◌then◌else◌, ◌+◌, ◌^◌, get,
  values, ◌>>=◌, ◌>>◌, assert,
}
use rust_ospfd.Packet.Lsa.{
  Ipv4Addr, LsaHeader, Lsa, SummaryLsa, index, index_eq, lsa_max_age, ls_infinity, summary_ip_lsa,
  summary_asbr_lsa,
}
use rust_ospfd.Packet.Convert.{Converted, ok, err, lsa_to_router, lsa_to_network, lsa_to_summary}
use rust_ospfd.Routing.Mask.{AddrMask, mask_from, mask_of, network_of}
use rust_ospfd.Routing.{RoutingTableItem, RoutingTableItemType, area_internal, area_external}
use rust_ospfd.Area.Nodes.{router, network, stub, node_eq, TreeNode}
use rust_ospfd.Area.Lsdb.{Area, LsaDb, m_get_lsa, get_all_lsa}

-- `unwrap` of a `Result`.
abbrev pub unwrap : {A : Type 0} → Converted A → Option A
unwrap (ok a) = some a
unwrap (err e) = none

abbrev pub first_or : Ipv4Addr → List Ipv4Addr → Ipv4Addr
first_or d [] = d
first_or d (x ∷ xs) = x

-- `(addr.network(), addr.mask())`
unfoldable pub mask_route : AddrMask → Option (RoutingTableItemType × Ipv4Addr × Ipv4Addr)
unfolding network_of mask_of
mask_route m = do
  net ← network_of m
  mask ← mask_of m
  some (RoutingTableItemType.network, net, mask)

-- The destination of a node: type, identifier and mask. The inner `none` leaves the node out.
unfoldable pub destination : TreeNode → Option (Option (RoutingTableItemType × Ipv4Addr × Ipv4Addr))
unfolding lsa_to_router lsa_to_network mask_route mask_from
destination n = elim n.id [
  | router id ↦ unwrap (lsa_to_router n.lsa) >>= λ r.
      some (if r.1.e == 1 then some (RoutingTableItemType.router, id, 0) else none)
  | network ip ↦ unwrap (lsa_to_network n.lsa) >>= λ r.
      (mask_route (mask_from ip r.1.network_mask) >>= λ d. some (some d))
  | stub m ↦ (mask_route m >>= λ d. some (some d))
]

abbrev pub node_item :
    Area → TreeNode → RoutingTableItemType × Ipv4Addr × Ipv4Addr → RoutingTableItem
node_item a n d = record {
  dest_type = d.0;
  dest_id = d.1;
  addr_mask = d.2;
  external_cap = a.external_routing_capability;
  area_id = a.area_id;
  path_type = area_internal;
  cost = n.distance;
  cost_t2 = 0;
  lsa_origin = index n.lsa.header;
  next_hop = first_or 0 n.next_hops;
  ad_router = n.lsa.header.advertising_router;
}

unfoldable pub node_items : Area → List TreeNode → Option (List RoutingTableItem)
unfolding destination
node_items a [] = some []
node_items a (n ∷ ns) = do
  d ← destination n
  items ← node_items a ns
  some (elim d [ none ↦ items | some r ↦ node_item a n r ∷ items ])

-- `ShortPathTree::get_routing`
unfoldable pub get_routing : Area → Option (List RoutingTableItem)
unfolding node_items
get_routing a = node_items a (values a.short_path_tree)

-- The filters on the header.
unfoldable pub is_foreign_summary : ℕ → LsaHeader → Bool
is_foreign_summary router_id h =
    if h.ls_type == summary_ip_lsa || h.ls_type == summary_asbr_lsa
    then (if h.advertising_router == router_id then Bool.false else not (h.ls_age == lsa_max_age))
    else Bool.false

-- The destination that a summary LSA announces. The inner `none` leaves it out.
unfoldable pub summary_destination :
    Area → LsaHeader → SummaryLsa → Option (Option (RoutingTableItemType × Ipv4Addr × Ipv4Addr))
unfolding mask_route mask_from
summary_destination a h l =
    if h.ls_type == summary_ip_lsa
    then (mask_route (mask_from h.link_state_id l.network_mask) >>= λ d. some (some d))
    else if a.external_routing_capability
    then some (some (RoutingTableItemType.router, h.link_state_id, 0))
    else some none

abbrev pub summary_item :
    Area → LsaHeader → ℕ → Ipv4Addr → RoutingTableItemType × Ipv4Addr × Ipv4Addr → RoutingTableItem
summary_item a h cost hop d = record {
  dest_type = d.0;
  dest_id = d.1;
  addr_mask = d.2;
  external_cap = a.external_routing_capability;
  area_id = a.area_id;
  path_type = area_external;
  cost = cost;
  cost_t2 = 0;
  lsa_origin = index h;
  next_hop = hop;
  ad_router = h.advertising_router;
}

-- The last `filter_map`: over the border router that announces the summary.
unfoldable pub via_border : Area → LsaHeader → SummaryLsa → Option (Option RoutingTableItem)
unfolding summary_destination
via_border a h l =
    let through = λ (br : TreeNode) (hop : Ipv4Addr). do
      d ← summary_destination a h l
      elim d [
        | none ↦ some none
        | some r ↦
            assert (ltb (br.distance + l.metric) (2 ^ 32))
            >> some (some (summary_item a h (br.distance + l.metric) hop r))
      ]
    in elim (get (router h.advertising_router) a.short_path_tree) [
      | none ↦ some none
      | some br ↦ elim br.next_hops [ [] ↦ some none | hop ∷ hops ↦ through br hop ]
    ]

-- One LSA of the database: a summary that is near enough.
unfoldable pub summary_route : Area → Lsa → Option (Option RoutingTableItem)
unfolding lsa_to_summary via_border
summary_route a l = do
  r ← unwrap (lsa_to_summary l)
  if ltb r.1.metric ls_infinity then via_border a r.0 r.1 else some none

unfoldable pub summary_items : ℕ → ℕ → Area → List LsaHeader → Option (List RoutingTableItem)
unfolding is_foreign_summary summary_route
summary_items now router_id a [] = some []
summary_items now router_id a (h ∷ hs) =
    let items = summary_items now router_id a hs in
    let found : Option (Option RoutingTableItem) = elim (m_get_lsa now a [] (index h)) [
      | none ↦ some none
      | some r ↦ summary_route a r.0
    ] in
    let with_found = do x ← found; xs ← items; some (elim x [ none ↦ xs | some i ↦ i ∷ xs ])
    in if is_foreign_summary router_id h then with_found else items

-- `ShortPathTree::get_routing_external`
unfoldable pub get_routing_external : ℕ → ℕ → Area → LsaDb → Option (List RoutingTableItem)
unfolding summary_items
get_routing_external now router_id a db = summary_items now router_id a (get_all_lsa now a db)
