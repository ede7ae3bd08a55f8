-- ===== src/Routing/Table.antt =====
-- `RoutingTable` of ospfd/database/routing.rs. The calls that change the kernel's table are a list of
-- requests; what the kernel does with them, and the errors that are logged, are left out. `none` is a
-- panic.
pub mod Lookup
pub mod Keyed
pub mod Recalculated
pub mod Requests
pub mod Synced
use rust_ospfd.Prelude.{
  ℕ, zero, suc, Bool, true, false, List, [], ◌∷◌, ◌++◌, Option, some, none, ◌==◌, not, ◌&&◌, ltb,
  if◌then◌else◌, ◌+◌, ◌^◌, ◌≡◌, ◌↔◌, arith, Eq, map, get, insert, values, ◌>>=◌, ◌>>◌, assert,
}
use rust_ospfd.Packet.Lsa.{Ipv4Addr, LsaHeader, AsExternalLsa, index, ls_infinity}
use rust_ospfd.Routing.Mask.{AddrMask, mask_beq, mask_from, mask_of, network_of}
use rust_ospfd.Routing.{
  RoutingTableItem, RoutingTableItemType, as_external_t1, as_external_t2, better_than,
}
use rust_ospfd.Area.Lsdb.{Area, LsaDb, Entry, external_lsas}
use rust_ospfd.Area.Tree.{calculate}
use rust_ospfd.Area.Routes.{get_routing, get_routing_external, mask_route}

pub data RoutingTableIndex : Type 0 where
  network : AddrMask → RoutingTableIndex
  asbr_router : Ipv4Addr → RoutingTableIndex

abbrev pub route_beq : RoutingTableIndex → RoutingTableIndex → Bool
route_beq (network a) (network b) = mask_beq a b
route_beq (asbr_router a) (asbr_router b) = a == b
route_beq (network a) (asbr_router b) = false
route_beq (asbr_router a) (network b) = false

pub route_beq_iff : (a b : RoutingTableIndex) → (route_beq a b ≡ true) ↔ (a ≡ b)
route_beq_iff a b = ground arith

instance abbrev pub route_eq : Eq RoutingTableIndex
route_eq = record { beq = route_beq; beq_iff = route_beq_iff }

-- `From<RoutingTableItem> for RoutingTableIndex`
unfoldable pub route_index : RoutingTableItem → RoutingTableIndex
unfolding mask_from
route_index i = elim i.dest_type [
  | RoutingTableItemType.network ↦ network (mask_from i.dest_id i.addr_mask)
  | RoutingTableItemType.router ↦ asbr_router i.dest_id
]

abbrev pub Table : Type 0
Table = List (RoutingTableIndex × RoutingTableItem)

-- `entry(..).and_modify(..).or_insert(item)`
unfoldable pub merge : RoutingTableItem → Table → Table
unfolding route_index
merge i t = elim (get (route_index i) t) [
  | none ↦ insert (route_index i) i t
  | some old ↦ if better_than i old then insert (route_index i) i t else t
]

unfoldable pub merge_all : List RoutingTableItem → Table → Table
unfolding merge
merge_all [] t = t
merge_all (i ∷ is) t = merge_all is (merge i t)

-- `RoutingTable::get_routing`: the lengths from `n` down to 0.
unfoldable pub find_route : ℕ → Ipv4Addr → Table → Option RoutingTableItem
find_route zero ip t = get (network (record { addr = ip; len = 0 })) t
find_route (suc n) ip t =
    let shorter = find_route n ip t in
    elim (get (network (record { addr = ip; len = suc n })) t) [ none ↦ shorter | some i ↦ some i ]

unfoldable pub get_route : Ipv4Addr → Table → Option RoutingTableItem
unfolding find_route
get_route ip t = find_route 32 ip t

-- The first loop of `recalculate`: each area has its tree anew, and adds its own routes.
unfoldable pub area_routes :
    ℕ → ℕ → List (Ipv4Addr × Area) → Table → Option (List (Ipv4Addr × Area) × Table)
unfolding calculate get_routing merge_all
area_routes now router_id [] t = some ([], t)
area_routes now router_id ((id, a) ∷ as') t = do
  (tree, transit) ← calculate now router_id a
  let a' = record a { short_path_tree = tree; transit_capability = transit }
  items ← get_routing a'
  (rest, t') ← area_routes now router_id as' (merge_all items t)
  some ((id, a') ∷ rest, t')

-- The second loop: the routes to other areas.
unfoldable pub summary_routes : ℕ → ℕ → LsaDb → List (Ipv4Addr × Area) → Table → Option Table
unfolding get_routing_external merge_all
summary_routes now router_id db [] t = some t
summary_routes now router_id db ((id, a) ∷ as') t = do
  items ← get_routing_external now router_id a db
  summary_routes now router_id db as' (merge_all items t)

-- The route to where an AS-external LSA forwards.
unfoldable pub forwarding : LsaHeader → AsExternalLsa → Table → Option RoutingTableItem
forwarding h l t = do
  asbr ← get (asbr_router h.advertising_router) t
  if l.forwarding_address == 0 then some asbr else get_route l.forwarding_address t

-- The item for an AS-external LSA; the sums of costs are `u32`s.
unfoldable pub external_item :
    LsaHeader → AsExternalLsa → RoutingTableItem → Option RoutingTableItem
unfolding mask_route mask_from
external_item h l via = do
  let t1 = l.e == 0
  let cost = via.cost + (if t1 then l.metric else 0)
  let cost_t2 = via.cost_t2 + (if t1 then 0 else l.metric)
  (ty, net, mask) ← mask_route (mask_from h.link_state_id l.network_mask)
  assert (ltb cost (2 ^ 32) && ltb cost_t2 (2 ^ 32))
  some (record {
    dest_type = ty;
    dest_id = net;
    addr_mask = mask;
    external_cap = true;
    area_id = 0;
    path_type = if t1 then as_external_t1 else as_external_t2;
    cost = cost;
    cost_t2 = cost_t2;
    lsa_origin = index h;
    next_hop = via.next_hop;
    ad_router = h.advertising_router;
  })

-- The third loop.
unfoldable pub external_routes : ℕ → List (LsaHeader × AsExternalLsa) → Table → Option Table
unfolding forwarding external_item merge
external_routes router_id [] t = some t
external_routes router_id ((h, l) ∷ ls) t =
    let rest = external_routes router_id ls in
    let skipped = rest t in
    let added : Option Table = elim (forwarding h l t) [
      | none ↦ skipped
      | some via ↦ (external_item h l via >>= λ i. rest (merge i t))
    ] in
    if ltb l.metric ls_infinity && not (h.advertising_router == router_id) then added else skipped

-- The routes of the kernel: `RoutingItem` of ospf-routing.
pub record RoutingItem : Type 0 where
  pub dest : Ipv4Addr
  pub mask : Ipv4Addr
  pub nexthop : Ipv4Addr

abbrev pub item_beq : RoutingItem → RoutingItem → Bool
item_beq a b = a.dest == b.dest && (a.mask == b.mask && a.nexthop == b.nexthop)

pub data RouteChange : Type 0 where
  add_route delete_route : RoutingItem → RouteChange

-- `TryFrom<&RoutingTableItem> for RoutingItem`
unfoldable pub kernel_item : RoutingTableItem → Option RoutingItem
kernel_item i = elim i.dest_type [
  | RoutingTableItemType.network ↦
      some (record { dest = i.dest_id; mask = i.addr_mask; nexthop = i.next_hop })
  | RoutingTableItemType.router ↦ none
]

-- Whether a table has the same route of the kernel under a key.
unfoldable pub has_route : RoutingTableIndex → RoutingItem → Table → Bool
unfolding kernel_item
has_route k r t = elim (get k t) [
  | none ↦ false
  | some i ↦ elim (kernel_item i) [ none ↦ false | some q ↦ item_beq r q ]
]

-- The wrapped calls ask for nothing where the next hop is 0.0.0.0.
abbrev pub request : (RoutingItem → RouteChange) → RoutingItem → List RouteChange
request change r = if r.nexthop == 0 then [] else change r ∷ []

-- The routes of `t` that `other` does not have.
unfoldable pub requests : (RoutingItem → RouteChange) → Table → Table → List RouteChange
unfolding has_route
requests change other [] = []
requests change other ((k, i) ∷ t) =
    let rest = requests change other t in
    elim (kernel_item i) [
      | none ↦ rest
      | some r ↦ if has_route k r other then rest else request change r ++ rest
    ]

-- `RoutingTable::recalculate`: the areas with their trees, the table, and the requests to the kernel.
unfoldable pub recalculate :
    ℕ
    → ℕ
    → List (Ipv4Addr × Area)
    → LsaDb
    → Table
    → Option (List (Ipv4Addr × Area) × Table × List RouteChange)
unfolding area_routes summary_routes external_routes requests external_lsas
recalculate now router_id areas db old = do
  (areas', t1) ← area_routes now router_id areas []
  t2 ← summary_routes now router_id db areas' t1
  let lsas = external_lsas (map (λ (e : Entry). e.lsa) (values db))
  t3 ← external_routes router_id lsas t2
  some (areas', t3, requests delete_route t3 old ++ requests add_route old t3)

-- `RoutingTable::delete_all_routing`
unfoldable pub delete_all_routing : Table → List RouteChange
unfolding requests
delete_all_routing t = requests delete_route [] t
