-- ===== src/Examples/Tables.antt =====
-- Routing tables, and their calculation for the area of two routers.
use mathlib.Core.Option.{some-injective}
use rust_ospfd.Prelude.{
  ℕ, Option, All, true, any, ◌==◌, ==_iff, if◌then◌else◌, inl, inr, ap, arith, List, [], ◌∷◌, some,
  none, ◌≡◌, ◌↔◌, refl,
}
use rust_ospfd.Packet.Lsa.{Ipv4Addr, Lsa, router, stub_link, index}
use rust_ospfd.Area.Edges.{copy_lsas, edges_of, add_stubs}
use rust_ospfd.Area.Lsdb.{Area, get_all_area_lsa, get_all_lsa, live_headers, m_get_lsa}
use rust_ospfd.Routing.Table.{
  Table, RoutingTableIndex, RouteChange, add_route, delete_route, get_route, recalculate,
}
use rust_ospfd.Routing.Table as Routing
use rust_ospfd.Routing.Table.Lookup.{IsLongest, get_route-IsLongest}
use rust_ospfd.Routing.Table.{RoutingItem, kernel_item}
use rust_ospfd.Routing.{RoutingTableItem}
use rust_ospfd.Routing.Table.Synced.{Holds}
use rust_ospfd.Routing.Socket.{RawItem, little, Kernel, err, to_raw, IsRanged}
use rust_ospfd.Routing.Kernel.{IsLawful, is_at, apply}
use rust_ospfd.Routing.Kernel.Phases.{CanTake}
use rust_ospfd.Routing.Kernel.Applied.{Has, Usable, HasNone, IsFree, apply-Has}
use rust_ospfd.Examples.{me_ip, nbr_ip, net}
use rust_ospfd.Examples.Routes.{route, cheaper}
use rust_ospfd.Examples.Trees.{link_by, router_at, net_lsa, entry, tree_area}

-- 192.168.1.0/24 and 192.168.0.0/16.
abbrev old_table : Table
old_table = (Routing.network (record { addr = net; len = 24 }), route) ∷ []

abbrev two_lengths : Table
two_lengths =
    (Routing.network (record { addr = net; len = 16 }), cheaper)
    ∷ (Routing.network (record { addr = net; len = 24 }), route)
    ∷ []

get_route-IsLongest_example :
    (get_route net two_lengths ≡ some route) ↔ IsLongest 32 net two_lengths route
get_route-IsLongest_example = get_route-IsLongest net two_lengths route

-- The other router announces 192.168.2.0/24 too.
abbrev with_stub : Lsa
with_stub = record (router_at 2 nbr_ip) {
  body = router (record {
    v = 0;
    e = 0;
    b = 0;
    num_links = 2;
    links =
        link_by nbr_ip
        ∷ record {
          link_id = 0xc0a8_0200;
          link_data = 0xffff_ff00;
          link_type = stub_link;
          tos = 0;
          metric = 5;
        }
        ∷ [];
  });
}

abbrev stub_area : Area
stub_area = record tree_area {
  lsa_database =
      (index (router_at 1 me_ip).header, entry (router_at 1 me_ip))
      ∷ (index net_lsa.header, entry net_lsa)
      ∷ (index with_stub.header, entry with_stub)
      ∷ [];
}

abbrev calculated : List (Ipv4Addr × Area) × Table × List RouteChange
unfolding recalculate
calculated = elim (recalculate 5000 1 ((0, stub_area) ∷ []) [] old_table) [
  | some r ↦ r
  | none ↦ ([], [], [])
]

-- A kernel whose table is a function of the network: a request to add goes to the front of the
-- gateways unless its own is there, and a request to delete takes the one at the front.
abbrev Networks : Type 0
Networks = ℕ → ℕ → List ℕ

abbrev update : RawItem → List ℕ → Networks → Networks
update r v f d m = if is_at d m r then v else f d m

abbrev add_at : RawItem → Networks → Networks × Option ℕ
add_at r f =
    let gateways = f r.dest r.mask in
    if any (λ g. g == r.nexthop) gateways
    then (f, some 17)
    else (update r (r.nexthop ∷ gateways) f, none)

abbrev delete_at : RawItem → Networks → List ℕ → Networks × Option ℕ
delete_at r f [] = (f, some 3)
delete_at r f (g ∷ gs) = (update r gs f, none)

abbrev kernel : Kernel
kernel = record {
  State = Networks;
  add_route = add_at;
  delete_route = λ r f. delete_at r f (f r.dest r.mask);
  get_route_table = λ size f. err 2;
}

abbrev kernel_law : IsLawful kernel
kernel_law = record {
  gateways = λ f d m. f d m;
  usable = λ r. true;
  add_free = λ r f u q. rw q (refl, λ d m. refl);
  add_same = λ r f q. rw (q, (==_iff r.nexthop r.nexthop).1 refl) refl;
  delete_one = λ r f g q. rw q (refl, λ d m. refl);
  delete_missing = λ r f q. rw q refl;
}

-- What holds of the routes of a table, from its items.
of_items :
    (P : RoutingItem → Type 0) (t : Table)
    → All (λ p. (r : RoutingItem) → kernel_item p.1 ≡ some r → P r) t
    → (r : RoutingItem) → Holds t r
    → P r
of_items P [] h r (k, (i, m, p, hop)) = elim m [ ]
of_items P ((j, x) ∷ t) h r (k, (i, inl q, p, hop)) =
    let same : i ≡ x = ap (λ (y : Routing.RoutingTableIndex × RoutingTableItem). y.1) q in
    h.0 r (rw (← same) p)
of_items P ((j, x) ∷ t) h r (k, (i, inr m, p, hop)) = of_items P t h.1 r (k, (i, m, p, hop))

abbrev kernel_before : Networks
kernel_before =
    update (to_raw little (record { dest = net; mask = 0xffff_ff00; nexthop = nbr_ip }))
      ((to_raw little (record { dest = net; mask = 0xffff_ff00; nexthop = nbr_ip })).nexthop ∷ [])
      (λ d m. [])

old_table-IsRanged : (r : RoutingItem) → Holds old_table r → IsRanged r
unfolding kernel_item
old_table-IsRanged =
    of_items IsRanged old_table
      (λ r q. rw (← some-injective _ _ q) (omega arith, omega arith, omega arith), tt)

calculated-Usable : Usable kernel little kernel_law calculated.1
unfolding kernel_item calculated copy_lsas get_all_area_lsa live_headers m_get_lsa edges_of
    add_stubs get_all_lsa
calculated-Usable =
    of_items (λ r. IsRanged r × (true ≡ true)) calculated.1
      (
        λ r q. rw (← some-injective _ _ q) ((omega arith, omega arith, omega arith), refl),
        (λ r q. rw (← some-injective _ _ q) ((omega arith, omega arith, omega arith), refl), tt),
      )

old_table-Has : Has kernel little kernel_law kernel_before old_table
unfolding kernel_item to_raw
old_table-Has =
    of_items
      (λ r.
        kernel_before (to_raw little r).dest (to_raw little r).mask
        ≡ (to_raw little r).nexthop ∷ [])
      old_table (λ r q. rw (← some-injective _ _ q) refl, tt)

-- The kernel has nothing for the networks of the new table.
calculated-CanTake :
    (r : RoutingItem)
    → Holds calculated.1 r
    → CanTake kernel little kernel_law kernel_before old_table r
unfolding kernel_item calculated copy_lsas get_all_area_lsa live_headers m_get_lsa edges_of
    add_stubs get_all_lsa to_raw
calculated-CanTake =
    of_items (λ r. CanTake kernel little kernel_law kernel_before old_table r) calculated.1
      (
        λ r q. rw (← some-injective _ _ q) (inl refl),
        (λ r q. rw (← some-injective _ _ q) (inl refl), tt),
      )

abbrev asked : List RouteChange
asked =
    delete_route (record { dest = net; mask = 0xffff_ff00; nexthop = nbr_ip })
    ∷ add_route (record { dest = 0xc0a8_0200; mask = 0xffff_ff00; nexthop = nbr_ip })
    ∷ []

apply-Has_example :
    Has kernel little kernel_law (apply kernel little asked kernel_before) calculated.1
    × ((r : RoutingItem)
        → Holds old_table r
        → HasNone kernel little kernel_law (apply kernel little asked kernel_before) calculated.1 r)
    × ((d m : ℕ)
        → IsFree kernel little kernel_law old_table d m
        → IsFree kernel little kernel_law calculated.1 d m
        → kernel_law.gateways (apply kernel little asked kernel_before) d m ≡ kernel_before d m)
unfolding recalculate copy_lsas get_all_area_lsa live_headers m_get_lsa edges_of add_stubs
    get_all_lsa
apply-Has_example =
    apply-Has kernel little kernel_law 5000 1 ((0, stub_area) ∷ []) calculated.0 [] old_table
      calculated.1 asked kernel_before (refl, refl, tt) refl old_table-IsRanged calculated-Usable
      old_table-Has calculated-CanTake
