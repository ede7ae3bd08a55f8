-- ===== src/Area/Tree.antt =====
-- ospfd/area/tree.rs: `ShortPathTree::calculate`. The heap is a list, of which `pop` takes the
-- greatest item. The sum of a distance and a cost is a `u32`.
pub mod Pop
pub mod Paths
pub mod Dist
pub mod Offer
pub mod Invariant
pub mod Shortest
pub mod Correct
pub mod Fuel
pub mod Complete
pub mod Prepared
pub mod Total
use rust_ospfd.Prelude.{
  ℕ, zero, suc, Bool, true, false, List, [], ◌∷◌, ◌++◌, Option, some, none, ◌==◌, not, ◌&&◌, ◌||◌,
  ltb, if◌then◌else◌, ◌+◌, ◌^◌, max, get, insert, modify, ◌>>=◌, ◌>>◌, assert, is_empty, length,
  Ordering,
}
use rust_ospfd.Packet.Lsa.{Ipv4Addr, Lsa, RouterLsaLink, transit_link}
use rust_ospfd.Packet.Lsa as Packet
use rust_ospfd.Area.Nodes.{
  NodeAddr, router, network, stub, node_eq, is_stub, is_network, TreeNode, ShortPathTree, HeapNode,
  compare_heap,
}
use rust_ospfd.Area.Edges.{Children, Edges, LsaMap, lsa_have_v, copy_lsas, edges_of, add_stubs}
use rust_ospfd.Area.Lsdb.{Area, get_all_area_lsa, is_some}

-- `BinaryHeap::pop`
abbrev pub is_less : HeapNode → HeapNode → Bool
is_less a b = elim (compare_heap a b) [
  | Ordering.lt ↦ true
  | Ordering.eq ↦ false
  | Ordering.gt ↦ false
]

unfoldable pub select_max : HeapNode → List HeapNode → HeapNode × List HeapNode
select_max x [] = (x, [])
select_max x (y ∷ ys) =
    let (m, rest) = select_max (if is_less x y then y else x) ys in
    (m, (if is_less x y then x else y) ∷ rest)

unfoldable pub pop_max : List HeapNode → Option (HeapNode × List HeapNode)
unfolding select_max
pop_max [] = none
pop_max (x ∷ xs) = some (select_max x xs)

-- The locals of `calculate`, with the area's `transit_capability`.
pub record Search : Type 0 where
  pub nodes : ShortPathTree
  pub heap : List HeapNode
  pub transit : Bool

-- The address by which the router of an LSA is on a network.
unfoldable pub hop_on : Ipv4Addr → List RouterLsaLink → List Ipv4Addr
hop_on ip [] = []
hop_on ip (l ∷ ls) =
    if l.link_type == transit_link && l.link_id == ip then l.link_data ∷ [] else hop_on ip ls

-- The `match` of `calc_nexthop`, for a parent without next hops: the router itself, or a network
-- that it is on.
unfoldable pub first_hop : NodeAddr → Lsa → NodeAddr → List Ipv4Addr
unfolding hop_on
first_hop (router a) l (network ip) = elim l.body [
  | Packet.router r ↦ hop_on ip r.links
  | Packet.network n ↦ []
  | Packet.summary_ip s ↦ []
  | Packet.summary_asbr s ↦ []
  | Packet.as_external e ↦ []
]
first_hop (router a) l (router b) = []
first_hop (router a) l (stub m) = []
first_hop (network a) l p = []
first_hop (stub m) l p = []

-- `calc_nexthop`
unfoldable pub calc_nexthop : NodeAddr → Lsa → TreeNode → List Ipv4Addr
unfolding first_hop
calc_nexthop node l parent =
    if is_empty parent.next_hops then first_hop node l parent.id else parent.next_hops

-- The cost of the edge to a child; `none` where the child has no edge back.
unfoldable pub link_cost : Edges → NodeAddr → NodeAddr → ℕ → Option ℕ
link_cost edges id child cost =
    let both = do m ← get child edges; c ← get id m; some (max cost c)
    in if is_stub child then some cost else both

-- What a child adds to the heap.
unfoldable pub offer :
    Edges → LsaMap → TreeNode → NodeAddr × ℕ → List HeapNode → Option (List HeapNode)
unfolding link_cost calc_nexthop
offer edges lsas node (child, cost) heap = elim (link_cost edges node.id child cost) [
  | none ↦ some heap
  | some w ↦
      assert (ltb (node.distance + w) (2 ^ 32))
      >> (get child lsas >>= λ l. some (
          record {
            distance = node.distance + w;
            from_network = is_network node.id;
            id = child;
            next_hops = calc_nexthop child l node;
          }
          ∷ heap))
]

-- The loop over the children; those in the tree are skipped.
unfoldable pub offer_all :
    Edges → LsaMap → ShortPathTree → TreeNode → Children → List HeapNode → Option (List HeapNode)
unfolding offer
offer_all edges lsas nodes node [] heap = some heap
offer_all edges lsas nodes node (c ∷ cs) heap = do
  heap' ← if is_some (get c.0 nodes) then some heap else offer edges lsas node c heap
  offer_all edges lsas nodes node cs heap'

-- An equally short path to a node in the tree adds its next hops.
abbrev pub add_hops : HeapNode → TreeNode → TreeNode
add_hops next n =
    if n.distance == next.distance
    then record n { next_hops = n.next_hops ++ next.next_hops }
    else n

abbrev pub node_at : HeapNode → Lsa → TreeNode
node_at next l = record {
  id = next.id;
  lsa = l;
  next_hops = next.next_hops;
  distance = next.distance;
}

-- The body of the loop for a node that is not in the tree.
unfoldable pub enter : Edges → LsaMap → HeapNode → Search → Option Search
unfolding offer_all lsa_have_v
enter edges lsas next s =
    let entered = λ (l : Lsa). record s { nodes = insert next.id (node_at next l) s.nodes } in
    let expand = λ (l : Lsa) (children : Children). do
      heap ← offer_all edges lsas (entered l).nodes (node_at next l) children s.heap
      some (record (entered l) { heap = heap; transit = s.transit || lsa_have_v l })
    in elim (get next.id lsas) [
      | none ↦ some s
      | some l ↦ if is_stub next.id then some (entered l) else elim (get next.id edges) [
        | none ↦ some (entered l)
        | some children ↦ expand l children
      ]
    ]

-- The body of the loop, after `pop` has given `next`.
unfoldable pub visit : Edges → LsaMap → HeapNode → Search → Option Search
unfolding enter
visit edges lsas next s =
    if is_some (get next.id s.nodes)
    then some (record s { nodes = modify next.id (add_hops next) s.nodes })
    else enter edges lsas next s

pub data Outcome : Type 0 where
  done : Search → Outcome
  panicked out_of_fuel : Outcome

-- `while let Some(next) = candidate.pop()`, on fuel.
unfoldable pub loop : ℕ → Edges → LsaMap → Search → Outcome
unfolding pop_max visit
loop zero edges lsas s = elim (pop_max s.heap) [ none ↦ done s | some p ↦ out_of_fuel ]
loop (suc fuel) edges lsas s = elim (pop_max s.heap) [
  | none ↦ done s
  | some p ↦ elim (visit edges lsas p.0 (record s { heap = p.1 })) [
    | none ↦ panicked
    | some s' ↦ loop fuel edges lsas s'
  ]
]

-- Every edge is offered once at most.
unfoldable pub count_edges : Edges → ℕ
count_edges [] = 0
count_edges ((id, children) ∷ es) = length children + count_edges es

abbrev pub start : NodeAddr → Search
start root = record {
  nodes = [];
  heap = record { distance = 0; from_network = false; id = root; next_hops = [] } ∷ [];
  transit = false;
}

abbrev pub result : Outcome → Option (ShortPathTree × Bool)
result (done s) = some (s.nodes, s.transit)
result panicked = none
result out_of_fuel = none

-- `calculate`: the tree and the new `transit_capability`.
unfoldable pub calculate : ℕ → ℕ → Area → Option (ShortPathTree × Bool)
unfolding loop count_edges
calculate now router_id a = do
  copied ← copy_lsas now a (get_all_area_lsa now a) []
  edges ← edges_of copied
  lsas ← add_stubs edges copied
  result (loop (1 + count_edges edges) edges lsas (start (router router_id)))
