-- ===== src/Area/Tree/Complete.antt =====
-- The loop of `calculate` of ospfd/area/tree.rs on edges and LSAs in which nothing is missing.
use mathlib.Core.Option.{some-injective}
use rust_ospfd.Prelude.{
  ℕ, zero, suc, ◌+◌, ◌*◌, ◌^◌, ◌≤◌, ◌<◌, max, ◌≡◌, ◌≢◌, refl, true, List, [], ◌∷◌, some, ltb, All,
  All-map_imp, In, get, insert, modify, arith, Bool-cases, Option-cases, inl, inr, ◌||◌,
}
use rust_ospfd.Area.Nodes.{
  NodeAddr, node_eq, node_beq, node_beq_iff, is_stub, is_network, ShortPathTree, TreeNode, HeapNode,
}
use rust_ospfd.Area.Edges.{Children, Edges, LsaMap, lsa_have_v}
use rust_ospfd.Area.Lsdb.{is_some}
use rust_ospfd.Area.Tree.{
  Search, start, pop_max, visit, enter, node_at, add_hops, link_cost, offer, offer_all,
  calc_nexthop, loop, count_edges, Outcome, done, panicked, out_of_fuel,
}
use rust_ospfd.Area.Tree.Pop.{pop_max-Selected}
use rust_ospfd.Area.Tree.Invariant.{HasLsa}
use rust_ospfd.Area.Tree.Fuel.{loop_enough}

-- A child costs less than 2 ^ 16, and a stub network has its LSA.
abbrev pub IsChild : LsaMap → NodeAddr × ℕ → Type 0
IsChild lsas c = (c.1 ≤ 65535) × (is_stub c.0 ≡ true → HasLsa lsas c.0)

abbrev pub IsComplete : LsaMap → Edges → Type 0
IsComplete lsas edges = All (λ p. HasLsa lsas p.0 × All (IsChild lsas) p.1) edges

pub All-get {ℓ} :
    {V : Type ℓ} (P : NodeAddr × V → Type 0) (m : List (NodeAddr × V)) (k : NodeAddr) (v : V)
    → All P m
    → get k m ≡ some v
    → P (k, v)
All-get P [] k v h e = absurd (cc)
All-get P ((j, x) ∷ m) k v h e = elim (Bool-cases (node_beq j k)) [
  | inl q ↦
      let same : j ≡ k = (node_beq_iff j k).0 q in
      let here : x ≡ v = some-injective _ _ (rw q at e) in rw (← same, ← here) h.0
  | inr q ↦ All-get P m k v h.1 (rw q at e)
]

All-In : (P : HeapNode → Type 0) (xs : List HeapNode) (x : HeapNode) → All P xs → In x xs → P x
All-In P [] x h i = elim i [ ]
All-In P (y ∷ ys) x h (inl e) = rw e h.0
All-In P (y ∷ ys) x h (inr i) = All-In P ys x h.1 i

In-All : (P : HeapNode → Type 0) (xs : List HeapNode) → ((x : HeapNode) → In x xs → P x) → All P xs
In-All P [] f = tt
In-All P (x ∷ xs) f = (f x (inl refl), In-All P xs (λ y i. f y (inr i)))

-- No item of the heap is farther than the bound.
abbrev pub IsNear : ℕ → List HeapNode → Type 0
IsNear b heap = All (λ (h : HeapNode). h.distance ≤ b) heap

IsNear-le : (a b : ℕ) (heap : List HeapNode) → a ≤ b → IsNear a heap → IsNear b heap
IsNear-le a b heap le h = All-map_imp heap (λ x l. omega arith) h

module _ (edges : Edges) (lsas : LsaMap) (whole : IsComplete lsas edges) where
  -- An edge that counts has a cost below 2 ^ 16 and leads to a node with an LSA.
  link_cost-HasLsa :
      (id : NodeAddr) (c : NodeAddr × ℕ) (w : ℕ)
      → IsChild lsas c
      → link_cost edges id c.0 c.1 ≡ some w
      → (w ≤ 65535) × HasLsa lsas c.0
  unfolding link_cost
  link_cost-HasLsa id (child, cost) w (le, own) e = elim (Bool-cases (is_stub child)) [
    | inl q ↦ let same : cost ≡ w = some-injective _ _ (rw q at e) in (omega arith, own q)
    | inr q ↦ elim (Option-cases (get child edges)) [
      | inl g ↦ absurd (cc (rw (q, g) at e))
      | inr (m, g) ↦
          let (has, children) = All-get _ edges child m whole g in
          elim (Option-cases (get id m)) [
            | inl b ↦ absurd (cc (rw (q, g, b) at e))
            | inr (back, b) ↦
                let bound = (All-get (IsChild lsas) m id back children b).0 in
                let same : max cost back ≡ w = some-injective _ _ (rw (q, g, b) at e) in
                (omega arith, has)
          ]
    ]
  ]

  offer_total :
      (node : TreeNode) (c : NodeAddr × ℕ) (b : ℕ) (heap : List HeapNode)
      → IsChild lsas c
      → node.distance ≤ b
      → b + 65535 < 2 ^ 32
      → IsNear (b + 65535) heap
      → (heap' : List HeapNode) × (offer edges lsas node c heap ≡ some heap')
        × IsNear (b + 65535) heap'
  unfolding offer
  offer_total node c b heap child le fits near =
      elim (Option-cases (link_cost edges node.id c.0 c.1)) [
        | inl q ↦ (heap, rw (q, offer) refl, near)
        | inr (w, q) ↦
            let (small, (l, g)) = link_cost-HasLsa node.id c w child q in
            let t : ltb (node.distance + w) (2 ^ 32) ≡ true = ground arith in
            let item : HeapNode = record {
              distance = node.distance + w;
              from_network = is_network node.id;
              id = c.0;
              next_hops = calc_nexthop c.0 l node;
            } in
            (item ∷ heap, rw (q, offer, t, g) refl, (omega arith, near))
      ]

  offer_all_total :
      (nodes : ShortPathTree) (node : TreeNode) (cs : Children) (b : ℕ) (heap : List HeapNode)
      → All (IsChild lsas) cs
      → node.distance ≤ b
      → b + 65535 < 2 ^ 32
      → IsNear (b + 65535) heap
      → (heap' : List HeapNode) × (offer_all edges lsas nodes node cs heap ≡ some heap')
        × IsNear (b + 65535) heap'
  unfolding offer_all
  offer_all_total nodes node [] b heap cs le fits near = (heap, refl, near)
  offer_all_total nodes node (c ∷ cs) b heap h le fits near =
      elim (Bool-cases (is_some (get c.0 nodes))) [
        | inl q ↦
            let (heap', e, n) = offer_all_total nodes node cs b heap h.1 le fits near in
            (heap', rw q e, n)
        | inr q ↦
            let (heap1, e1, n1) = offer_total node c b heap h.0 le fits near in
            let (heap', e, n) = offer_all_total nodes node cs b heap1 h.1 le fits n1 in
            (heap', rw (q, e1) e, n)
      ]

  visit_total :
      (s : Search) (next : HeapNode) (b : ℕ)
      → next.distance ≤ b
      → b + 65535 < 2 ^ 32
      → IsNear b s.heap
      → (s' : Search) × (visit edges lsas next s ≡ some s') × IsNear (b + 65535) s'.heap
  unfolding visit enter
  visit_total s next b le fits near = elim (Bool-cases (is_some (get next.id s.nodes))) [
    | inl t ↦ (record s { nodes = modify next.id (add_hops next) s.nodes }, rw t refl, wider)
    | inr t ↦ elim (Option-cases (get next.id lsas)) [
      | inl g ↦ (s, rw (t, enter, g) refl, wider)
      | inr (l, g) ↦
          let entered : Search = record s { nodes = insert next.id (node_at next l) s.nodes } in
          elim (Bool-cases (is_stub next.id)) [
            | inl q ↦ (entered, rw (t, enter, g, q) refl, wider)
            | inr q ↦ elim (Option-cases (get next.id edges)) [
              | inl e ↦ (entered, rw (t, enter, g, q, e) refl, wider)
              | inr (children, e) ↦
                  let own = (All-get _ edges next.id children whole e).1 in
                  let (heap', o, n) =
                    offer_all_total entered.nodes (node_at next l) children b s.heap own le fits
                      wider in
                  let s' : Search = record entered {
                    heap = heap';
                    transit = s.transit || lsa_have_v l;
                  } in
                  (s', rw (t, enter, g, q, e, o) refl, n)
            ]
          ]
    ]
  ]
    where
      wider : IsNear (b + 65535) s.heap
      wider = IsNear-le b (b + 65535) s.heap (omega arith) near

  loop_done :
      (fuel : ℕ) (s : Search) (b : ℕ)
      → IsNear b s.heap
      → b + 65535 * fuel < 2 ^ 32
      → loop fuel edges lsas s ≢ panicked
  unfolding loop
  loop_done zero s b near fits e = elim (Option-cases (pop_max s.heap)) [
    | inl q ↦ absurd (cc (rw (q, loop) at e))
    | inr (p, q) ↦ absurd (cc (rw (q, loop) at e))
  ]
  loop_done (suc fuel) s b near fits e = elim (Option-cases (pop_max s.heap)) [
    | inl q ↦ absurd (cc (rw (q, loop) at e))
    | inr ((next, rest), q) ↦
        let p = pop_max-Selected s.heap q in
        let le : next.distance ≤ b = All-In _ s.heap next near p.chosen in
        let behind : IsNear b rest = In-All _ rest (λ x i. All-In _ s.heap x near (p.kept x i)) in
        let (s', o, n) = visit_total (record s { heap = rest }) next b le (omega arith) behind in
        loop_done fuel s' (b + 65535) n (omega arith) (rw (q, loop, o) at e)
  ]

  -- With at most 65536 edges the loop comes to its end.
  pub loop_ends :
      (root : NodeAddr)
      → count_edges edges ≤ 65536
      → (t : Search) × (loop (1 + count_edges edges) edges lsas (start root) ≡ done t)
  loop_ends root few =
      ends (loop (1 + count_edges edges) edges lsas (start root))
        (loop_done (1 + count_edges edges) (start root) 0 (omega arith, tt) (omega arith))
        (loop_enough edges lsas root)
    where
      ends : (o : Outcome) → o ≢ panicked → o ≢ out_of_fuel → (t : Search) × (o ≡ done t)
      ends (done t) a b = (t, refl)
      ends panicked a b = absurd (a refl)
      ends out_of_fuel a b = absurd (b refl)
