-- ===== src/Area/Tree/Offer.antt =====
-- What the loop over the children of a node adds to the heap.
use mathlib.Core.Option.{some-injective}
use rust_ospfd.Prelude.{
  ℕ, true, List, [], ◌∷◌, some, none, ◌≡◌, refl, sym, ◌⊎◌, inl, inr, arith, ◌≤◌, ◌+◌, ◌^◌, In,
  length, get, Bool-cases, Option-cases, ltb,
}
use rust_ospfd.Packet.Lsa.{Lsa}
use rust_ospfd.Area.Nodes.{NodeAddr, node_eq, ShortPathTree, TreeNode, HeapNode, is_network}
use rust_ospfd.Area.Edges.{Children, Edges, LsaMap}
use rust_ospfd.Area.Lsdb.{is_some}
use rust_ospfd.Area.Tree.{link_cost, offer, offer_all, calc_nexthop}

module _ (edges : Edges) (lsas : LsaMap) (node : TreeNode) where
  -- An item that stands for the edge from the node to a child.
  abbrev pub Stands : NodeAddr × ℕ → ℕ → HeapNode → Type 0
  Stands c w h =
      (link_cost edges node.id c.0 c.1 ≡ some w)
      × (h.id ≡ c.0)
      × (h.distance ≡ node.distance + w)
      × ((l : Lsa) × (get c.0 lsas ≡ some l))

  offer-cases :
      (c : NodeAddr × ℕ) (heap : List HeapNode) {heap' : List HeapNode}
      → offer edges lsas node c heap ≡ some heap'
      → ((link_cost edges node.id c.0 c.1 ≡ none) × (heap' ≡ heap))
        ⊎ ((w : ℕ) × (h : HeapNode) × Stands c w h × (heap' ≡ h ∷ heap))
  unfolding offer
  offer-cases (child, cost) heap {heap'} e =
      elim (Option-cases (link_cost edges node.id child cost)) [
        | inl q ↦ inl (q, sym (some-injective _ _ (rw (q, offer) at e)))
        | inr (w, q) ↦ elim (Bool-cases (ltb (node.distance + w) (2 ^ 32))) [
          | inr b ↦ absurd (cc (rw (q, offer, b) at e))
          | inl b ↦ elim (Option-cases (get child lsas)) [
            | inl g ↦ absurd (cc (rw (q, offer, b, g) at e))
            | inr (l, g) ↦ inr (
              w,
              (record {
                distance = node.distance + w;
                from_network = is_network node.id;
                id = child;
                next_hops = calc_nexthop child l node;
              }),
              (q, refl, refl, (l, g)),
              sym (some-injective _ _ (rw (q, offer, b, g) at e)),
            )
          ]
        ]
      ]

  pub record Offered (nodes : ShortPathTree) (cs : Children) (heap heap' : List HeapNode)
      : Type 0 where
    pub size : length heap' ≤ length heap + length cs
    pub kept : (h : HeapNode) → In h heap → In h heap'
    pub fresh :
        (h : HeapNode)
        → In h heap'
        → In h heap ⊎ ((c : NodeAddr × ℕ) × (w : ℕ) × In c cs × Stands c w h)
    pub whole :
        (c : NodeAddr × ℕ) (w : ℕ)
        → In c cs
        → link_cost edges node.id c.0 c.1 ≡ some w
        → (is_some (get c.0 nodes) ≡ true) ⊎ ((h : HeapNode) × In h heap' × Stands c w h)

  -- A child that adds nothing, and one that adds an item.
  skip :
      (nodes : ShortPathTree) (c : NodeAddr × ℕ) (cs : Children) (heap heap' : List HeapNode)
      → Offered nodes cs heap heap'
      → (is_some (get c.0 nodes) ≡ true) ⊎ (link_cost edges node.id c.0 c.1 ≡ none)
      → Offered nodes (c ∷ cs) heap heap'
  skip nodes c cs heap heap' r why = record {
    size = let s = r.size in omega arith;
    kept = r.kept;
    fresh = λ h i. elim (r.fresh h i) [ inl j ↦ inl j | inr (k, w, j, s) ↦ inr (k, w, inr j, s) ];
    whole = λ k w i q. elim i [
      | inl same ↦ elim why [ inl t ↦ inl (rw same t) | inr n ↦ absurd (cc) ]
      | inr j ↦ r.whole k w j q
    ];
  }

  add :
      (nodes : ShortPathTree) (c : NodeAddr × ℕ) (cs : Children) (heap heap' : List HeapNode)
      (w : ℕ) (x : HeapNode)
      → Offered nodes cs (x ∷ heap) heap'
      → Stands c w x
      → Offered nodes (c ∷ cs) heap heap'
  add nodes c cs heap heap' w x r st = record {
    size = let s = r.size in omega arith;
    kept = λ h i. r.kept h (inr i);
    fresh = λ h i. elim (r.fresh h i) [
      | inl (inl e) ↦ inr (c, w, inl refl, rw e st)
      | inl (inr j) ↦ inl j
      | inr (k, v, j, s) ↦ inr (k, v, inr j, s)
    ];
    whole = λ k v i q. elim i [
      | inl same ↦
          let v_w : v ≡ w = some-injective _ _ (cc) in
          inr (x, r.kept x (inl refl), rw (same, v_w) st)
      | inr j ↦ r.whole k v j q
    ];
  }

  pub offer_all-Offered :
      (nodes : ShortPathTree) (cs : Children) (heap : List HeapNode) {heap' : List HeapNode}
      → offer_all edges lsas nodes node cs heap ≡ some heap'
      → Offered nodes cs heap heap'
  unfolding offer_all
  offer_all-Offered nodes [] heap {heap'} e =
      let same : heap ≡ heap' = some-injective _ _ e in
      rw (← same) (record {
        size = omega arith;
        kept = λ h i. i;
        fresh = λ h i. inl i;
        whole = λ c w i q. elim i [ ];
      })
  offer_all-Offered nodes (c ∷ cs) heap {heap'} e = elim (Bool-cases (is_some (get c.0 nodes))) [
    | inl t ↦
        skip nodes c cs heap heap' (offer_all-Offered nodes cs heap {heap' = heap'} (rw t at e))
          (inl t)
    | inr t ↦ elim (Option-cases (offer edges lsas node c heap)) [
      | inl o ↦ absurd (cc (rw (t, o) at e))
      | inr (heap1, o) ↦
          let r = offer_all-Offered nodes cs heap1 {heap' = heap'} (rw (t, o) at e) in
          elim (offer-cases c heap o) [
            | inl (n, same) ↦ skip nodes c cs heap heap' (rw same at r) (inr n)
            | inr (w, x, st, same) ↦ add nodes c cs heap heap' w x (rw same at r) st
          ]
    ]
  ]
