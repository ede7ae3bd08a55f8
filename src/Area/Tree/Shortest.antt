-- ===== src/Area/Tree/Shortest.antt =====
-- `calculate` finds the shortest paths.
use mathlib.Core.Option.{some-injective}
use rust_ospfd.Prelude.{
  ℕ, zero, suc, true, List, [], ◌∷◌, some, none, ◌≡◌, refl, sym, ◌∙◌, inl, inr, arith, ◌≤◌, In, get,
  insert, Bool-cases, Option-cases, ◌||◌,
}
use rust_ospfd.Area.Nodes.{NodeAddr, node_eq, is_stub, ShortPathTree, TreeNode, HeapNode}
use rust_ospfd.Area.Edges.{Children, Edges, LsaMap, lsa_have_v}
use rust_ospfd.Area.Lsdb.{is_some}
use rust_ospfd.Area.Tree.{Search, start, pop_max, visit, enter, node_at, offer_all, loop, done}
use rust_ospfd.Area.Tree.Paths.{Reaches, here, there, dist_of, link_cost-Costs}
use rust_ospfd.Area.Tree.Dist.{in_tree, not_in_tree}
use rust_ospfd.Area.Tree.Pop.{Selected, pop_max-Selected}
use rust_ospfd.Area.Tree.Offer.{Offered, offer_all-Offered}
use rust_ospfd.Area.Tree.Invariant.{
  IsSound, Expanded, HasLsa, Bounded, revisit-IsSound, enter-IsSound,
}

-- Stub networks have no edges.
abbrev pub NoStubEdges : Edges → Type 0
NoStubEdges edges = (v : NodeAddr) → is_stub v ≡ true → get v edges ≡ none

-- Where the heap is empty, the loop is over.
empty_of_pop : (heap : List HeapNode) → pop_max heap ≡ none → heap ≡ []
unfolding pop_max
empty_of_pop [] e = refl
empty_of_pop (x ∷ xs) e = absurd (cc)

in_nodes :
    (t : Search) {v : NodeAddr} {e : ℕ}
    → t.heap ≡ []
    → Bounded t v e
    → (d : ℕ) × (dist_of v t.nodes ≡ some d) × (d ≤ e)
in_nodes t empty (inl b) = b
in_nodes t empty (inr (h, i, q, le)) = let none_left : In h [] = rw empty at i in elim none_left [ ]

module _ (edges : Edges) (lsas : LsaMap) (root : NodeAddr) (leaves : NoStubEdges edges) where
  -- A node without edges adds nothing to the heap.
  childless :
      (s : Search) (next : HeapNode) (rest : List HeapNode) (nodes : ShortPathTree)
      → get next.id edges ≡ none
      → Expanded edges lsas root s next rest nodes rest
  childless s next rest nodes e = record {
    kept = λ h i. i;
    fresh = λ h i. inl i;
    whole = λ v w (cs, cost, g, i, q). absurd (cc);
  }

  expanded :
      (s : Search) (next : HeapNode) (rest heap : List HeapNode) (nodes : ShortPathTree)
      (node : TreeNode) (children : Children)
      → node.id ≡ next.id
      → node.distance ≡ next.distance
      → get next.id edges ≡ some children
      → Offered edges lsas node nodes children rest heap
      → Expanded edges lsas root s next rest nodes heap
  expanded s next rest heap nodes node children id_eq d_eq g o = record {
    kept = o.kept;
    fresh = λ h i. elim (o.fresh h i) [
      | inl j ↦ inl j
      | inr (c, w, j, (q, id_c, far, l)) ↦ inr (
        w,
        rw id_c (children, c.1, g, j, (link_cost-Costs edges next.id c.0 c.1 w).0 (rw id_eq at q)),
        rw d_eq at far,
        rw id_c l,
      )
    ];
    whole = λ v w (cs, cost, e, i, q).
        let same : cs ≡ children = some-injective _ _ (sym e ∙ g) in
        elim (o.whole (v, cost) w (rw same at i)
          (rw id_eq ((link_cost-Costs edges next.id v cost w).1 q))) [
            | inl t ↦ inl t
            | inr (h, j, (p, id_v, far, l)) ↦ inr (h, j, id_v, rw d_eq at far)
          ];
  }

  visit-IsSound :
      (s : Search) (next : HeapNode) (rest : List HeapNode) {s' : Search}
      → IsSound edges lsas root s
      → Selected s.heap next rest
      → visit edges lsas next (record s { heap = rest }) ≡ some s'
      → IsSound edges lsas root s'
  unfolding visit enter
  visit-IsSound s next rest {s'} v p e = elim (Bool-cases (is_some (get next.id s.nodes))) [
    | inl t ↦
        rw (← some-injective _ _ (rw (t, visit) at e))
          (revisit-IsSound edges lsas root s next rest v p (in_tree next.id s.nodes t))
    | inr t ↦
        let (l, g) = v.covered next p.chosen in
        let new = not_in_tree next.id s.nodes t in
        let nodes = insert next.id (node_at next l) s.nodes in
        let still = enter-IsSound edges lsas root s next rest l rest s.transit v p new in
        elim (Bool-cases (is_stub next.id)) [
          | inl b ↦
              rw (← some-injective _ _ (rw (t, visit, enter, g, b) at e))
                (still (childless s next rest nodes (leaves next.id b)))
          | inr b ↦ elim (Option-cases (get next.id edges)) [
            | inl c ↦
                rw (← some-injective _ _ (rw (t, visit, enter, g, b, c) at e))
                  (still (childless s next rest nodes c))
            | inr (children, c) ↦
                elim (Option-cases (offer_all edges lsas nodes (node_at next l) children rest)) [
                  | inl o ↦ absurd (cc (rw (t, visit, enter, g, b, c, o) at e))
                  | inr (heap, o) ↦
                      rw (← some-injective _ _ (rw (t, visit, enter, g, b, c, o) at e)) (
                        enter-IsSound edges lsas root s next rest l heap (s.transit || lsa_have_v l)
                          v p new
                          (expanded s next rest heap nodes (node_at next l) children refl refl c
                            (offer_all-Offered edges lsas (node_at next l) nodes children rest o)))
                ]
          ]
        ]
  ]

  at_end :
      (s t : Search)
      → done s ≡ done t
      → IsSound edges lsas root s
      → pop_max s.heap ≡ none
      → IsSound edges lsas root t × (t.heap ≡ [])
  at_end s t same v q = let st : s ≡ t = cc in rw (← st) (v, empty_of_pop s.heap q)

  pub loop-IsSound :
      (fuel : ℕ) (s : Search) {t : Search}
      → IsSound edges lsas root s
      → loop fuel edges lsas s ≡ done t
      → IsSound edges lsas root t × (t.heap ≡ [])
  unfolding loop
  loop-IsSound zero s {t} v e = elim (Option-cases (pop_max s.heap)) [
    | inr (p, q) ↦ absurd (cc (rw (q, loop) at e))
    | inl q ↦ let same : done s ≡ done t = rw (q, loop) at e in at_end s t same v q
  ]
  loop-IsSound (suc fuel) s {t} v e = elim (Option-cases (pop_max s.heap)) [
    | inl q ↦ let same : done s ≡ done t = rw (q, loop) at e in at_end s t same v q
    | inr ((next, rest), q) ↦
        elim (Option-cases (visit edges lsas next (record s { heap = rest }))) [
          | inl o ↦ absurd (cc (rw (q, loop, o) at e))
          | inr (s', o) ↦
              loop-IsSound fuel s' {t = t}
                (visit-IsSound s next rest v (pop_max-Selected s.heap q) o) (rw (q, loop, o) at e)
        ]
  ]

  pub start-IsSound : HasLsa lsas root → IsSound edges lsas root (start root)
  start-IsSound l = record {
    covered = λ h i. elim i [ inl e ↦ rw e l | inr j ↦ elim j [ ] ];
    heap_sound = λ h i. elim i [ inl e ↦ rw e here | inr j ↦ elim j [ ] ];
    tree_sound = λ v d e. absurd (cc);
    ordered = λ v d h e i. absurd (cc);
    closed = λ u d v w e a. absurd (cc);
    rooted = inr (_, inl refl, refl, omega arith);
  }

  -- With an empty heap, a node that a path reaches is in the tree, no farther than the path.
  pub nothing_shorter :
      (t : Search)
      → IsSound edges lsas root t
      → t.heap ≡ []
      → {v : NodeAddr} {e : ℕ} → Reaches edges root v e
      → (d : ℕ) × (dist_of v t.nodes ≡ some d) × (d ≤ e)
  nothing_shorter t v empty here = in_nodes t empty v.rooted
  nothing_shorter t v empty (there {u = u} {v = x} {d = d} {w = w} r a q) =
      let (d1, at, le) = nothing_shorter t v empty r in
      let (d2, at2, le2) = in_nodes t empty (v.closed u d1 x w at a) in (d2, at2, omega (arith, q))
