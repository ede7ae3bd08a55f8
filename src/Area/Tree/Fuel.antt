-- ===== src/Area/Tree/Fuel.antt =====
-- The fuel of `calculate` is enough: every edge is offered once at most.
use mathlib.Core.Option.{some-injective}
use rust_ospfd.Prelude.{
  ℕ, zero, suc, List, [], ◌∷◌, Option, some, none, ◌≡◌, ◌≢◌, refl, ap, inl, inr, arith, ◌≤◌, ◌<◌,
  ◌+◌, length, get, insert, modify, Bool-cases, Option-cases,
}
use rust_ospfd.Area.Nodes.{
  NodeAddr, node_eq, node_beq, node_beq_iff, is_stub, ShortPathTree, TreeNode, HeapNode,
}
use rust_ospfd.Area.Edges.{Children, Edges, LsaMap}
use rust_ospfd.Area.Lsdb.{is_some}
use rust_ospfd.Area.Tree.{
  Search, start, pop_max, visit, enter, node_at, add_hops, offer_all, loop, count_edges,
  out_of_fuel,
}
use rust_ospfd.Area.Tree.Paths.{dist_of}
use rust_ospfd.Area.Tree.Dist.{dist_of-modify, dist_of-insert_self, dist_of-insert_ne, not_in_tree}
use rust_ospfd.Area.Tree.Pop.{Selected, pop_max-Selected}
use rust_ospfd.Area.Tree.Offer.{offer_all-Offered}

-- The edges of the nodes that are not in the tree.
abbrev pub weight : Option ℕ → Children → ℕ
weight none cs = length cs
weight (some d) cs = 0

abbrev pub pending : ShortPathTree → Edges → ℕ
pending t [] = 0
pending t ((id, cs) ∷ es) = weight (dist_of id t) cs + pending t es

pending-empty : (es : Edges) → pending [] es ≡ count_edges es
unfolding count_edges
pending-empty [] = refl
pending-empty ((id, cs) ∷ es) = ap (λ (n : ℕ). length cs + n) (pending-empty es)

pending-modify :
    (k : NodeAddr) (next : HeapNode) (t : ShortPathTree) (es : Edges)
    → pending (modify k (add_hops next) t) es ≡ pending t es
pending-modify k next t [] = refl
pending-modify k next t ((id, cs) ∷ es) =
    let head = ap (λ (o : Option ℕ). weight o cs) (dist_of-modify id k next t) in
    omega (arith, head, pending-modify k next t es)

weight-insert :
    (k id : NodeAddr) (n : TreeNode) (t : ShortPathTree) (cs : Children)
    → weight (dist_of id (insert k n t)) cs ≤ weight (dist_of id t) cs
weight-insert k id n t cs = elim (Bool-cases (node_beq k id)) [
  | inl q ↦
      let same = (node_beq_iff k id).0 q in
      let zero_ = ap (λ (o : Option ℕ). weight o cs) (dist_of-insert_self k n t) in
      let here : weight (dist_of id (insert k n t)) cs ≡ 0 = rw (← same) zero_ in omega arith
  | inr q ↦
      let kept = ap (λ (o : Option ℕ). weight o cs) (dist_of-insert_ne id k n t q) in omega arith
]

pending-insert :
    (k : NodeAddr) (n : TreeNode) (t : ShortPathTree) (es : Edges)
    → pending (insert k n t) es ≤ pending t es
pending-insert k n t [] = omega arith
pending-insert k n t ((id, cs) ∷ es) =
    omega (arith, weight-insert k id n t cs, pending-insert k n t es)

-- A node that enters the tree takes its edges out of the count.
pending-enter :
    (k : NodeAddr) (n : TreeNode) (t : ShortPathTree) (es : Edges) {children : Children}
    → dist_of k t ≡ none
    → get k es ≡ some children
    → pending (insert k n t) es + length children ≤ pending t es
pending-enter k n t [] new e = absurd (cc)
pending-enter k n t ((id, cs) ∷ es) {children} new e = elim (Bool-cases (node_beq id k)) [
  | inl q ↦
      let same = (node_beq_iff id k).0 q in
      let full : cs ≡ children = some-injective _ _ (rw q at e) in
      let size = ap length full in
      let gone : weight (dist_of id (insert k n t)) cs ≡ 0 =
        rw same (ap (λ (o : Option ℕ). weight o cs) (dist_of-insert_self k n t)) in
      let was : weight (dist_of id t) cs ≡ length cs =
        rw same (ap (λ (o : Option ℕ). weight o cs) new) in
      omega (arith, pending-insert k n t es)
  | inr q ↦ omega (
    arith,
    weight-insert k id n t cs,
    pending-enter k n t es {children = children} new (rw q at e),
  )
]

-- What is left to do: the items of the heap, and the edges to come.
abbrev pub work : Edges → Search → ℕ
work edges s = length s.heap + pending s.nodes edges

visit-work :
    (edges : Edges) (lsas : LsaMap) (s : Search) (next : HeapNode) (rest : List HeapNode)
    {s' : Search}
    → Selected s.heap next rest
    → visit edges lsas next (record s { heap = rest }) ≡ some s'
    → work edges s' < work edges s
unfolding visit enter
visit-work edges lsas s next rest {s'} p e = elim (Bool-cases (is_some (get next.id s.nodes))) [
  | inl t ↦
      let same = some-injective _ _ (rw (t, visit) at e) in
      let less = pending-modify next.id next s.nodes edges in
      let size = p.size in rw (← same) (omega arith)
  | inr t ↦ elim (Option-cases (get next.id lsas)) [
    | inl g ↦
        let same = some-injective _ _ (rw (t, visit, enter, g) at e) in
        let size = p.size in rw (← same) (omega arith)
    | inr (l, g) ↦
        let less = pending-insert next.id (node_at next l) s.nodes edges in
        let size = p.size in
        elim (Bool-cases (is_stub next.id)) [
          | inl b ↦
              let same = some-injective _ _ (rw (t, visit, enter, g, b) at e) in
              rw (← same) (omega arith)
          | inr b ↦ elim (Option-cases (get next.id edges)) [
            | inl c ↦
                let same = some-injective _ _ (rw (t, visit, enter, g, b, c) at e) in
                rw (← same) (omega arith)
            | inr (children, c) ↦
                let nodes = insert next.id (node_at next l) s.nodes in
                elim (Option-cases (offer_all edges lsas nodes (node_at next l) children rest)) [
                  | inl o ↦ absurd (cc (rw (t, visit, enter, g, b, c, o) at e))
                  | inr (heap, o) ↦
                      let same = some-injective _ _ (rw (t, visit, enter, g, b, c, o) at e) in
                      let more =
                        (offer_all-Offered edges lsas (node_at next l) nodes children rest
                          {heap' = heap} o).size in
                      let fewer =
                        pending-enter next.id (node_at next l) s.nodes edges {children = children}
                          (not_in_tree next.id s.nodes t) c in
                      rw (← same) (omega arith)
                ]
          ]
        ]
  ]
]

loop_total :
    (fuel : ℕ) (edges : Edges) (lsas : LsaMap) (s : Search)
    → work edges s ≤ fuel
    → loop fuel edges lsas s ≢ out_of_fuel
unfolding loop
loop_total zero edges lsas s le e = elim (Option-cases (pop_max s.heap)) [
  | inl q ↦ absurd (cc (rw (q, loop) at e))
  | inr ((next, rest), q) ↦ let size = (pop_max-Selected s.heap q).size in absurd (omega arith)
]
loop_total (suc fuel) edges lsas s le e = elim (Option-cases (pop_max s.heap)) [
  | inl q ↦ absurd (cc (rw (q, loop) at e))
  | inr ((next, rest), q) ↦ elim (Option-cases (visit edges lsas next (record s { heap = rest }))) [
    | inl o ↦ absurd (cc (rw (q, loop, o) at e))
    | inr (s', o) ↦
        let less = visit-work edges lsas s next rest {s' = s'} (pop_max-Selected s.heap q) o in
        loop_total fuel edges lsas s' (omega arith) (rw (q, loop, o) at e)
  ]
]

-- Fuel for one round more than there are edges is enough for the loop of `calculate`.
pub loop_enough :
    (edges : Edges) (lsas : LsaMap) (root : NodeAddr)
    → loop (1 + count_edges edges) edges lsas (start root) ≢ out_of_fuel
loop_enough edges lsas root =
    loop_total (1 + count_edges edges) edges lsas (start root) (omega (arith, pending-empty edges))
