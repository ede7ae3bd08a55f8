-- ===== src/Area/Tree/Invariant.antt =====
-- What holds between two rounds of the loop of `calculate`.
use mathlib.Core.Option.{some-injective}
use rust_ospfd.Prelude.{
  ℕ, Bool, true, List, some, none, ◌≡◌, sym, ap, ◌∙◌, ◌⊎◌, inl, inr, arith, ◌≤◌, ◌+◌, In, get,
  insert, modify, Bool-cases,
}
use rust_ospfd.Packet.Lsa.{Lsa}
use rust_ospfd.Area.Nodes.{NodeAddr, node_eq, node_beq, node_beq_iff, ShortPathTree, HeapNode}
use rust_ospfd.Area.Edges.{Edges, LsaMap}
use rust_ospfd.Area.Lsdb.{is_some}
use rust_ospfd.Area.Tree.{Search, node_at, add_hops}
use rust_ospfd.Area.Tree.Paths.{Arc, Reaches, there, dist_of}
use rust_ospfd.Area.Tree.Dist.{dist_of-modify, dist_of-insert_self, dist_of-insert_ne, in_tree}
use rust_ospfd.Area.Tree.Pop.{Selected}

-- A node that is in the tree, or in the heap, at a distance up to a bound.
abbrev pub Bounded : Search → NodeAddr → ℕ → Type 0
Bounded s v e =
    ((d : ℕ) × (dist_of v s.nodes ≡ some d) × (d ≤ e))
    ⊎ ((h : HeapNode) × In h s.heap × (h.id ≡ v) × (h.distance ≤ e))

abbrev pub HasLsa : LsaMap → NodeAddr → Type 0
HasLsa lsas v = (l : Lsa) × (get v lsas ≡ some l)

module _ (edges : Edges) (lsas : LsaMap) (root : NodeAddr) where
  -- Distances are those of paths; the tree is nearer than the heap; and no path from the tree or
  -- from the root is forgotten.
  pub record IsSound (s : Search) : Type 0 where
    pub covered : (h : HeapNode) → In h s.heap → HasLsa lsas h.id
    pub heap_sound : (h : HeapNode) → In h s.heap → Reaches edges root h.id h.distance
    pub tree_sound : (v : NodeAddr) (d : ℕ) → dist_of v s.nodes ≡ some d → Reaches edges root v d
    pub ordered :
        (v : NodeAddr) (d : ℕ) (h : HeapNode)
        → dist_of v s.nodes ≡ some d
        → In h s.heap
        → d ≤ h.distance
    pub closed :
        (u : NodeAddr) (d : ℕ) (v : NodeAddr) (w : ℕ)
        → dist_of u s.nodes ≡ some d
        → Arc edges u v w
        → Bounded s v (d + w)
    pub rooted : Bounded s root 0

  module _ (s : Search) (next : HeapNode) (rest : List HeapNode) where
    -- A node that is in the tree already leaves the heap.
    pub revisit-IsSound :
        IsSound s
        → Selected s.heap next rest
        → (d : ℕ) × (dist_of next.id s.nodes ≡ some d)
        → IsSound (record s { nodes = modify next.id (add_hops next) s.nodes; heap = rest })
    revisit-IsSound v p (d0, at) = record {
      covered = λ h i. v.covered h (p.kept h i);
      heap_sound = λ h i. v.heap_sound h (p.kept h i);
      tree_sound = λ u d e. v.tree_sound u d (back u e);
      ordered = λ u d h e i. v.ordered u d h (back u e) (p.kept h i);
      closed = λ u d x w e a. bounded x (d + w) (v.closed u d x w (back u e) a);
      rooted = bounded root 0 v.rooted;
    }
      where
        s' : Search
        s' = record s { nodes = modify next.id (add_hops next) s.nodes; heap = rest }

        back : (u : NodeAddr) {d : ℕ} → dist_of u s'.nodes ≡ some d → dist_of u s.nodes ≡ some d
        back u e = sym (dist_of-modify u next.id next s.nodes) ∙ e

        bounded : (x : NodeAddr) (e : ℕ) → Bounded s x e → Bounded s' x e
        bounded x e (inl (d, q, le)) = inl (d, dist_of-modify x next.id next s.nodes ∙ q, le)
        bounded x e (inr (h, i, q, le)) = elim (p.split h i) [
          | inr j ↦ inr (h, j, q, le)
          | inl same ↦
              let id_x : next.id ≡ x = ap (λ (g : HeapNode). g.id) (sym same) ∙ q in
              let near : d0 ≤ next.distance = v.ordered next.id d0 next at p.chosen in
              let far : next.distance ≤ e = rw (← same) le in
              inl (d0, dist_of-modify x next.id next s.nodes ∙ rw (← id_x) at, omega arith)
        ]

    -- What a new node of the tree leaves in the heap.
    pub record Expanded (nodes : ShortPathTree) (heap : List HeapNode) : Type 0 where
      pub kept : (h : HeapNode) → In h rest → In h heap
      pub fresh :
          (h : HeapNode)
          → In h heap
          → In h rest
            ⊎ ((w : ℕ) × Arc edges next.id h.id w
                × (h.distance ≡ next.distance + w)
                × HasLsa lsas h.id)
      pub whole :
          (v : NodeAddr) (w : ℕ)
          → Arc edges next.id v w
          → (is_some (get v nodes) ≡ true)
            ⊎ ((h : HeapNode) × In h heap × (h.id ≡ v) × (h.distance ≡ next.distance + w))

    module _ (l : Lsa) (heap : List HeapNode) (transit : Bool) (v : IsSound s)
        (p : Selected s.heap next rest) (new : dist_of next.id s.nodes ≡ none) where
      abbrev entered : Search
      entered = record {
        nodes = insert next.id (node_at next l) s.nodes;
        heap = heap;
        transit = transit;
      }

      -- The distances of the new tree: those of the old one, and that of the new node.
      old_or_new :
          (u : NodeAddr) (d : ℕ)
          → dist_of u entered.nodes ≡ some d
          → ((next.id ≡ u) × (d ≡ next.distance)) ⊎ (dist_of u s.nodes ≡ some d)
      old_or_new u d e = elim (Bool-cases (node_beq next.id u)) [
        | inl q ↦
            let same = (node_beq_iff next.id u).0 q in
            let self = dist_of-insert_self next.id (node_at next l) s.nodes in
            inl (same, some-injective _ _ (sym (rw (← same) at e) ∙ self))
        | inr q ↦ inr (sym (dist_of-insert_ne u next.id (node_at next l) s.nodes q) ∙ e)
      ]

      stays : (u : NodeAddr) (d : ℕ) → dist_of u s.nodes ≡ some d → dist_of u entered.nodes ≡ some d
      stays u d e = elim (Bool-cases (node_beq next.id u)) [
        | inl q ↦
            let same = (node_beq_iff next.id u).0 q in
            let none_at : dist_of u s.nodes ≡ none = rw (← same) new in absurd (cc)
        | inr q ↦ dist_of-insert_ne u next.id (node_at next l) s.nodes q ∙ e
      ]

      placed : dist_of next.id entered.nodes ≡ some next.distance
      placed = dist_of-insert_self next.id (node_at next l) s.nodes

      -- The new node is the farthest of the tree.
      near : (u : NodeAddr) (d : ℕ) → dist_of u entered.nodes ≡ some d → d ≤ next.distance
      near u d e = elim (old_or_new u d e) [
        | inl (same, q) ↦ omega (arith, q)
        | inr q ↦ v.ordered u d next q p.chosen
      ]

      pub enter-IsSound : Expanded entered.nodes heap → IsSound entered
      enter-IsSound x = record {
        covered =
            λ h i. elim (x.fresh h i) [ inl j ↦ v.covered h (p.kept h j) | inr (w, a, q, c) ↦ c ];
        heap_sound = λ h i. elim (x.fresh h i) [
          | inl j ↦ v.heap_sound h (p.kept h j)
          | inr (w, a, q, c) ↦ there (v.heap_sound next p.chosen) a q
        ];
        tree_sound = λ u d e. elim (old_or_new u d e) [
          | inl (same, q) ↦ rw (← same, q) (v.heap_sound next p.chosen)
          | inr q ↦ v.tree_sound u d q
        ];
        ordered = λ u d h e i. elim (x.fresh h i) [
          | inl j ↦ let close = near u d e in let far = p.least h (p.kept h j) in omega arith
          | inr (w, a, q, c) ↦ let close = near u d e in omega (arith, q)
        ];
        closed = λ u d y w e a. elim (old_or_new u d e) [
          | inr q ↦ bounded y (d + w) (v.closed u d y w q a)
          | inl (same, q) ↦ reached y w d q (x.whole y w (rw (← same) at a))
        ];
        rooted = bounded root 0 v.rooted;
      }
        where
          bounded : (y : NodeAddr) (e : ℕ) → Bounded s y e → Bounded entered y e
          bounded y e (inl (d, q, le)) = inl (d, stays y d q, le)
          bounded y e (inr (h, i, q, le)) = elim (p.split h i) [
            | inr j ↦ inr (h, x.kept h j, q, le)
            | inl same ↦
                let id_y : next.id ≡ y = ap (λ (g : HeapNode). g.id) (sym same) ∙ q in
                inl (next.distance, rw (← id_y) placed, rw (← same) le)
          ]

          reached :
              (y : NodeAddr) (w d : ℕ)
              → d ≡ next.distance
              → (is_some (get y entered.nodes) ≡ true)
                ⊎ ((h : HeapNode) × In h heap × (h.id ≡ y) × (h.distance ≡ next.distance + w))
              → Bounded entered y (d + w)
          reached y w d q (inl t) =
              let (d1, at) = in_tree y entered.nodes t in
              let close = near y d1 at in inl (d1, at, omega (arith, q))
          reached y w d q (inr (h, i, id_y, far)) = inr (h, i, id_y, omega (arith, q, far))
