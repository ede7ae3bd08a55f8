-- ===== src/Area/Tree/Paths.antt =====
-- The graph that ospfd/area/tree.rs searches: edges with both ends, and paths with their costs.
use mathlib.Core.Option.{some-injective}
use rust_ospfd.Prelude.{
  ℕ, true, false, Option, some, none, ◌≡◌, refl, sym, ◌↔◌, ◌⊎◌, inl, inr, ◌+◌, max, In, get,
  Bool-cases, Option-cases,
}
use rust_ospfd.Area.Nodes.{NodeAddr, node_eq, is_stub, ShortPathTree, TreeNode}
use rust_ospfd.Area.Edges.{Children, Edges}
use rust_ospfd.Area.Tree.{link_cost}

-- The cost of an edge from `u` to `v` that `u` gives a cost: a stub network has that cost; another
-- node has an edge back, and the cost is the greater of the two.
abbrev pub Costs : Edges → NodeAddr → NodeAddr → ℕ → ℕ → Type 0
Costs edges u v cost w =
    ((is_stub v ≡ true) × (w ≡ cost))
    ⊎ ((is_stub v ≡ false)
        × ((back : Children) × (c : ℕ) × (get v edges ≡ some back)
            × (get u back ≡ some c)
            × (w ≡ max cost c)))

abbrev pub Arc : Edges → NodeAddr → NodeAddr → ℕ → Type 0
Arc edges u v w =
    (children : Children) × (cost : ℕ) × (get u edges ≡ some children)
    × In (v, cost) children
    × Costs edges u v cost w

pub link_cost-Costs :
    (edges : Edges) (u v : NodeAddr) (cost w : ℕ)
    → (link_cost edges u v cost ≡ some w) ↔ Costs edges u v cost w
unfolding link_cost
link_cost-Costs edges u v cost w = elim (Bool-cases (is_stub v)) [
  | inl q ↦ (
    λ e. inl (q, sym (some-injective _ _ (rw (q, link_cost) at e))),
    λ c. elim c [
      | inl (_, same) ↦ rw (q, link_cost, same) refl
      | inr (other, _) ↦ absurd (cc (q, other))
    ],
  )
  | inr q ↦ (
    λ e. elim (Option-cases (get v edges)) [
      | inl g ↦ absurd (cc (rw (q, link_cost, g) at e))
      | inr (back, g) ↦ elim (Option-cases (get u back)) [
        | inl h ↦ absurd (cc (rw (q, link_cost, g, h) at e))
        | inr (c, h) ↦
            inr (q, (back, c, g, h, sym (some-injective _ _ (rw (q, link_cost, g, h) at e))))
      ]
    ],
    λ c. elim c [
      | inl (is, _) ↦ absurd (cc (q, is))
      | inr (_, (back, d, g, h, same)) ↦ rw (q, link_cost, g, h, same) refl
    ],
  )
]

-- The ends of the paths from the root, with the costs of the paths.
pub data Reaches (edges : Edges) (root : NodeAddr) : NodeAddr → ℕ → Type 0 where
  here : Reaches edges root root 0
  there :
      {u v : NodeAddr} {d w e : ℕ}
      → Reaches edges root u d
      → Arc edges u v w
      → e ≡ d + w
      → Reaches edges root v e

-- The distance of a node in the tree.
abbrev pub distance_of : Option TreeNode → Option ℕ
distance_of none = none
distance_of (some n) = some n.distance

abbrev pub dist_of : NodeAddr → ShortPathTree → Option ℕ
dist_of v t = distance_of (get v t)
