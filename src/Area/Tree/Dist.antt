-- ===== src/Area/Tree/Dist.antt =====
-- How the distances of the tree change.
use rust_ospfd.Prelude.{
  ℕ, true, false, [], ◌∷◌, some, none, ◌≡◌, refl, ap, inl, inr, arith, get, insert, modify,
  Bool-cases, get-insert_self, get-insert_ne, Option-cases,
}
use rust_ospfd.Area.Nodes.{NodeAddr, node_eq, node_beq, ShortPathTree, TreeNode, HeapNode}
use rust_ospfd.Area.Lsdb.{is_some}
use rust_ospfd.Area.Tree.{add_hops}
use rust_ospfd.Area.Tree.Paths.{dist_of, distance_of}

pub dist_of-modify :
    (v k : NodeAddr) (next : HeapNode) (t : ShortPathTree)
    → dist_of v (modify k (add_hops next) t) ≡ dist_of v t
dist_of-modify v k next [] = refl
dist_of-modify v k next ((j, n) ∷ t) = elim (Bool-cases (node_beq j k)) [
  | inl q ↦ elim (Bool-cases (node_beq j v)) [
    | inl p ↦ rw (q, dist_of, p) (ground arith)
    | inr p ↦ rw (q, dist_of, p)
  ]
  | inr q ↦ elim (Bool-cases (node_beq j v)) [
    | inl p ↦ rw (q, dist_of, p)
    | inr p ↦ rw (q, dist_of, p) (dist_of-modify v k next t)
  ]
]

pub dist_of-insert_self :
    (k : NodeAddr) (n : TreeNode) (t : ShortPathTree) → dist_of k (insert k n t) ≡ some n.distance
dist_of-insert_self k n t = ap distance_of (get-insert_self k n t)

pub dist_of-insert_ne :
    (v k : NodeAddr) (n : TreeNode) (t : ShortPathTree)
    → node_beq k v ≡ false
    → dist_of v (insert k n t) ≡ dist_of v t
dist_of-insert_ne v k n t q = ap distance_of (get-insert_ne k v n t q)

-- Membership in the tree, and the distance.
pub in_tree :
    (v : NodeAddr) (t : ShortPathTree) → is_some (get v t) ≡ true → (d : ℕ) × (dist_of v t ≡ some d)
in_tree v t h = elim (Option-cases (get v t)) [
  | inl e ↦ absurd (cc (rw e at h))
  | inr (n, e) ↦ (n.distance, ap distance_of e)
]

pub not_in_tree :
    (v : NodeAddr) (t : ShortPathTree) → is_some (get v t) ≡ false → dist_of v t ≡ none
not_in_tree v t h = elim (Option-cases (get v t)) [
  | inl e ↦ ap distance_of e
  | inr (n, e) ↦ absurd (cc (rw e at h))
]
