-- ===== src/Area/Tree/Total.antt =====
-- `calculate` of ospfd/area/tree.rs to its end.
use rust_ospfd.Prelude.{
  ℕ, ◌≤◌, ◌≡◌, refl, Bool, true, [], ◌∷◌, some, All, All-map_imp, get, get-insert_self,
  if◌then◌else◌, Bool-cases, Option-cases, inl, inr,
}
use rust_ospfd.Packet.Lsa.{Lsa}
use rust_ospfd.Area.Nodes.{
  NodeAddr, router, node_eq, node_beq, node_beq_iff, is_stub, ShortPathTree,
}
use rust_ospfd.Area.Edges.{Children, Edges, LsaMap, edges_of, stub_lsas, add_stubs, or_insert}
use rust_ospfd.Area.Lsdb.{Area, get_all_area_lsa}
use rust_ospfd.Area.Tree.{calculate, count_edges}
use rust_ospfd.Area.Tree.Invariant.{HasLsa}
use rust_ospfd.Area.Tree.Correct.{HasGraph, stub_lsas-HasLsa, add_stubs-HasLsa}
use rust_ospfd.Area.Tree.Complete.{IsChild, IsComplete, loop_ends}
use rust_ospfd.Area.Tree.Prepared.{
  IsGraphLsa, IsFiled, IsCheap, lsa2nodes_total, live-IsFound, copy_lsas_total,
}

-- The edges of a map of LSAs: every node has its LSA.
abbrev IsRead : LsaMap → Edges → Type 0
IsRead m edges = All (λ p. HasLsa m p.0 × All IsCheap p.1) edges

more-HasLsa : (k j : NodeAddr) (l : Lsa) (m : LsaMap) → HasLsa m j → HasLsa ((k, l) ∷ m) j
more-HasLsa k j l m (x, g) = elim (Bool-cases (node_beq k j)) [
  | inl q ↦ (l, rw q refl)
  | inr q ↦ (x, rw q g)
]

edges_of_total :
    (m : LsaMap)
    → All (λ p. IsGraphLsa p.1) m
    → (edges : Edges) × (edges_of m ≡ some edges) × IsRead m edges
unfolding edges_of
edges_of_total [] h = ([], refl, tt)
edges_of_total ((k, l) ∷ m) h =
    let (cs, e, c) = lsa2nodes_total l h.0 in
    let (es, q, r) = edges_of_total m h.1 in
    let own : node_beq k k ≡ true = (node_beq_iff k k).1 refl in
    let rest = All-map_imp es (λ p (x, y). (more-HasLsa k p.0 l m x, y)) r in
    ((k, cs) ∷ es, rw (e, q) refl, (((l, rw own refl), c), rest))

-- The LSAs of stub networks.
or_insert_own : (k : NodeAddr) (l : Lsa) (m : LsaMap) → HasLsa (or_insert k l m) k
or_insert_own k l m = elim (Option-cases (get k m)) [
  | inl q ↦ (l, rw q (get-insert_self k l m))
  | inr (x, q) ↦ (x, rw q q)
]

stub_lsas-stubs :
    (l : Lsa) (cs : Children) (m : LsaMap)
    → All (λ c. is_stub c.0 ≡ true → HasLsa (stub_lsas l cs m) c.0) cs
unfolding stub_lsas
stub_lsas-stubs l [] m = tt
stub_lsas-stubs l ((dest, cost) ∷ cs) m = (
  λ t. rw t (stub_lsas-HasLsa l cs (or_insert dest l m) dest (or_insert_own dest l m)),
  stub_lsas-stubs l cs (if is_stub dest then or_insert dest l m else m),
)

children-IsChild :
    (r : LsaMap) (cs : Children)
    → All IsCheap cs
    → All (λ c. is_stub c.0 ≡ true → HasLsa r c.0) cs
    → All (IsChild r) cs
children-IsChild r [] h g = tt
children-IsChild r (c ∷ cs) h g = ((h.0, g.0), children-IsChild r cs h.1 g.1)

add_stubs_total :
    (es : Edges) (m : LsaMap)
    → IsRead m es
    → (r : LsaMap) × (add_stubs es m ≡ some r) × IsComplete r es
unfolding add_stubs
add_stubs_total [] m h = (m, refl, tt)
add_stubs_total ((id, cs) ∷ es) m h =
    let ((l, g), cheap) = h.0 in
    let m' = stub_lsas l cs m in
    let rest = All-map_imp es (λ p (x, y). (stub_lsas-HasLsa l cs m p.0 x, y)) h.1 in
    let (r, e, whole) = add_stubs_total es m' rest in
    let own = add_stubs-HasLsa es m' id {r = r} (stub_lsas-HasLsa l cs m id (l, g)) e in
    let stubs =
      All-map_imp cs (λ c f t. add_stubs-HasLsa es m' c.0 {r = r} (f t) e)
        (stub_lsas-stubs l cs m) in
    (r, rw g e, ((own, children-IsChild r cs cheap stubs), whole))

-- `calculate` ends without a panic for an area with the capability for external routing in whose
-- database every LSA stands under its own key and every LSA under the key of a router or network
-- LSA has the body of such an LSA, with links of the four known types and metrics below 2 ^ 16, if
-- the copies of the LSAs have at most 65536 edges.
pub calculate_total :
    (now router_id : ℕ) (a : Area)
    → a.external_routing_capability ≡ true
    → All IsFiled a.lsa_database
    → ((copied : LsaMap) (edges : Edges) → HasGraph now a copied edges → count_edges edges ≤ 65536)
    → (r : ShortPathTree × Bool) × (calculate now router_id a ≡ some r)
unfolding calculate
calculate_total now router_id a capable filed few =
    let (copied, c, graph) =
      copy_lsas_total now a capable filed (get_all_area_lsa now a) []
        (live-IsFound now a capable filed) tt in
    let (edges, e, read) = edges_of_total copied graph in
    let (lsas, s, whole) = add_stubs_total edges copied read in
    let (t, l) = loop_ends edges lsas whole (router router_id) (few copied edges (c, e)) in
    ((t.nodes, t.transit), rw (c, e, s, l) refl)
