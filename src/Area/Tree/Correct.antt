-- ===== src/Area/Tree/Correct.antt =====
-- The tree of `calculate` and the shortest paths of the area's graph.
use mathlib.Core.Option.{some-injective}
use rust_ospfd.Prelude.{
  ℕ, Bool, false, List, [], ◌∷◌, some, ◌≡◌, refl, sym, ap, ◌∙◌, ◌↔◌, inl, inr, arith, ◌≤◌, ◌+◌, get,
  insert, get-insert_ne, Bool-cases, Option-cases, ◌==◌,
}
use rust_ospfd.Packet.Lsa.{LsaHeader, Lsa, index, lsa_max_age}
use rust_ospfd.Area.Nodes.{
  NodeAddr, router, node_eq, node_beq, node_beq_iff, is_stub, ShortPathTree,
}
use rust_ospfd.Area.Edges.{
  Children, Edges, LsaMap, node_of, copy_lsas, lsa2nodes, edges_of, stub_lsas, add_stubs, or_insert,
}
use rust_ospfd.Area.Lsdb.{Area, m_get_lsa, get_all_area_lsa, is_some}
use rust_ospfd.Area.Tree.{
  Search, start, loop, count_edges, calculate, done, panicked, out_of_fuel, Outcome, result,
}
use rust_ospfd.Area.Tree.Paths.{Reaches, dist_of}
use rust_ospfd.Area.Tree.Invariant.{HasLsa}
use rust_ospfd.Area.Tree.Shortest.{NoStubEdges, start-IsSound, loop-IsSound, nothing_shorter}

-- No key is a stub network.
abbrev pub NoStubs {ℓ} : {V : Type ℓ} → List (NodeAddr × V) → Type 0
NoStubs [] = Unit
NoStubs ((k, v) ∷ m) = (is_stub k ≡ false) × NoStubs m

insert-NoStubs :
    (k : NodeAddr) (l : Lsa) (m : LsaMap) → is_stub k ≡ false → NoStubs m → NoStubs (insert k l m)
insert-NoStubs k l [] e h = (e, tt)
insert-NoStubs k l ((j, x) ∷ m) e h = elim (Bool-cases (node_beq j k)) [
  | inl q ↦ rw q (e, h.1)
  | inr q ↦ rw q (h.0, insert-NoStubs k l m e h.1)
]

node_of-stub : (h : LsaHeader) {k : NodeAddr} → node_of h ≡ some k → is_stub k ≡ false
unfolding node_of
node_of-stub h e = ground arith

copy_lsas-NoStubs :
    (now : ℕ) (a : Area) (hs : List LsaHeader) (m : LsaMap) {r : LsaMap}
    → NoStubs m
    → copy_lsas now a hs m ≡ some r
    → NoStubs r
unfolding copy_lsas
copy_lsas-NoStubs now a [] m h e = rw (← some-injective _ _ e) h
copy_lsas-NoStubs now a (x ∷ hs) m {r} h e = elim (Bool-cases (x.ls_age == lsa_max_age)) [
  | inl q ↦ copy_lsas-NoStubs now a hs m {r = r} h (rw q at e)
  | inr q ↦ elim (Option-cases (node_of x)) [
    | inl n ↦ copy_lsas-NoStubs now a hs m {r = r} h (rw (q, n) at e)
    | inr (k, n) ↦ elim (Option-cases (m_get_lsa now a [] (index x))) [
      | inl g ↦ absurd (cc (rw (q, n, g) at e))
      | inr (l, g) ↦
          copy_lsas-NoStubs now a hs (insert k l.0 m) {r = r}
            (insert-NoStubs k l.0 m (node_of-stub x n) h) (rw (q, n, g) at e)
    ]
  ]
]

edges_of-NoStubs :
    (m : LsaMap) {edges : Edges} → NoStubs m → edges_of m ≡ some edges → NoStubs edges
unfolding edges_of
edges_of-NoStubs [] h e = rw (← some-injective _ _ e) tt
edges_of-NoStubs ((k, l) ∷ m) {edges} h e = elim (Option-cases (lsa2nodes l)) [
  | inl c ↦ absurd (cc (rw c at e))
  | inr (cs, c) ↦ elim (Option-cases (edges_of m)) [
    | inl r ↦ absurd (cc (rw (c, r) at e))
    | inr (es, r) ↦
        rw (← some-injective _ _ (rw (c, r) at e)) (h.0, edges_of-NoStubs m {edges = es} h.1 r)
  ]
]

NoStubs-leaves : (edges : Edges) → NoStubs edges → NoStubEdges edges
NoStubs-leaves [] h v s = refl
NoStubs-leaves ((k, c) ∷ es) h v s = elim (Bool-cases (node_beq k v)) [
  | inl q ↦ let same : k ≡ v = (node_beq_iff k v).0 q in absurd (cc (rw same at h.0))
  | inr q ↦ rw q (NoStubs-leaves es h.1 v s)
]

-- The third pass loses no LSA.
or_insert-HasLsa : (k j : NodeAddr) (l : Lsa) (m : LsaMap) → HasLsa m j → HasLsa (or_insert k l m) j
or_insert-HasLsa k j l m (x, g) = elim (Bool-cases (is_some (get k m))) [
  | inl q ↦ rw q (x, g)
  | inr q ↦ elim (Bool-cases (node_beq k j)) [
    | inl p ↦
        let same : k ≡ j = (node_beq_iff k j).0 p in
        let found : get k m ≡ some x = rw same g in absurd (cc (rw found at q))
    | inr p ↦ rw q (x, get-insert_ne k j l m p ∙ g)
  ]
]

pub stub_lsas-HasLsa :
    (l : Lsa) (cs : Children) (m : LsaMap) (j : NodeAddr) → HasLsa m j → HasLsa (stub_lsas l cs m) j
unfolding stub_lsas
stub_lsas-HasLsa l [] m j h = h
stub_lsas-HasLsa l ((dest, cost) ∷ cs) m j h = elim (Bool-cases (is_stub dest)) [
  | inl q ↦ rw q (stub_lsas-HasLsa l cs (or_insert dest l m) j (or_insert-HasLsa dest j l m h))
  | inr q ↦ rw q (stub_lsas-HasLsa l cs m j h)
]

pub add_stubs-HasLsa :
    (es : Edges) (m : LsaMap) (j : NodeAddr) {r : LsaMap}
    → HasLsa m j
    → add_stubs es m ≡ some r
    → HasLsa r j
unfolding add_stubs
add_stubs-HasLsa [] m j h e = rw (← some-injective _ _ e) h
add_stubs-HasLsa ((id, cs) ∷ es) m j {r} h e = elim (Option-cases (get id m)) [
  | inl g ↦ absurd (cc (rw g at e))
  | inr (l, g) ↦
      add_stubs-HasLsa es (stub_lsas l cs m) j {r = r} (stub_lsas-HasLsa l cs m j h) (rw g at e)
]

-- The least cost of a path.
abbrev pub IsShortest : Edges → NodeAddr → NodeAddr → ℕ → Type 0
IsShortest edges root v d = Reaches edges root v d × ((e : ℕ) → Reaches edges root v e → d ≤ e)

-- The copy of the database and the edges that `calculate` works on.
abbrev pub HasGraph : ℕ → Area → LsaMap → Edges → Type 0
HasGraph now a copied edges =
    (copy_lsas now a (get_all_area_lsa now a) [] ≡ some copied) × (edges_of copied ≡ some edges)

loop-IsShortest :
    (fuel : ℕ) (edges : Edges) (lsas : LsaMap) (root : NodeAddr) (v : NodeAddr) (d : ℕ) {t : Search}
    → NoStubEdges edges
    → HasLsa lsas root
    → loop fuel edges lsas (start root) ≡ done t
    → (dist_of v t.nodes ≡ some d) ↔ IsShortest edges root v d
loop-IsShortest fuel edges lsas root v d {t} leaves own e =
    let (sound, empty) =
      loop-IsSound edges lsas root leaves fuel (start root) {t = t}
        (start-IsSound edges lsas root leaves own) e in
    let shorter = λ (c : ℕ) (r : Reaches edges root v c).
      nothing_shorter edges lsas root leaves t sound empty r in
    (
      λ at. (
        sound.tree_sound v d at,
        λ c r.
            let (b, at2, le) = shorter c r in
            let same : d ≡ b = some-injective _ _ (sym at ∙ at2) in omega arith,
      ),
      λ (r, least).
          let (b, at, le) = shorter d r in
          let ge = least b (sound.tree_sound v b at) in
          let same : b ≡ d = omega arith in rw (← same) at,
    )

done_of_result :
    (o : Outcome) {tree : ShortPathTree} {transit : Bool}
    → result o ≡ some (tree, transit)
    → (t : Search) × (o ≡ done t) × (t.nodes ≡ tree)
done_of_result (done s) {tree} {transit} e =
    (s, refl, ap (λ (p : ShortPathTree × Bool). p.0) (some-injective _ _ e))
done_of_result panicked e = absurd (cc)
done_of_result out_of_fuel e = absurd (cc)

-- If `calculate` gives a tree for an area, and the copy of the area's database has the LSA of the
-- router itself, then a node has the distance d in the tree exactly when d is the least cost of a
-- path to it from the router: a path of edges that both ends have, or that lead to a stub network,
-- where the cost of an edge is the greater of its two ends'.
pub calculate-IsShortest :
    (now router_id : ℕ) (a : Area) (copied : LsaMap) (edges : Edges) (tree : ShortPathTree)
    (transit : Bool) (v : NodeAddr) (d : ℕ)
    → HasGraph now a copied edges
    → HasLsa copied (router router_id)
    → calculate now router_id a ≡ some (tree, transit)
    → (dist_of v tree ≡ some d) ↔ IsShortest edges (router router_id) v d
unfolding calculate
calculate-IsShortest now router_id a copied edges tree transit v d (c, g) own e =
    elim (Option-cases (add_stubs edges copied)) [
      | inl s ↦ absurd (cc (rw (c, g, s) at e))
      | inr (lsas, s) ↦
          let (t, q, same) = done_of_result _ (rw (c, g, s) at e) in
          let plain = copy_lsas-NoStubs now a (get_all_area_lsa now a) [] {r = copied} tt c in
          rw (← same) (
            loop-IsShortest (1 + count_edges edges) edges lsas (router router_id) v d {t = t}
              (NoStubs-leaves edges (edges_of-NoStubs copied plain g))
              (add_stubs-HasLsa edges copied (router router_id) {r = lsas} own s) q)
    ]
