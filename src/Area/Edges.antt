-- ===== src/Area/Edges.antt =====
-- ospfd/area/tree.rs: the copy of the database that the calculation starts from, and its edges.
-- `none` is a panic: a failed `unwrap`, or `unreachable!()` at a link type that is not known.
use rust_ospfd.Prelude.{
  ℕ, Bool, false, List, [], ◌∷◌, Option, some, none, ◌==◌, not, ◌||◌, if◌then◌else◌, get, insert,
  ◌>>=◌,
}
use rust_ospfd.Packet.Lsa.{
  Ipv4Addr, LsaHeader, Lsa, LsaIndex, index, index_eq, RouterLsaLink, lsa_max_age, router_lsa,
  network_lsa, p2p_link, transit_link, stub_link, virtual_link,
}
use rust_ospfd.Packet.Lsa as Packet
use rust_ospfd.Routing.Mask.{mask_from}
use rust_ospfd.Area.Nodes.{NodeAddr, router, network, stub, node_eq, is_stub}
use rust_ospfd.Area.Lsdb.{Area, m_get_lsa, is_some}

abbrev pub Children : Type 0
Children = List (NodeAddr × ℕ)

abbrev pub Edges : Type 0
Edges = List (NodeAddr × Children)

abbrev pub LsaMap : Type 0
LsaMap = List (NodeAddr × Lsa)

-- The node that a link of a router LSA leads to.
unfoldable pub link_target : RouterLsaLink → Option NodeAddr
unfolding mask_from
link_target l =
    if l.link_type == stub_link
    then some (stub (mask_from l.link_id l.link_data))
    else if l.link_type == p2p_link || l.link_type == virtual_link
    then some (router l.link_id)
    else if l.link_type == transit_link
    then some (network l.link_id)
    else none

-- The loops of `lsa2nodes`: a later link to the same node takes the place of the earlier.
unfoldable pub link_nodes : List RouterLsaLink → Children → Option Children
unfolding link_target
link_nodes [] m = some m
link_nodes (l ∷ ls) m = do node ← link_target l; link_nodes ls (insert node l.metric m)

unfoldable pub attached_nodes : List Ipv4Addr → Children → Children
attached_nodes [] m = m
attached_nodes (a ∷ as') m = attached_nodes as' (insert (router a) 0 m)

-- `lsa2nodes`
unfoldable pub lsa2nodes : Lsa → Option Children
unfolding link_nodes attached_nodes
lsa2nodes l = elim l.body [
  | Packet.router r ↦ link_nodes r.links []
  | Packet.network n ↦ some (attached_nodes n.attached_routers [])
  | Packet.summary_ip s ↦ none
  | Packet.summary_asbr s ↦ none
  | Packet.as_external e ↦ none
]

-- `lsa_have_v`
unfoldable pub lsa_have_v : Lsa → Bool
lsa_have_v l = elim l.body [
  | Packet.router r ↦ not (r.v == 0)
  | Packet.network n ↦ false
  | Packet.summary_ip s ↦ false
  | Packet.summary_asbr s ↦ false
  | Packet.as_external e ↦ false
]

-- The node of a router or network LSA.
unfoldable pub node_of : LsaHeader → Option NodeAddr
node_of h =
    if h.ls_type == router_lsa
    then some (router h.link_state_id)
    else if h.ls_type == network_lsa
    then some (network h.link_state_id)
    else none

-- The first pass: the LSAs that are not at their end, read from the area's database alone.
unfoldable pub copy_lsas : ℕ → Area → List LsaHeader → LsaMap → Option LsaMap
unfolding node_of
copy_lsas now a [] m = some m
copy_lsas now a (h ∷ hs) m =
    let next : Option LsaMap = elim (node_of h) [
      | none ↦ some m
      | some node ↦ (m_get_lsa now a [] (index h) >>= λ r. some (insert node r.0 m))
    ] in
    do m' ← if h.ls_age == lsa_max_age then some m else next; copy_lsas now a hs m'

-- The second pass.
unfoldable pub edges_of : LsaMap → Option Edges
unfolding lsa2nodes
edges_of [] = some []
edges_of ((id, l) ∷ m) = do children ← lsa2nodes l; rest ← edges_of m; some ((id, children) ∷ rest)

-- `entry(dest).or_insert(lsa)`
abbrev pub or_insert : NodeAddr → Lsa → LsaMap → LsaMap
or_insert k l m = if is_some (get k m) then m else insert k l m

-- The third pass: a stub network has the LSA that announces it.
unfoldable pub stub_lsas : Lsa → Children → LsaMap → LsaMap
stub_lsas l [] m = m
stub_lsas l ((dest, cost) ∷ cs) m = stub_lsas l cs (if is_stub dest then or_insert dest l m else m)

unfoldable pub add_stubs : Edges → LsaMap → Option LsaMap
unfolding stub_lsas
add_stubs [] m = some m
add_stubs ((id, children) ∷ es) m = do l ← get id m; add_stubs es (stub_lsas l children m)
