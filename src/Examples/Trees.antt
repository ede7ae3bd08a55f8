-- ===== src/Examples/Trees.antt =====
-- An area of two routers on a network, and its tree.
use mathlib.Core.Option.{some-injective}
use rust_ospfd.Prelude.{◌≤◌, All, Bool, arith, ℕ, true, false, [], ◌∷◌, some, ◌≡◌, ◌↔◌, refl}
use rust_ospfd.Prelude.Int.{negsuc}
use rust_ospfd.Packet.Lsa.{
  Ipv4Addr, LsaHeader, Lsa, RouterLsaLink, router, network, transit_link, router_lsa, network_lsa,
  index,
}
use rust_ospfd.Area.Nodes as Nodes
use rust_ospfd.Area.Nodes.{NodeAddr, node_eq, TreeNode, ShortPathTree}
use rust_ospfd.Area.Edges.{Edges, LsaMap, copy_lsas, edges_of, add_stubs}
use rust_ospfd.Area.Lsdb.{Area, Entry, get_all_area_lsa, live_headers, m_get_lsa}
use rust_ospfd.Area.Tree.{calculate, count_edges}
use rust_ospfd.Area.Tree.Paths.{dist_of}
use rust_ospfd.Area.Tree.Correct.{IsShortest, calculate-IsShortest}
use rust_ospfd.Area.Tree.Total.{calculate_total}
use rust_ospfd.Area.Tree.Prepared.{IsFiled}
use rust_ospfd.Area.Tree.Correct.{HasGraph}
use rust_ospfd.Examples.{me_ip, nbr_ip}

abbrev pub tree_header : ℕ → Ipv4Addr → Ipv4Addr → LsaHeader
tree_header ty id adv = record {
  ls_age = 5;
  options = 2;
  ls_type = ty;
  link_state_id = id;
  advertising_router = adv;
  ls_sequence_number = negsuc 0x7fff_fffe;
  ls_checksum = 0;
  length = 36;
}

-- The interface of a router, at cost 10.
abbrev pub link_by : Ipv4Addr → RouterLsaLink
link_by ip = record {
  link_id = me_ip;
  link_data = ip;
  link_type = transit_link;
  tos = 0;
  metric = 10;
}

abbrev pub router_at : ℕ → Ipv4Addr → Lsa
router_at id ip = record {
  header = tree_header router_lsa id id;
  body = router (record { v = 0; e = 0; b = 0; num_links = 1; links = link_by ip ∷ [] });
}

abbrev pub net_lsa : Lsa
net_lsa = record {
  header = tree_header network_lsa me_ip 1;
  body = network (record { network_mask = 0xffff_ff00; attached_routers = 2 ∷ 1 ∷ [] });
}

abbrev pub entry : Lsa → Entry
entry l = record { lsa = l; created = 1000; updated = 1000 }

abbrev pub tree_area : Area
tree_area = record {
  area_id = 0;
  lsa_database =
      (index (router_at 1 me_ip).header, entry (router_at 1 me_ip))
      ∷ (index net_lsa.header, entry net_lsa)
      ∷ (index (router_at 2 nbr_ip).header, entry (router_at 2 nbr_ip))
      ∷ [];
  short_path_tree = [];
  transit_capability = false;
  external_routing_capability = true;
  stub_default_cost = 0;
}

abbrev aged : Lsa → Lsa
aged l = record l { header = record l.header { ls_age = 9 } }

abbrev copied : LsaMap
copied =
    (Nodes.router 1, aged (router_at 1 me_ip))
    ∷ (Nodes.network me_ip, aged net_lsa)
    ∷ (Nodes.router 2, aged (router_at 2 nbr_ip))
    ∷ []

abbrev tree_edges : Edges
tree_edges =
    (Nodes.router 1, (Nodes.network me_ip, 10) ∷ [])
    ∷ (Nodes.network me_ip, (Nodes.router 2, 0) ∷ (Nodes.router 1, 0) ∷ [])
    ∷ (Nodes.router 2, (Nodes.network me_ip, 10) ∷ [])
    ∷ []

abbrev tree : ShortPathTree
tree =
    (
      Nodes.router 1,
      record { id = Nodes.router 1; lsa = aged (router_at 1 me_ip); next_hops = []; distance = 0 },
    )
    ∷ (
      Nodes.network me_ip,
      record { id = Nodes.network me_ip; lsa = aged net_lsa; next_hops = []; distance = 10 },
    )
    ∷ (
      Nodes.router 2,
      record {
        id = Nodes.router 2;
        lsa = aged (router_at 2 nbr_ip);
        next_hops = nbr_ip ∷ [];
        distance = 20;
      },
    )
    ∷ []

calculate-IsShortest_example :
    (dist_of (Nodes.router 2) tree ≡ some 20)
    ↔ IsShortest tree_edges (Nodes.router 1) (Nodes.router 2) 20
unfolding copy_lsas edges_of calculate get_all_area_lsa live_headers m_get_lsa add_stubs
calculate-IsShortest_example =
    calculate-IsShortest 5000 1 tree_area copied tree_edges tree false (Nodes.router 2) 20
      (refl, refl) (aged (router_at 1 me_ip), refl) refl

few_edges :
    (copied' : LsaMap) (edges : Edges)
    → HasGraph 5000 tree_area copied' edges
    → count_edges edges ≤ 65536
unfolding copy_lsas edges_of get_all_area_lsa live_headers m_get_lsa count_edges
few_edges copied' edges (c, e) =
    let w : copied ≡ copied' = some-injective _ _ c in
    let v : tree_edges ≡ edges = some-injective _ _ (rw (← w) at e) in rw (← v) (omega arith)

tree_area-IsFiled : All IsFiled tree_area.lsa_database
tree_area-IsFiled = (
  (refl, λ t. ((refl, omega arith), tt)),
  ((refl, λ t. tt), ((refl, λ t. ((refl, omega arith), tt)), tt)),
)

calculate_total_example : (r : ShortPathTree × Bool) × (calculate 5000 1 tree_area ≡ some r)
calculate_total_example = calculate_total 5000 1 tree_area refl tree_area-IsFiled few_edges
