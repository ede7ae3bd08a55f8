-- ===== src/Area/Tree/Prepared.antt =====
-- What the three passes of `calculate` of ospfd/area/tree.rs make of a database in which every LSA
-- stands under its own key with the body of its type.
use mathlib.Core.Option.{some-injective}
use rust_ospfd.Prelude.{
  ℕ, ◌≤◌, ◌≡◌, refl, sym, ap, Bool, true, List, [], ◌∷◌, some, ◌==◌, ◌||◌, All, All-filter, In, get,
  insert, values, map, arith, Bool-cases, Option-cases, inl, inr,
}
use rust_ospfd.Packet.Lsa.{
  Ipv4Addr, LsaHeader, Lsa, LsaIndex, index, index_eq, index_beq, index_beq_iff, RouterLsaLink,
  lsa_max_age, router_lsa, network_lsa, p2p_link, transit_link, stub_link, virtual_link,
}
use rust_ospfd.Packet.Lsa as Packet
use rust_ospfd.Routing.Mask.{mask_from}
use rust_ospfd.Area.Nodes.{NodeAddr, router, network, stub, node_eq, node_beq}
use rust_ospfd.Area.Edges.{
  Children, LsaMap, link_target, link_nodes, attached_nodes, lsa2nodes, node_of, copy_lsas,
}
use rust_ospfd.Area.Lsdb.{
  Area, Entry, LsaDb, m_get_lsa, get_all_area_lsa, live_headers, update_lsa_age,
  update_lsa_age_header,
}

-- A link of a known type, with a metric of 16 bits.
abbrev pub IsLink : RouterLsaLink → Type 0
IsLink l =
    ((l.link_type == stub_link
        || (l.link_type == p2p_link
            || (l.link_type == virtual_link || l.link_type == transit_link)))
      ≡ true)
    × (l.metric ≤ 65535)

-- The body of an LSA that has edges.
abbrev pub IsGraphLsa : Lsa → Type 0
IsGraphLsa l = elim l.body [
  | Packet.router r ↦ All IsLink r.links
  | Packet.network n ↦ Unit
  | Packet.summary_ip s ↦ ⊥
  | Packet.summary_asbr s ↦ ⊥
  | Packet.as_external e ↦ ⊥
]

abbrev pub IsFiled : LsaIndex × Entry → Type 0
IsFiled p =
    (p.0 ≡ index p.1.lsa.header)
    × (((p.0.ls_type == router_lsa || p.0.ls_type == network_lsa) ≡ true) → IsGraphLsa p.1.lsa)

abbrev pub IsCheap : NodeAddr × ℕ → Type 0
IsCheap c = c.1 ≤ 65535

insert-All {ℓ} :
    {V : Type ℓ} (P : NodeAddr × V → Type 0) (k : NodeAddr) (v : V) (m : List (NodeAddr × V))
    → P (k, v)
    → All P m
    → All P (insert k v m)
insert-All P k v [] p h = (p, tt)
insert-All P k v ((j, x) ∷ m) p h = elim (Bool-cases (node_beq j k)) [
  | inl q ↦ rw q (p, h.1)
  | inr q ↦ rw q (h.0, insert-All P k v m p h.1)
]

link_target_total : (l : RouterLsaLink) → IsLink l → (n : NodeAddr) × (link_target l ≡ some n)
unfolding link_target
link_target_total l (t, m) = elim (Bool-cases (l.link_type == stub_link)) [
  | inl q ↦ (stub (mask_from l.link_id l.link_data), rw q refl)
  | inr q ↦ elim (Bool-cases (l.link_type == p2p_link || l.link_type == virtual_link)) [
    | inl p ↦ (router l.link_id, rw (q, p) refl)
    | inr p ↦
        let o : (l.link_type == transit_link) ≡ true = ground arith in
        (network l.link_id, rw (q, p, o) refl)
  ]
]

link_nodes_total :
    (ls : List RouterLsaLink) (m : Children)
    → All IsLink ls
    → All IsCheap m
    → (r : Children) × (link_nodes ls m ≡ some r) × All IsCheap r
unfolding link_nodes
link_nodes_total [] m h c = (m, refl, c)
link_nodes_total (l ∷ ls) m h c =
    let (n, e) = link_target_total l h.0 in
    let (r, q, x) =
      link_nodes_total ls (insert n l.metric m) h.1 (insert-All IsCheap n l.metric m h.0.1 c) in
    (r, rw e q, x)

attached_nodes-AllCheap :
    (as' : List Ipv4Addr) (m : Children) → All IsCheap m → All IsCheap (attached_nodes as' m)
unfolding attached_nodes
attached_nodes-AllCheap [] m h = h
attached_nodes-AllCheap (a ∷ as') m h =
    attached_nodes-AllCheap as' (insert (router a) 0 m)
      (insert-All IsCheap (router a) 0 m (omega arith) h)

pub lsa2nodes_total :
    (l : Lsa) → IsGraphLsa l → (cs : Children) × (lsa2nodes l ≡ some cs) × All IsCheap cs
unfolding lsa2nodes
lsa2nodes_total l h = by_body l.body h
  where
    by_body :
        (b : Packet.LsaData)
        → IsGraphLsa (record l { body = b })
        → (cs : Children) × (lsa2nodes (record l { body = b }) ≡ some cs) × All IsCheap cs
    by_body (Packet.router r) g = link_nodes_total r.links [] g tt
    by_body (Packet.network n) g = (
      attached_nodes n.attached_routers [],
      refl,
      attached_nodes-AllCheap n.attached_routers [] tt,
    )
    by_body (Packet.summary_ip s) g = elim g [ ]
    by_body (Packet.summary_asbr s) g = elim g [ ]
    by_body (Packet.as_external e) g = elim g [ ]

-- The first pass finds every LSA whose header it is given.
abbrev is_node_type : ℕ → Bool
is_node_type t = t == router_lsa || t == network_lsa

node_of-type : (h : LsaHeader) (k : NodeAddr) → node_of h ≡ some k → is_node_type h.ls_type ≡ true
unfolding node_of
node_of-type h k e = ground arith

get-IsFiled :
    (db : LsaDb) (k : LsaIndex) (e : Entry) → All IsFiled db → get k db ≡ some e → IsFiled (k, e)
get-IsFiled [] k e h q = absurd (cc)
get-IsFiled ((j, x) ∷ db) k e h q = elim (Bool-cases (index_beq j k)) [
  | inl b ↦
      let same : j ≡ k = (index_beq_iff j k).0 b in
      let here : x ≡ e = some-injective _ _ (rw b at q) in rw (← same, ← here) h.0
  | inr b ↦ get-IsFiled db k e h.1 (rw b at q)
]

In-get : (db : LsaDb) (p : LsaIndex × Entry) → In p db → (e : Entry) × (get p.0 db ≡ some e)
In-get [] p i = elim i [ ]
In-get ((j, x) ∷ db) p i = elim (Bool-cases (index_beq j p.0)) [
  | inl b ↦ (x, rw b refl)
  | inr b ↦ elim i [
    | inl q ↦
        let same : j ≡ p.0 = sym (ap (λ (y : LsaIndex × Entry). y.0) q) in
        absurd (cc ((index_beq_iff j p.0).1 same, b))
    | inr m ↦ let (e, g) = In-get db p m in (e, rw b g)
  ]
]

module _ (now : ℕ) (a : Area) (capable : a.external_routing_capability ≡ true)
    (filed : All IsFiled a.lsa_database) where
  abbrev pub IsFound : LsaHeader → Type 0
  IsFound h =
      (r : Lsa × ℕ × ℕ) × (m_get_lsa now a [] (index h) ≡ some r)
      × (is_node_type h.ls_type ≡ true → IsGraphLsa r.0)

  header-IsFound :
      (p : LsaIndex × Entry)
      → In p a.lsa_database
      → IsFiled p
      → IsFound (update_lsa_age_header now p.1.created p.1.lsa.header)
  unfolding m_get_lsa update_lsa_age_header
  header-IsFound p i (k, _) =
      let (e, g) = In-get a.lsa_database p i in
      let f = get-IsFiled a.lsa_database p.0 e filed g in
      let g' : get (index p.1.lsa.header) a.lsa_database ≡ some e = rw (← k) g in
      (
        (update_lsa_age now e.created e.lsa, e.created, e.updated),
        rw (capable, g') refl,
        λ t. f.1 (rw k t),
      )

  headers-IsFound :
      (es : LsaDb)
      → ((p : LsaIndex × Entry) → In p es → In p a.lsa_database)
      → All IsFiled es
      → All IsFound
          (map (λ (e : Entry). update_lsa_age_header now e.created e.lsa.header) (values es))
  headers-IsFound [] sub h = tt
  headers-IsFound (p ∷ es) sub h =
      (header-IsFound p (sub p (inl refl)) h.0, headers-IsFound es (λ q i. sub q (inr i)) h.1)

  pub live-IsFound : All IsFound (get_all_area_lsa now a)
  unfolding get_all_area_lsa live_headers
  live-IsFound = All-filter IsFound _ _ (headers-IsFound a.lsa_database (λ p i. i) filed)

  abbrev pub IsGraph : LsaMap → Type 0
  IsGraph m = All (λ p. IsGraphLsa p.1) m

  pub copy_lsas_total :
      (hs : List LsaHeader) (m : LsaMap)
      → All IsFound hs
      → IsGraph m
      → (r : LsaMap) × (copy_lsas now a hs m ≡ some r) × IsGraph r
  unfolding copy_lsas
  copy_lsas_total [] m f g = (m, refl, g)
  copy_lsas_total (h ∷ hs) m f g = elim (Bool-cases (h.ls_age == lsa_max_age)) [
    | inl q ↦ let (r, e, x) = copy_lsas_total hs m f.1 g in (r, rw q e, x)
    | inr q ↦ elim (Option-cases (node_of h)) [
      | inl n ↦ let (r, e, x) = copy_lsas_total hs m f.1 g in (r, rw (q, n) e, x)
      | inr (k, n) ↦
          let (l, e1, t) = f.0 in
          let body = t (node_of-type h k n) in
          let (r, e, x) =
            copy_lsas_total hs (insert k l.0 m) f.1
              (insert-All (λ p. IsGraphLsa p.1) k l.0 m body g) in
          (r, rw (q, n, e1) e, x)
    ]
  ]
