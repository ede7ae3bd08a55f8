-- ===== src/Flooding/Reliable.antt =====
-- The reliability of flooding: whom an LSA is owed to after `flooding_on`, and what is sent.
use rust_ospfd.Prelude.{
  ℕ, true, false, List, [], ◌∷◌, some, ◌≡◌, ◌≢◌, refl, ◌⊎◌, inl, inr, arith, contains,
  contains-insert_set, Bool-cases, Option-cases, Ordering,
}
use rust_ospfd.Packet.Lsa.{Ipv4Addr, LsaHeader, Lsa, index, index_eq}
use rust_ospfd.Packet.Order.{cmp}
use rust_ospfd.Neighbor.State.{Neighbor, exchange, ge_state}
use rust_ospfd.Flooding.{
  position, enlist, against_request, flood_neighbor, flood_neighbors, drop_request,
}

-- The neighbor has asked for the LSA, and what it asked for is no older: it has the LSA, or will get
-- something newer.
abbrev pub HasNewer : Lsa → Neighbor → Type 0
HasNewer l n =
    (r : ℕ × LsaHeader) × (position (index l.header) n.ls_request_list ≡ some r)
    × (cmp l.header r.1 ≢ Ordering.gt)

-- What flooding owes to a neighbor: nothing below `Exchange`, where the neighbor stays as it is;
-- otherwise the LSA is on the retransmission list, unless the neighbor sent it or needs it no more.
abbrev pub Served : Ipv4Addr → Lsa → Neighbor → Neighbor → Type 0
Served src l n n' =
    ((ge_state n.state exchange ≡ false) × (n' ≡ n))
    ⊎ ((ge_state n.state exchange ≡ true)
        × ((contains n'.ls_retransmission_list (index l.header) ≡ true)
            ⊎ ((src ≡ n.ip_addr) ⊎ HasNewer l n)))

enlist-listed :
    (src : Ipv4Addr) (l : Lsa) (n : Neighbor)
    → (contains (enlist src l n).0.ls_retransmission_list (index l.header) ≡ true)
      ⊎ (src ≡ n.ip_addr)
unfolding enlist
enlist-listed src l n =
    ground (arith, contains-insert_set (index l.header) n.ls_retransmission_list)

enlist-kept :
    (src : Ipv4Addr) (l : Lsa) (i : ℕ) (n : Neighbor)
    → (contains (enlist src l (drop_request i n)).0.ls_retransmission_list (index l.header) ≡ true)
      ⊎ (src ≡ n.ip_addr)
enlist-kept src l i n = enlist-listed src l (drop_request i n)

against_request-listed :
    (src : Ipv4Addr) (l : Lsa) (n : Neighbor) (r : ℕ × LsaHeader)
    → (contains (against_request src l n r).0.ls_retransmission_list (index l.header) ≡ true)
      ⊎ ((src ≡ n.ip_addr) ⊎ (cmp l.header r.1 ≢ Ordering.gt))
unfolding against_request
against_request-listed src l n (i, h) = by_order (cmp l.header h) refl
  where
    by_order :
        (o : Ordering)
        → cmp l.header h ≡ o
        → (contains (against_request src l n (i, h)).0.ls_retransmission_list (index l.header)
            ≡ true)
          ⊎ ((src ≡ n.ip_addr) ⊎ (cmp l.header h ≢ Ordering.gt))
    by_order Ordering.lt e = inr (inr (λ q. cc))
    by_order Ordering.eq e = inr (inr (λ q. cc))
    by_order Ordering.gt e = elim (enlist-kept src l i n) [
      | inl q ↦ inl (rw (e, against_request) q)
      | inr q ↦ inr (inl q)
    ]

by_position :
    (src : Ipv4Addr) (l : Lsa) (n : Neighbor)
    → ge_state n.state exchange ≡ true
    → (contains (flood_neighbor src l n).0.ls_retransmission_list (index l.header) ≡ true)
      ⊎ ((src ≡ n.ip_addr) ⊎ HasNewer l n)
unfolding flood_neighbor
by_position src l n e = elim (Option-cases (position (index l.header) n.ls_request_list)) [
  | inl q ↦ elim (enlist-listed src l n) [ inl p ↦ inl (rw (e, q) p) | inr p ↦ inr (inl p) ]
  | inr (r, q) ↦ elim (against_request-listed src l n r) [
    | inl p ↦ inl (rw (e, q) p)
    | inr (inl p) ↦ inr (inl p)
    | inr (inr p) ↦ inr (inr (r, q, p))
  ]
]

flood_neighbor-Served :
    (src : Ipv4Addr) (l : Lsa) (n : Neighbor) → Served src l n (flood_neighbor src l n).0
unfolding flood_neighbor
flood_neighbor-Served src l n = elim (Bool-cases (ge_state n.state exchange)) [
  | inl e ↦ inr (e, by_position src l n e)
  | inr e ↦ inl (e, rw e)
]

-- Two lists of neighbors, item by item under the same keys.
abbrev pub Pairwise :
    (Neighbor → Neighbor → Type 0)
    → List (Ipv4Addr × Neighbor)
    → List (Ipv4Addr × Neighbor)
    → Type 0
Pairwise P [] [] = Unit
Pairwise P ((k, n) ∷ m) ((j, n') ∷ m') = (k ≡ j) × P n n' × Pairwise P m m'
Pairwise P _ _ = ⊥

-- The loop of `flooding_on` keeps the keys of the neighbors in their order. It leaves a neighbor
-- below Exchange as it was. For any other neighbor, the LSA is on its retransmission list
-- afterwards, or came from it, or is no newer than what was found in its request list.
pub flood_neighbors-Served :
    (src : Ipv4Addr) (l : Lsa) (m : List (Ipv4Addr × Neighbor))
    → Pairwise (Served src l) m (flood_neighbors src l m).0
unfolding flood_neighbors
flood_neighbors-Served src l [] = tt
flood_neighbors-Served src l ((k, n) ∷ m) =
    (refl, flood_neighbor-Served src l n, flood_neighbors-Served src l m)
