-- ===== src/Flooding/Invariant.antt =====
-- Flooding (ospfd/flooding.rs) and the LSAs of ospfd/gen_lsa.rs keep the interfaces valid.
use mathlib.Core.Option.{some-injective}
use rust_ospfd.Prelude.{
  ℕ, Bool, List, [], ◌∷◌, some, ◌≡◌, refl, ap, ◌∙◌, inl, inr, arith, ◌≤◌, All, Bool-cases,
  Option-cases, ◌==◌, Ordering, zero, suc, leb→le,
}
use rust_ospfd.Packet.Lsa.{Ipv4Addr, LsaHeader, Lsa, index}
use rust_ospfd.Packet.Order.{cmp}
use rust_ospfd.Neighbor.State.{Neighbor, rank, full, exchange, ge_state}
use rust_ospfd.Neighbor.Invariant as Nbr
use rust_ospfd.Neighbor.Event.{Env}
use rust_ospfd.Interface.State.{Interface}
use rust_ospfd.Interface.Invariant.{IsValid, AllValid}
use rust_ospfd.Sender.{World}
use rust_ospfd.Flooding.Sends.{flooding_on-Sends}
use rust_ospfd.Flooding.{
  Interfaces, swap_remove_back, position, drop_request, enlist, against_request, flood_neighbor,
  flood_neighbors, flooding_on, is_eligible, flood_interface, flood_interfaces, flooding,
}

-- A neighbor in Exchange or beyond.
pub beyond-IsValid :
    (n : Neighbor) → 5 ≤ rank n.state → (n.state ≡ full → n.ls_request_list ≡ []) → Nbr.IsValid n
beyond-IsValid n h s = record {
  quiet = λ le. absurd (omega arith);
  no_retransmission = λ le. absurd (omega arith);
  no_summary = λ le. absurd (omega arith);
  no_request = λ le. absurd (omega arith);
  synced = s;
}

swap_remove_back-nil : (i : ℕ) → swap_remove_back {A = LsaHeader} i [] ≡ []
swap_remove_back-nil zero = refl
swap_remove_back-nil (suc i) = refl

drop_request-IsValid :
    (i : ℕ) (n : Neighbor) → 5 ≤ rank n.state → Nbr.IsValid n → Nbr.IsValid (drop_request i n)
drop_request-IsValid i n h v =
    beyond-IsValid (drop_request i n) h
      (λ q. ap (swap_remove_back i) (v.synced q) ∙ swap_remove_back-nil i)

enlist-IsValid :
    (src : Ipv4Addr) (l : Lsa) (n : Neighbor)
    → 5 ≤ rank n.state
    → Nbr.IsValid n
    → Nbr.IsValid (enlist src l n).0
unfolding enlist
enlist-IsValid src l n h v = elim (Bool-cases (src == n.ip_addr)) [
  | inl e ↦ rw e v
  | inr e ↦ rw e (beyond-IsValid _ h v.synced)
]

against_request-IsValid :
    (src : Ipv4Addr) (l : Lsa) (n : Neighbor) (i : ℕ) (r : LsaHeader)
    → 5 ≤ rank n.state
    → Nbr.IsValid n
    → Nbr.IsValid (against_request src l n (i, r)).0
unfolding against_request
against_request-IsValid src l n i r h v = by_order (cmp l.header r) refl
  where
    by_order : (o : Ordering) → cmp l.header r ≡ o → Nbr.IsValid (against_request src l n (i, r)).0
    by_order Ordering.lt e = rw (e, against_request) v
    by_order Ordering.eq e = rw (e, against_request) (drop_request-IsValid i n h v)
    by_order Ordering.gt e =
        rw (e, against_request)
          (enlist-IsValid src l (drop_request i n) h (drop_request-IsValid i n h v))

flood_neighbor-IsValid :
    (src : Ipv4Addr) (l : Lsa) (n : Neighbor)
    → Nbr.IsValid n
    → Nbr.IsValid (flood_neighbor src l n).0
unfolding flood_neighbor
flood_neighbor-IsValid src l n v = elim (Bool-cases (ge_state n.state exchange)) [
  | inr b ↦ rw b v
  | inl b ↦
      let h : 5 ≤ rank n.state = leb→le 5 (rank n.state) b in
      elim (Option-cases (position (index l.header) n.ls_request_list)) [
        | inl p ↦ rw (b, flood_neighbor, p) (enlist-IsValid src l n h v)
        | inr ((i, r), p) ↦ rw (b, flood_neighbor, p) (against_request-IsValid src l n i r h v)
      ]
]

flood_neighbors-AllValid :
    (src : Ipv4Addr) (l : Lsa) (m : List (Ipv4Addr × Neighbor))
    → AllValid m
    → AllValid (flood_neighbors src l m).0
unfolding flood_neighbors
flood_neighbors-AllValid src l [] h = tt
flood_neighbors-AllValid src l ((k, n) ∷ m) h =
    (flood_neighbor-IsValid src l n h.0, flood_neighbors-AllValid src l m h.1)

-- An interface with other neighbors.
pub with_neighbors-IsValid :
    (i : Interface) (m : List (Ipv4Addr × Neighbor))
    → IsValid i
    → AllValid m
    → IsValid (record i { neighbors = m })
with_neighbors-IsValid i m v h = record {
  addressed = v.addressed;
  vacant = v.vacant;
  elected = v.elected;
  neighbors_valid = h;
}

flooding_on-IsValid :
    (env : Env) (me src : Ipv4Addr) (l : Lsa) (i : Interface) (w : World)
    {r : Interface × World × Bool}
    → IsValid i
    → flooding_on env me src l i w ≡ some r
    → IsValid r.0
flooding_on-IsValid env me src l i w {r} v e =
    let same = (flooding_on-Sends env me src l i w {i' = r.0} {w' = r.1} {b = r.2} e).0 in
    rw same
      (with_neighbors-IsValid i _ v (flood_neighbors-AllValid src l i.neighbors v.neighbors_valid))

flood_interface-IsValid :
    (env : Env) (area me src : Ipv4Addr) (l : Lsa) (i : Interface) (w : World)
    {r : Interface × World × Bool}
    → IsValid i
    → flood_interface env area me src l i w ≡ some r
    → IsValid r.0
unfolding flood_interface
flood_interface-IsValid env area me src l i w {r} v e = elim (Bool-cases (is_eligible area l i)) [
  | inl b ↦ flooding_on-IsValid env me src l i w {r = r} v (rw b at e)
  | inr b ↦ rw (← some-injective _ _ (rw b at e)) v
]

flood_interfaces-AllValid :
    (env : Env) (area me src : Ipv4Addr) (l : Lsa) (is : List Interface) (w : World)
    {r : List Interface × World × Bool}
    → All IsValid is
    → flood_interfaces env area me src l is w ≡ some r
    → All IsValid r.0
unfolding flood_interfaces
flood_interfaces-AllValid env area me src l [] w {r} h e = rw (← some-injective _ _ e) tt
flood_interfaces-AllValid env area me src l (i ∷ is) w {r} h e =
    elim (Option-cases (flood_interface env area me src l i w)) [
      | inl n ↦ absurd (cc (rw (flood_interfaces, n) at e))
      | inr ((j, w1, b), n) ↦ elim (Option-cases (flood_interfaces env area me src l is w1)) [
        | inl m ↦ absurd (cc (rw (flood_interfaces, n, m) at e))
        | inr ((js, w2, c), m) ↦ rw (← some-injective _ _ (rw (flood_interfaces, n, m) at e)) (
          flood_interface-IsValid env area me src l i w {r = (j, w1, b)} h.0 n,
          flood_interfaces-AllValid env area me src l is w1 {r = (js, w2, c)} h.1 m,
        )
      ]
    ]

-- Every interface is valid.
abbrev pub AreValid : Interfaces → Type 0
AreValid s = IsValid s.me × All IsValid s.other

pub flooding-AreValid :
    (env : Env) (src : Ipv4Addr) (l : Lsa) (s : Interfaces) (w : World)
    {r : Interfaces × World × Bool}
    → AreValid s
    → flooding env src l s w ≡ some r
    → AreValid r.0
unfolding flooding
flooding-AreValid env src l s w {r} h e =
    elim (Option-cases (flood_interface env s.me.area_id s.me.ip_addr src l s.me w)) [
      | inl n ↦ absurd (cc (rw (flooding, n) at e))
      | inr ((j, w1, b), n) ↦
          elim (Option-cases (flood_interfaces env s.me.area_id s.me.ip_addr src l s.other w1)) [
            | inl m ↦ absurd (cc (rw (flooding, n, m) at e))
            | inr ((js, w2, c), m) ↦ rw (← some-injective _ _ (rw (flooding, n, m) at e)) (
              flood_interface-IsValid env s.me.area_id s.me.ip_addr src l s.me w {r = (j, w1, b)}
                  h.0 n,
              flood_interfaces-AllValid env s.me.area_id s.me.ip_addr src l s.other w1
                  {r = (js, w2, c)} h.1 m,
            )
          ]
    ]
