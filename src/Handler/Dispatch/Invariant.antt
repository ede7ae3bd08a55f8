-- ===== src/Handler/Dispatch/Invariant.antt =====
-- Every packet (ospfd/handler/mod.rs) keeps the interfaces valid.
use mathlib.Core.Option.{some-injective}
use rust_ospfd.Prelude.{
  ℕ, List, [], ◌∷◌, Option, some, none, ◌≡◌, inl, inr, get, insert, nat_eq, Bool-cases,
  Option-cases, ◌==◌, leb→le,
}
use rust_ospfd.Packet.Lsa.{Ipv4Addr, Lsa}
use rust_ospfd.Packet.Types.{SubPacket, lsu, DbDescription, LsRequest, LsAcknowledge}
use rust_ospfd.Neighbor.State.{Neighbor, new_neighbor, ge_state, exchange, rank}
use rust_ospfd.Neighbor.Invariant as Nbr
use rust_ospfd.Neighbor.Event.{Env, restart_exchange}
use rust_ospfd.Interface.State.{Interface}
use rust_ospfd.Interface.Invariant.{IsValid, AllValid, on_neighbor-IsValid}
use rust_ospfd.Area.Lsdb.{is_some}
use rust_ospfd.Database
use rust_ospfd.Sender.{World, send_packet}
use rust_ospfd.Flooding.Invariant.{with_neighbors-IsValid, beyond-IsValid}
use rust_ospfd.Handler.Dd as Dd
use rust_ospfd.Handler.Dd.Invariant.{handle_neighbor-IsValid}
use rust_ospfd.Handler.Lsr as Lsr
use rust_ospfd.Handler.Ack as Ack
use rust_ospfd.Handler.Dispatch.{insert_neighbor}

insert-AllValid :
    (ip : Ipv4Addr) (n : Neighbor) (m : List (Ipv4Addr × Neighbor))
    → Nbr.IsValid n
    → AllValid m
    → AllValid (insert ip n m)
insert-AllValid ip n [] v h = (v, tt)
insert-AllValid ip n ((j, x) ∷ m) v h = elim (Bool-cases (j == ip)) [
  | inl e ↦ rw e (v, h.1)
  | inr e ↦ rw e (h.0, insert-AllValid ip n m v h.1)
]

get-AllValid :
    (ip : Ipv4Addr) (m : List (Ipv4Addr × Neighbor)) {n : Neighbor}
    → AllValid m
    → get ip m ≡ some n
    → Nbr.IsValid n
get-AllValid ip [] h e = absurd (cc)
get-AllValid ip ((j, x) ∷ m) {n} h e = elim (Bool-cases (j == ip)) [
  | inl q ↦ let same : x ≡ n = some-injective _ _ (rw q at e) in rw (← same) h.0
  | inr q ↦ get-AllValid ip m {n = n} h.1 (rw q at e)
]

pub insert_neighbor-IsValid :
    (ip id : Ipv4Addr) (i : Interface) → IsValid i → IsValid (insert_neighbor ip id i)
unfolding insert_neighbor
insert_neighbor-IsValid ip id i v = elim (Bool-cases (is_some (get ip i.neighbors))) [
  | inl b ↦ rw (insert_neighbor, b) v
  | inr b ↦
      rw (insert_neighbor, b)
        (with_neighbors-IsValid i _ v (
          insert-AllValid ip (new_neighbor id ip) i.neighbors (Nbr.new_neighbor-IsValid id ip)
            v.neighbors_valid))
]

pub dd-IsValid :
    (env : Env) (ip : Ipv4Addr) (p : DbDescription) (i : Interface) (w : World)
    {r : Interface × World}
    → IsValid i
    → Dd.handle env ip p i w ≡ some r
    → IsValid r.0
unfolding Dd.handle
dd-IsValid env ip p i w {r} v e = elim (Option-cases (get ip i.neighbors)) [
  | inl n ↦ absurd (cc (rw (Dd.handle, n) at e))
  | inr (n, g) ↦ elim (Option-cases (Dd.handle_neighbor env p i n w)) [
    | inl f ↦ absurd (cc (rw (Dd.handle, g, f) at e))
    | inr ((m, w'), f) ↦
        let valid =
          handle_neighbor-IsValid env p i n w {m = m} {w' = w'}
            (get-AllValid ip i.neighbors {n = n} v.neighbors_valid g) f in
        rw (← some-injective _ _ (rw (Dd.handle, g, f) at e))
          (on_neighbor-IsValid ip (λ _. m) i (λ _ _. valid) v)
  ]
]

answer-IsValid :
    (env : Env) (ip : Ipv4Addr) (n : Neighbor) (i : Interface) (w : World)
    (found : Option (Lsa × ℕ × ℕ)) {r : Interface × World}
    → IsValid i
    → Lsr.answer env ip n i w found ≡ some r
    → IsValid r.0
unfolding Lsr.answer
answer-IsValid env ip n i w none {r} v e = rw (← some-injective _ _ e) (
    on_neighbor-IsValid ip (restart_exchange env) i (λ m. Nbr.restart_exchange-IsValid env {n = m})
      v)
answer-IsValid env ip n i w (some x) {r} v e =
    let packet : SubPacket = lsu (record { num_lsa = 1; lsa = x.0 ∷ [] }) in
    elim (Option-cases (send_packet env i packet n.ip_addr w)) [
      | inl s ↦ absurd (cc (rw s at e))
      | inr (w', s) ↦ rw (← some-injective _ _ (rw s at e)) v
    ]

pub lsr-IsValid :
    (env : Env) (ip : Ipv4Addr) (p : LsRequest) (i : Interface) (w : World) {r : Interface × World}
    → IsValid i
    → Lsr.handle env ip p i w ≡ some r
    → IsValid r.0
unfolding Lsr.handle
lsr-IsValid env ip p i w {r} v e = elim (Option-cases (get ip i.neighbors)) [
  | inl n ↦ absurd (cc (rw (Lsr.handle, n) at e))
  | inr (n, g) ↦ elim (Bool-cases (ge_state n.state exchange)) [
    | inr b ↦ rw (← some-injective _ _ (rw (Lsr.handle, g, b) at e)) v
    | inl b ↦ elim (Option-cases (Database.get_lsa env.now w.db i.area_id (Lsr.request_index p))) [
      | inl f ↦ absurd (cc (rw (Lsr.handle, g, b, f) at e))
      | inr (found, f) ↦ answer-IsValid env ip n i w found {r = r} v (rw (Lsr.handle, g, b, f) at e)
    ]
  ]
]

ack_neighbor-IsValid :
    (p : LsAcknowledge) (n : Neighbor) → Nbr.IsValid n → Nbr.IsValid (Ack.ack_neighbor p n)
unfolding Ack.ack_neighbor
ack_neighbor-IsValid p n v = elim (Bool-cases (ge_state n.state exchange)) [
  | inl b ↦ rw b (beyond-IsValid _ (leb→le 5 (rank n.state) b) v.synced)
  | inr b ↦ rw b v
]

pub ack-IsValid :
    (ip : Ipv4Addr) (p : LsAcknowledge) (i : Interface) → IsValid i → IsValid (Ack.handle ip p i)
unfolding Ack.handle
ack-IsValid ip p i v = on_neighbor-IsValid ip (Ack.ack_neighbor p) i (ack_neighbor-IsValid p) v
