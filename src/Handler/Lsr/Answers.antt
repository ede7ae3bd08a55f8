-- ===== src/Handler/Lsr/Answers.antt =====
-- What comes of a link state request.
use rust_ospfd.Area.Lsdb
use rust_ospfd.Area.Lsdb.{Area}
use rust_ospfd.Sender.Total.{SendsWhole, send_packet_total}
use rust_ospfd.Prelude.{
  refl, Bool-cases, ℕ, true, ◌∷◌, Option, some, none, ◌≡◌, ◌⊎◌, inl, inr, arith, get, nat_eq,
  Option-cases, ap, sym, ◌∙◌,
}
use rust_ospfd.Packet.Lsa.{Ipv4Addr, Lsa}
use rust_ospfd.Packet.Types.{LsRequest}
use rust_ospfd.Neighbor.State.{Neighbor, exchange, ge_state}
use rust_ospfd.Neighbor.Event.{Env, restart_exchange}
use rust_ospfd.Interface.State.{Interface}
use rust_ospfd.Interface.Event.{on_neighbor}
use rust_ospfd.Database
use rust_ospfd.Sender.{World, create_packet, send_packet}
use rust_ospfd.Flooding.{update_of}
use rust_ospfd.Flooding.Sends.{send_packet-out}
use rust_ospfd.Handler.Lsr.{handle, answer, request_index}

-- The two ends of a request to a neighbor in `Exchange` or beyond: the LSA is not known, and the
-- exchange starts again with nothing sent; or it is sent to the neighbor, alone, as the database
-- gives it, and the interface stays as it is.
abbrev pub Answered :
    Env → Ipv4Addr → LsRequest → Interface → Neighbor → World → Interface → World → Type 0
Answered env ip p i n w i' w' =
    ((Database.get_lsa env.now w.db i.area_id (request_index p) ≡ some none)
      × (i' ≡ on_neighbor ip (restart_exchange env) i)
      × (w' ≡ w))
    ⊎ ((r : Lsa × ℕ × ℕ) × (Database.get_lsa env.now w.db i.area_id (request_index p)
          ≡ some (some r))
        × (i' ≡ i)
        × (w'.out ≡ create_packet env i (update_of r.0) n.ip_addr ∷ w.out))

answer-Answered :
    (env : Env) (ip : Ipv4Addr) (p : LsRequest) (i : Interface) (n : Neighbor) (w : World)
    (found : Option (Lsa × ℕ × ℕ)) {i' : Interface} {w' : World}
    → Database.get_lsa env.now w.db i.area_id (request_index p) ≡ some found
    → answer env ip n i w found ≡ some (i', w')
    → Answered env ip p i n w i' w'
unfolding answer
answer-Answered env ip p i n w none {i'} {w'} d e = inl (d, ground arith, ground arith)
answer-Answered env ip p i n w (some r) {i'} {w'} d e =
    elim (Option-cases (send_packet env i (update_of r.0) n.ip_addr w)) [
      | inl q ↦ absurd (cc (rw q at e))
      | inr (w1, q) ↦
          let s : ◌≡◌ {A = Option (Interface × World)} (some (i, w1)) (some (i', w')) = rw q at e in
          let same : w1 ≡ w' = cc in
          inr (
            r,
            d,
            cc,
            ap (λ (v : World). v.out) (sym same)
                ∙ send_packet-out env i (update_of r.0) n.ip_addr w q,
          )
    ]

-- A request from a known neighbor in Exchange or beyond that is handled without a panic has one of
-- two ends. The LSA is not found, the exchange with the neighbor starts again and nothing else
-- changes; or the LSA is sent to the neighbor in one packet, aged as the database gives it, and the
-- interface stays as it is.
pub handle-Answered :
    (env : Env) (ip : Ipv4Addr) (p : LsRequest) (i : Interface) (n : Neighbor) (w : World)
    {i' : Interface} {w' : World}
    → get ip i.neighbors ≡ some n
    → ge_state n.state exchange ≡ true
    → handle env ip p i w ≡ some (i', w')
    → Answered env ip p i n w i' w'
unfolding handle
handle-Answered env ip p i n w {i'} {w'} g s e =
    elim (Option-cases (Database.get_lsa env.now w.db i.area_id (request_index p))) [
      | inl q ↦ absurd (cc (rw (g, s, q) at e))
      | inr (found, q) ↦
          answer-Answered env ip p i n w found {i' = i'} {w' = w'} q (rw (g, s, q) at e)
    ]

-- A request from a known neighbor is handled without a panic if the interface's area is in the
-- database and the device sends the next packet whole.
pub handle_total :
    (env : Env) (ip : Ipv4Addr) (p : LsRequest) (i : Interface) (w : World) {n : Neighbor}
    {a : Area}
    → get ip i.neighbors ≡ some n
    → get i.area_id w.db.areas ≡ some a
    → SendsWhole w
    → (r : Interface × World) × (handle env ip p i w ≡ some r)
unfolding handle Database.get_lsa answer
handle_total env ip p i w {n} {a} g e up = elim (Bool-cases (ge_state n.state exchange)) [
  | inr q ↦ ((i, w), rw (g, q) refl)
  | inl q ↦ elim (Option-cases (Lsdb.m_get_lsa env.now a w.db.external (request_index p))) [
    | inl f ↦ ((on_neighbor ip (restart_exchange env) i, w), rw (g, q, e, f) refl)
    | inr (x, f) ↦
        let s = send_packet_total env i (update_of x.0) n.ip_addr w {a = a} e up in
        ((i, s.0), rw (g, q, e, f, s.1) refl)
  ]
]
