-- ===== src/Flooding/Sends.antt =====
-- What `flooding_on` sends.
use rust_ospfd.Prelude.{
  ℕ, Bool, true, false, ◌∷◌, Option, some, ◌≡◌, ◌⊎◌, inl, inr, arith, Bool-cases, Option-cases, min,
  ◌+◌, ◌∙◌, ap, sym,
}
use rust_ospfd.Packet.Lsa.{Ipv4Addr, Lsa, lsa_max_age}
use rust_ospfd.Packet.Types.{SubPacket}
use rust_ospfd.Neighbor.Event.{Env}
use rust_ospfd.Interface.State.{Interface}
use rust_ospfd.Sender.{World, create_packet, send_packet, transmit, mark_sent, carried}
use rust_ospfd.Flooding.{
  flood_neighbors, served_already, aged_copy, send_copy, flooding_on, update_of, flood_dest,
}

pub send_packet-out :
    (env : Env) (i : Interface) (p : SubPacket) (d : Ipv4Addr) (w : World) {w' : World}
    → send_packet env i p d w ≡ some w'
    → w'.out ≡ create_packet env i p d ∷ w.out
unfolding send_packet
send_packet-out env i p d w e = elim (Option-cases (transmit (create_packet env i p d) w)) [
  | inl t ↦ absurd (cc (rw t at e))
  | inr (_, t) ↦ elim (Option-cases (mark_sent env.now w.db i.area_id (carried p))) [
    | inl q ↦ absurd (cc (rw (t, q) at e))
    | inr (db, q) ↦ ground (arith, t, q)
  ]
]

-- The copy of an LSA that leaves an interface: older by the transmission delay, up to `LsaMaxAge`.
abbrev pub IsCopy : ℕ → Lsa → Lsa → Type 0
IsCopy delay l copy =
    (copy.header.ls_age ≡ min (l.header.ls_age + delay) lsa_max_age)
    × (copy.body ≡ l.body)
    × (copy.header ≡ record l.header { ls_age = copy.header.ls_age })

aged_copy-IsCopy :
    (delay : ℕ) (l : Lsa) {copy : Lsa} → aged_copy delay l ≡ some copy → IsCopy delay l copy
unfolding aged_copy
aged_copy-IsCopy delay l e = ground arith

-- One packet with one copy, to the address of the interface's role; or none.
abbrev pub Sends : Env → Lsa → Interface → World → World → Bool → Type 0
Sends env l i w w' b =
    ((b ≡ false) × (w' ≡ w))
    ⊎ ((b ≡ true)
        × ((copy : Lsa) × IsCopy i.inf_trans_delay l copy
            × (w'.out ≡ create_packet env i (update_of copy) (flood_dest i) ∷ w.out)))

send_copy-Sends :
    (env : Env) (i : Interface) (l : Lsa) (w : World) {i' : Interface} {w' : World} {b : Bool}
    → send_copy env i l w ≡ some (i', w', b)
    → (i' ≡ i) × Sends env l i w w' b
unfolding send_copy
send_copy-Sends env i l w {i'} {w'} {b} e = elim (Option-cases (aged_copy i.inf_trans_delay l)) [
  | inl q ↦ absurd (cc (rw q at e))
  | inr (copy, q) ↦ elim (Option-cases (send_packet env i (update_of copy) (flood_dest i) w)) [
    | inl r ↦ absurd (cc (rw (q, r) at e))
    | inr (w1, r) ↦
        let s : ◌≡◌ {A = Option (Interface × World × Bool)} (some (i, w1, true))
            (some (i', w', b)) =
          rw (q, r) at e in
        let same : w1 ≡ w' = cc in
        (
          cc,
          inr (
            cc,
            (
              copy,
              aged_copy-IsCopy i.inf_trans_delay l q,
              ap (λ (v : World). v.out) (sym same) ∙ send_packet-out env i _ _ w r,
            ),
          ),
        )
  ]
]

quiet :
    (env : Env) (l : Lsa) (i i' i1 : Interface) (w w' : World) (b : Bool)
    → ◌≡◌ {A = Option (Interface × World × Bool)} (some (i, w, false)) (some (i', w', b))
    → (i' ≡ i) × Sends env l i1 w w' b
quiet env l i i' i1 w w' b e = (cc, inl (cc, cc))

-- Whenever the flooding of an LSA on an interface does not panic, the interface is left as it was
-- but for its neighbors, which are those of the loop; and either nothing is sent, the world stays
-- and the answer is false, or the answer is true and exactly one packet is sent, to the address of
-- the interface's role, with a copy of the LSA that differs in the age only: older by the
-- transmission delay, up to LsaMaxAge.
pub flooding_on-Sends :
    (env : Env) (me src : Ipv4Addr) (l : Lsa) (i : Interface) (w : World) {i' : Interface}
    {w' : World} {b : Bool}
    → flooding_on env me src l i w ≡ some (i', w', b)
    → (i' ≡ record i { neighbors = (flood_neighbors src l i.neighbors).0 }) × Sends env l i w w' b
unfolding flooding_on create_packet
flooding_on-Sends env me src l i w {i'} {w'} {b} e =
    let j : Interface = record i { neighbors = (flood_neighbors src l i.neighbors).0 } in
    elim (Bool-cases (flood_neighbors src l i.neighbors).1) [
      | inr q ↦ quiet env l j i' i w w' b (rw q at e)
      | inl q ↦ elim (Option-cases (served_already me src j)) [
        | inl r ↦ absurd (cc (rw (q, r) at e))
        | inr (true, r) ↦ quiet env l j i' i w w' b (rw (q, r) at e)
        | inr (false, r) ↦ send_copy-Sends env j l w (rw (q, r) at e)
      ]
    ]
