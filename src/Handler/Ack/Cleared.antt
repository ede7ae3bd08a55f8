-- ===== src/Handler/Ack/Cleared.antt =====
-- What an acknowledgement clears.
use rust_ospfd.Prelude.{
  Bool, true, false, List, [], ◌∷◌, ◌≡◌, refl, if◌then◌else◌, any, contains, contains-remove_set,
  remove_set, Bool-cases, inl, inr, ◌⊎◌, ◌∙◌,
}
use rust_ospfd.Packet.Lsa.{LsaHeader, LsaIndex, index, index_eq, index_beq}
use rust_ospfd.Packet.Types.{LsAcknowledge}
use rust_ospfd.Neighbor.State.{Neighbor, exchange, ge_state}
use rust_ospfd.Handler.Ack.{acknowledge, ack_neighbor}

-- Whether a packet acknowledges the LSA of a key.
abbrev pub acknowledged : List LsaHeader → LsaIndex → Bool
acknowledged hs k = any (λ h. index_beq (index h) k) hs

contains-acknowledge :
    (hs : List LsaHeader) (xs : List LsaIndex) (k : LsaIndex)
    → contains (acknowledge hs xs) k ≡ (if acknowledged hs k then false else contains xs k)
unfolding acknowledge
contains-acknowledge [] xs k = refl
contains-acknowledge (h ∷ hs) xs k =
    let ih = contains-acknowledge hs (remove_set (index h) xs) k in
    let r = contains-remove_set (index h) k xs in
    elim (Bool-cases (index_beq (index h) k)) [
      | inl p ↦ elim (Bool-cases (acknowledged hs k)) [
        | inl q ↦ rw p (ih ∙ rw q)
        | inr q ↦ rw p (ih ∙ rw (q, r, p))
      ]
      | inr p ↦ elim (Bool-cases (acknowledged hs k)) [
        | inl q ↦ rw (p, q) (ih ∙ rw q)
        | inr q ↦ rw (p, q) (ih ∙ rw (q, r, p))
      ]
    ]

-- For each key: after an acknowledgement, a neighbor in Exchange or beyond has on its
-- retransmission list exactly what it had before and the packet does not name; any other neighbor
-- is left as it is.
pub ack_neighbor-clears :
    (p : LsAcknowledge) (n : Neighbor) (k : LsaIndex)
    → ((ge_state n.state exchange ≡ true)
        × (contains (ack_neighbor p n).ls_retransmission_list k
            ≡ (if acknowledged p.lsa_header k then false else contains n.ls_retransmission_list k)))
      ⊎ ((ge_state n.state exchange ≡ false) × (ack_neighbor p n ≡ n))
unfolding ack_neighbor
ack_neighbor-clears p n k = elim (Bool-cases (ge_state n.state exchange)) [
  | inl e ↦ inl (e, rw e (contains-acknowledge p.lsa_header n.ls_retransmission_list k))
  | inr e ↦ inr (e, rw e)
]
