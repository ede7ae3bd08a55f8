-- ===== src/Handler/Dd/Roles.antt =====
-- Who becomes master, and what the description packets carry.
use rust_ospfd.Prelude.{
  ℕ, true, false, List, [], ◌∷◌, ◌++◌, some, ◌≡◌, refl, ◌⊎◌, arith, ◌<◌, ◌≤◌, ◌+◌, take-append-drop,
  length-take_le, length, min,
}
use rust_ospfd.Packet.Lsa.{LsaHeader}
use rust_ospfd.Packet.Types.{DbDescription}
use rust_ospfd.Neighbor.State.{Neighbor, DdPacketCache, DdRxmt, packet, handle, exchange, ex_start}
use rust_ospfd.Neighbor.Event.{Env, negotiation_done, exchange_done, spawn_master_send_dd}
use rust_ospfd.Handler.Dd.{accepted, negotiate, answer_slave}

empty_of_length {ℓ} : {A : Type ℓ} (xs : List A) → length xs ≡ 0 → xs ≡ []
empty_of_length [] e = refl
empty_of_length (x ∷ xs) e = absurd (omega arith)

-- In ExStart, a description packet that is accepted brings the neighbor to Exchange, and the router
-- with the greater identifier is the master: either the neighbor, whose sequence number is taken
-- over, or this router, whose own number the packet confirms.
pub negotiate-roles :
    (env : Env) (hs : List LsaHeader) (p : DbDescription) (n : Neighbor) {m : Neighbor}
    → n.state ≡ ex_start
    → negotiate env hs p n ≡ accepted m
    → (m.state ≡ exchange)
      × (((m.master ≡ true) × (env.router_id < n.router_id) × (m.dd_seq_num ≡ p.db_sequence_number))
          ⊎ ((m.master ≡ false)
              × (n.router_id < env.router_id)
              × (m.dd_seq_num ≡ n.dd_seq_num)
              × (p.db_sequence_number ≡ n.dd_seq_num)))
unfolding negotiate negotiation_done
negotiate-roles env hs p n e q = ground arith

-- The headers of the packet that a neighbor's task or cache holds.
abbrev pub held : DdRxmt → List LsaHeader
held (handle p) = p.lsa_header
held (packet p) = p.lsa_header
held DdRxmt.nothing = []

-- If the next packet to a slave is made without an overflow, the sequence number is the previous
-- one plus one; and either the packet has at most twelve headers, which with those left in the
-- summary list are the summary list in its order, or the slave has no more and the summary list is
-- empty.
pub answer_slave-headers :
    (c : DdPacketCache) (s : ℕ) (n : Neighbor) {m : Neighbor}
    → answer_slave c s n ≡ some m
    → (m.dd_seq_num ≡ s + 1)
      × (((held m.dd_rxmt ++ m.db_summary_list ≡ n.db_summary_list)
            × (length (held m.dd_rxmt) ≤ 12))
          ⊎ ((c.more_bit ≡ false) × (n.db_summary_list ≡ [])))
unfolding answer_slave spawn_master_send_dd exchange_done
answer_slave-headers c s n e = ground (
  arith,
  take-append-drop (min (length n.db_summary_list) 12) n.db_summary_list,
  length-take_le (min (length n.db_summary_list) 12) n.db_summary_list,
  empty_of_length n.db_summary_list,
)
