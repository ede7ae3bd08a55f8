-- ===== src/Neighbor/Invariant.antt =====
-- What holds of a neighbor between two events, and that the events of ospfd/neighbor/state.rs keep
-- it.
use rust_ospfd.Prelude.{ℕ, List, [], ◌∷◌, ◌≡◌, arith, ◌<◌, ◌≤◌}
use rust_ospfd.Packet.Lsa.{LsaHeader}
use rust_ospfd.Neighbor.State.{Neighbor, rank, full, nothing, no_task, new_neighbor}
use rust_ospfd.Neighbor.Event.{
  Env, hello_receive, two_way_received, negotiation_done, exchange_done, restart_exchange, adj_ok,
  lsr_round, lsr_recv_update,
}
use rust_ospfd.Interface.State.{Interface}

-- Below `ExStart` nothing is left of an exchange; in `ExStart` the three lists are empty; a full
-- neighbor is asked for nothing.
pub record IsValid (n : Neighbor) : Type 0 where
  pub quiet :
      rank n.state < 4 → (n.dd_seq_num ≡ 0) × (n.dd_rxmt ≡ nothing) × (n.lsr_handle ≡ no_task)
  pub no_retransmission : rank n.state ≤ 4 → n.ls_retransmission_list ≡ []
  pub no_summary : rank n.state ≤ 4 → n.db_summary_list ≡ []
  pub no_request : rank n.state ≤ 4 → n.ls_request_list ≡ []
  pub synced : n.state ≡ full → n.ls_request_list ≡ []

-- The events of `NeighborEvent` that change the neighbor alone. `loading_done` comes from the LSR
-- sender's task, whose round it ends.
pub data Event : Type 0 where
  hello : Event
  two_way_seen : Event
  negotiated : List LsaHeader → Event
  exchanged : Event
  mismatch : Event
  adjacency_check : Event
  sender_round : Event
  update_received : Event

unfoldable pub step : Env → Interface → Event → Neighbor → Neighbor
step env i hello n = hello_receive n
step env i two_way_seen n = two_way_received env i n
step env i (negotiated hs) n = negotiation_done hs n
step env i exchanged n = exchange_done n
step env i mismatch n = restart_exchange env n
step env i adjacency_check n = adj_ok env i n
step env i sender_round n = (lsr_round n).0
step env i update_received n = lsr_recv_update n

pub new_neighbor-IsValid : (id ip : ℕ) → IsValid (new_neighbor id ip)
unfolding new_neighbor
new_neighbor-IsValid id ip = ground arith

pub hello_receive-IsValid : {n : Neighbor} → IsValid n → IsValid (hello_receive n)
unfolding hello_receive
hello_receive-IsValid v = ground arith

pub two_way_received-IsValid :
    (env : Env) (i : Interface) {n : Neighbor} → IsValid n → IsValid (two_way_received env i n)
unfolding two_way_received
two_way_received-IsValid env i v = ground arith

pub negotiation_done-IsValid :
    (hs : List LsaHeader) {n : Neighbor} → IsValid n → IsValid (negotiation_done hs n)
unfolding negotiation_done
negotiation_done-IsValid hs v = ground arith

pub exchange_done-IsValid : {n : Neighbor} → IsValid n → IsValid (exchange_done n)
unfolding exchange_done
exchange_done-IsValid v = ground arith

pub restart_exchange-IsValid :
    (env : Env) {n : Neighbor} → IsValid n → IsValid (restart_exchange env n)
unfolding restart_exchange
restart_exchange-IsValid env v = ground arith

pub adj_ok-IsValid :
    (env : Env) (i : Interface) {n : Neighbor} → IsValid n → IsValid (adj_ok env i n)
unfolding adj_ok
adj_ok-IsValid env i v = ground arith

pub lsr_round-IsValid : {n : Neighbor} → IsValid n → IsValid (lsr_round n).0
unfolding lsr_round
lsr_round-IsValid v = ground arith

pub lsr_recv_update-IsValid : {n : Neighbor} → IsValid n → IsValid (lsr_recv_update n)
unfolding lsr_recv_update
lsr_recv_update-IsValid v = ground arith

-- Every event keeps a neighbor valid.
pub step-IsValid :
    (env : Env) (i : Interface) (e : Event) {n : Neighbor} → IsValid n → IsValid (step env i e n)
unfolding step
step-IsValid env i hello v = hello_receive-IsValid v
step-IsValid env i two_way_seen v = two_way_received-IsValid env i v
step-IsValid env i (negotiated hs) v = negotiation_done-IsValid hs v
step-IsValid env i exchanged v = exchange_done-IsValid v
step-IsValid env i mismatch v = restart_exchange-IsValid env v
step-IsValid env i adjacency_check v = adj_ok-IsValid env i v
step-IsValid env i sender_round v = lsr_round-IsValid v
step-IsValid env i update_received v = lsr_recv_update-IsValid v

-- A history of a neighbor: events, each with the clock and the interface at its time.
unfoldable pub run : List (Env × Interface × Event) → Neighbor → Neighbor
run [] n = n
run ((env, i, e) ∷ es) n = run es (step env i e n)
