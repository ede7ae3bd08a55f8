-- ===== src/Neighbor/Diagram.antt =====
-- The diagram of the neighbor state machine (RFC 2328, section 10.3) for the events of
-- ospfd/neighbor/state.rs that change one neighbor alone.
use rust_ospfd.Prelude.{◌≡◌, arith, ◌≤◌, Bool, true, false}
use rust_ospfd.Neighbor.State.{
  Neighbor, NeighborState, down, attempt, init, two_way, ex_start, exchange, loading, full, rank,
}
use rust_ospfd.Neighbor.Event.{
  Env, hello_receive, two_way_received, negotiation_done, exchange_done, restart_exchange, adj_ok,
  lsr_round, lsr_recv_update,
}
use rust_ospfd.Neighbor.Invariant.{
  Event, hello, two_way_seen, negotiated, exchanged, mismatch, adjacency_check, sender_round,
  update_received, step,
}
use rust_ospfd.Interface.State.{Interface}

infix 40 ◌⟶◌
pub data ◌⟶◌ : NeighborState → NeighborState → Type 0 where
  stay : {s : NeighborState} → s ⟶ s
  heard : down ⟶ init
  heard_attempt : attempt ⟶ init
  seen : init ⟶ two_way
  seen_adjacent : init ⟶ ex_start
  join : two_way ⟶ ex_start
  negotiates : ex_start ⟶ exchange
  load : exchange ⟶ loading
  finish : exchange ⟶ full
  loaded : loading ⟶ full
  leave : {s : NeighborState} → 4 ≤ rank s → s ⟶ two_way
  restart : {s : NeighborState} → 5 ≤ rank s → s ⟶ ex_start

ruleset edges = (
  stay, heard, heard_attempt, seen, seen_adjacent, join, negotiates, load, finish, loaded, leave,
  restart,
)

-- The state of a neighbor after an event that changes it alone is the one before it, or the end of
-- an edge of the diagram. The events that reset a neighbor and then tell the interface are not
-- among these.
pub step-⟶ :
    (env : Env) (i : Interface) (e : Event) (n : Neighbor) → n.state ⟶ (step env i e n).state
unfolding step hello_receive two_way_received negotiation_done exchange_done restart_exchange adj_ok
    lsr_round lsr_recv_update
step-⟶ env i hello n = grind (arith, edges)
step-⟶ env i two_way_seen n = grind (arith, edges)
step-⟶ env i (negotiated hs) n = grind (arith, edges)
step-⟶ env i exchanged n = grind (arith, edges)
step-⟶ env i mismatch n = grind (arith, edges)
step-⟶ env i adjacency_check n = grind (arith, edges)
step-⟶ env i sender_round n = grind (arith, edges)
step-⟶ env i update_received n = stay

abbrev pub is_negotiated : Event → Bool
is_negotiated (negotiated hs) = true
is_negotiated _ = false

-- Below `Exchange`.
abbrev pub IsEarly : Neighbor → Type 0
IsEarly n = rank n.state ≤ 4

-- Only `negotiation_done` takes a neighbor from below `Exchange` to it or beyond.
pub step-IsEarly :
    (env : Env) (i : Interface) (e : Event) (n : Neighbor)
    → is_negotiated e ≡ false
    → IsEarly n
    → IsEarly (step env i e n)
unfolding step hello_receive two_way_received negotiation_done exchange_done restart_exchange adj_ok
    lsr_round lsr_recv_update
step-IsEarly env i (negotiated hs) n q lo = absurd (cc)
step-IsEarly env i hello n q lo = ground arith
step-IsEarly env i two_way_seen n q lo = ground arith
step-IsEarly env i exchanged n q lo = ground arith
step-IsEarly env i mismatch n q lo = ground arith
step-IsEarly env i adjacency_check n q lo = ground arith
step-IsEarly env i sender_round n q lo = ground arith
step-IsEarly env i update_received n q lo = lo
