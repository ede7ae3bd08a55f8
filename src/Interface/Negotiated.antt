-- ===== src/Interface/Negotiated.antt =====
-- The neighbors of an interface below `Exchange`, through the events of ospfd/interface/state.rs and
-- ospfd/neighbor/state.rs.
use rust_ospfd.Prelude.{
  Bool, false, List, [], ◌∷◌, ◌≡◌, refl, arith, All, All-filter, map, modify, get, nat_eq, ◌==◌,
  Bool-cases, inl, inr, not, Option-cases, any,
}
use rust_ospfd.Packet.Lsa.{Ipv4Addr}
use rust_ospfd.Neighbor.State.{Neighbor, rank, eq_state, ge_state, two_way}
use rust_ospfd.Neighbor.State
use rust_ospfd.Neighbor.Event.{Env, adj_ok}
use rust_ospfd.Neighbor.Invariant as Nbr
use rust_ospfd.Neighbor.Diagram.{is_negotiated, step-IsEarly, IsEarly}
use rust_ospfd.Interface.State.{Interface, shrink_neighbors}
use rust_ospfd.Interface.State as IfState
use rust_ospfd.Interface.Elect.{select_dr, adj_ok_all, elect_round, elected_state, candidates}
use rust_ospfd.Interface.Winner.{select_dr_lem}
use rust_ospfd.Interface.Event.{
  interface_up, end_waiting, neighbor_change, loop_ind, unloop_ind, interface_down,
  one_way_received, kill_nbr, inactivity_timer, on_neighbor, has_elected, fall_to_init, fall_down,
  time_out, is_waiting,
}
use rust_ospfd.Interface.Invariant.{
  Event, up, wait_over, nbr_change, loop, unloop, shut, one_way, killed, timed_out, nbr, shrink,
  step, run,
}

-- No neighbor has come to `Exchange`.
abbrev pub AreEarly : List (Ipv4Addr × Neighbor) → Type 0
AreEarly m = All (λ (p : Ipv4Addr × Neighbor). IsEarly p.1) m

abbrev pub negotiates : Event → Bool
negotiates (nbr ip e) = is_negotiated e
negotiates _ = false

abbrev pub has_negotiated : List (Env × Event) → Bool
has_negotiated es = any (λ (e : Env × Event). negotiates e.1) es

modify-AreEarly :
    (ip : Ipv4Addr) (f : Neighbor → Neighbor) (m : List (Ipv4Addr × Neighbor))
    → ((n : Neighbor) → IsEarly n → IsEarly (f n))
    → AreEarly m
    → AreEarly (modify ip f m)
modify-AreEarly ip f [] keep h = tt
modify-AreEarly ip f ((j, n) ∷ m) keep h = elim (Bool-cases (j == ip)) [
  | inl e ↦ rw e (keep n h.0, h.1)
  | inr e ↦ rw e (h.0, modify-AreEarly ip f m keep h.1)
]

adj_ok-AreEarly :
    (env : Env) (i : Interface) (m : List (Ipv4Addr × Neighbor))
    → AreEarly m
    → AreEarly (map (λ p. (p.0, adj_ok env i p.1)) m)
unfolding Nbr.step
adj_ok-AreEarly env i [] h = tt
adj_ok-AreEarly env i (p ∷ m) h =
    (step-IsEarly env i Nbr.adjacency_check p.1 refl h.0, adj_ok-AreEarly env i m h.1)

select_dr-AreEarly :
    (env : Env) (i : Interface) → AreEarly i.neighbors → AreEarly (select_dr env i).neighbors
unfolding adj_ok_all elect_round
select_dr-AreEarly env i h =
    let i' = (elect_round (candidates env i) i).0 in
    rw (select_dr_lem env i)
      (adj_ok-AreEarly env (record i' { state = elected_state i' }) i.neighbors h)

neighbor_change-AreEarly :
    (env : Env) (i : Interface) → AreEarly i.neighbors → AreEarly (neighbor_change env i).neighbors
unfolding neighbor_change
neighbor_change-AreEarly env i h = elim (Bool-cases (has_elected i.state)) [
  | inl e ↦ rw e (select_dr-AreEarly env i h)
  | inr e ↦ rw e h
]

-- A neighbor that falls, with what the interface makes of it.
fall-AreEarly :
    (env : Env) (ip : Ipv4Addr) (f : Neighbor → Neighbor) (i : Interface)
    → ((n : Neighbor) → IsEarly (f n))
    → AreEarly i.neighbors
    → AreEarly (neighbor_change env (on_neighbor ip f i)).neighbors
fall-AreEarly env ip f i low h =
    neighbor_change-AreEarly env (on_neighbor ip f i)
      (modify-AreEarly ip f i.neighbors (λ n _. low n) h)

one_way_received-AreEarly :
    (env : Env) (ip : Ipv4Addr) (i : Interface)
    → AreEarly i.neighbors
    → AreEarly (one_way_received env ip i).neighbors
unfolding one_way_received
one_way_received-AreEarly env ip i h = elim (Option-cases (get ip i.neighbors)) [
  | inl e ↦ rw (e, one_way_received) h
  | inr (n, e) ↦ elim (Bool-cases (ge_state n.state two_way)) [
    | inl q ↦ rw (e, one_way_received, q) (fall-AreEarly env ip fall_to_init i (λ n. omega arith) h)
    | inr q ↦ rw (e, one_way_received, q) h
  ]
]

step-AreEarly :
    (env : Env) (e : Event) (i : Interface)
    → negotiates e ≡ false
    → AreEarly i.neighbors
    → AreEarly (step env e i).neighbors
unfolding step interface_up end_waiting loop_ind unloop_ind interface_down kill_nbr inactivity_timer
    shrink_neighbors IfState.reset
step-AreEarly env (up dev) i q h = ground arith
step-AreEarly env wait_over i q h = elim (Bool-cases (is_waiting i.state)) [
  | inl e ↦ rw e (select_dr-AreEarly env i h)
  | inr e ↦ rw e h
]
step-AreEarly env nbr_change i q h = neighbor_change-AreEarly env i h
step-AreEarly env loop i q h = tt
step-AreEarly env unloop i q h = ground arith
step-AreEarly env shut i q h = tt
step-AreEarly env (one_way ip) i q h = one_way_received-AreEarly env ip i h
step-AreEarly env (killed ip) i q h = fall-AreEarly env ip fall_down i (λ n. omega arith) h
step-AreEarly env (timed_out ip) i q h = fall-AreEarly env ip time_out i (λ n. omega arith) h
step-AreEarly env (nbr ip e) i q h =
    modify-AreEarly ip (Nbr.step env i e) i.neighbors (λ n. step-IsEarly env i e n q) h
step-AreEarly env shrink i q h =
    All-filter (λ (p : Ipv4Addr × Neighbor). IsEarly p.1)
      (λ p. not (eq_state p.1.state State.NeighborState.down)) i.neighbors h

-- In a history of an interface without a `negotiation_done`, of the events of the interface and of
-- all events of its neighbors, those that reset a neighbor and elect included, no neighbor comes to
-- `Exchange` or beyond if none was there.
pub run-AreEarly :
    (es : List (Env × Event)) (i : Interface)
    → has_negotiated es ≡ false
    → AreEarly i.neighbors
    → AreEarly (run es i).neighbors
unfolding run
run-AreEarly [] i q h = h
run-AreEarly ((env, e) ∷ es) i q h = elim (Bool-cases (negotiates e)) [
  | inl p ↦ absurd (cc (rw p at q))
  | inr p ↦ run-AreEarly es (step env e i) (rw p at q) (step-AreEarly env e i p h)
]
