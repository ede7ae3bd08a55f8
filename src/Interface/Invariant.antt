-- ===== src/Interface/Invariant.antt =====
-- What holds of an interface between two events of ospfd/interface/state.rs and of its neighbors.
use rust_ospfd.Prelude.{
  Bool, true, List, [], ◌∷◌, ◌≡◌, ◌≢◌, refl, arith, All, All-filter, map, modify, get, nat_eq, ◌==◌,
  Bool-cases, inl, inr, not, Option-cases,
}
use rust_ospfd.Packet.Lsa.{Ipv4Addr}
use rust_ospfd.Neighbor.State.{Neighbor, eq_state, ge_state, two_way}
use rust_ospfd.Neighbor.State
use rust_ospfd.Neighbor.Invariant as Nbr
use rust_ospfd.Neighbor.Event.{Env, adj_ok}
use rust_ospfd.Interface.State.{
  Interface, InterfaceState, down, loopback, waiting, point_to_point, designated, backup, dr_other,
  is_dr, is_bdr, shrink_neighbors,
}
use rust_ospfd.Interface.State as IfState
use rust_ospfd.Interface.Elect.{select_dr, elected_state, adj_ok_all, elect_round, candidates}
use rust_ospfd.Interface.Winner.{select_dr_lem}
use rust_ospfd.Interface.Event.{
  NetworkInterface, interface_up, end_waiting, neighbor_change, loop_ind, unloop_ind,
  interface_down, one_way_received, kill_nbr, inactivity_timer, on_neighbor, has_elected,
  fall_to_init, fall_down, time_out, is_waiting,
}

-- The states before an election, or without one.
abbrev pub unelected : InterfaceState → Bool
unelected s = not (has_elected s)

abbrev pub AllValid : List (Ipv4Addr × Neighbor) → Type 0
AllValid m = All (λ p. Nbr.IsValid p.1) m

-- No DR or BDR is recorded before an election; after it the state says whether the router is DR or
-- BDR; and every neighbor is valid.
pub record IsValid (i : Interface) : Type 0 where
  pub addressed : i.ip_addr ≢ 0
  pub vacant : unelected i.state ≡ true → (i.dr ≡ 0) × (i.bdr ≡ 0)
  pub elected : has_elected i.state ≡ true → i.state ≡ elected_state i
  pub neighbors_valid : AllValid i.neighbors

modify-AllValid :
    (ip : Ipv4Addr) (f : Neighbor → Neighbor) (m : List (Ipv4Addr × Neighbor))
    → ((n : Neighbor) → Nbr.IsValid n → Nbr.IsValid (f n))
    → AllValid m
    → AllValid (modify ip f m)
modify-AllValid ip f [] keep h = tt
modify-AllValid ip f ((j, n) ∷ m) keep h = elim (Bool-cases (j == ip)) [
  | inl e ↦ rw e (keep n h.0, h.1)
  | inr e ↦ rw e (h.0, modify-AllValid ip f m keep h.1)
]

adj_ok-AllValid :
    (env : Env) (i : Interface) (m : List (Ipv4Addr × Neighbor))
    → AllValid m
    → AllValid (map (λ p. (p.0, adj_ok env i p.1)) m)
adj_ok-AllValid env i [] h = tt
adj_ok-AllValid env i (p ∷ m) h = (Nbr.adj_ok-IsValid env i h.0, adj_ok-AllValid env i m h.1)

elected_state-has_elected : (i : Interface) → has_elected (elected_state i) ≡ true
elected_state-has_elected i = ground arith

-- An election makes the state agree with the DR and BDR, whatever it was.
pub select_dr-IsValid :
    (env : Env) (i : Interface) → i.ip_addr ≢ 0 → AllValid i.neighbors → IsValid (select_dr env i)
unfolding adj_ok_all elect_round
select_dr-IsValid env i a h =
    let i' = (elect_round (candidates env i) i).0 in
    rw (select_dr_lem env i) (record {
      addressed = a;
      vacant = λ u. absurd (ground (arith, elected_state-has_elected i'));
      elected = λ _. refl;
      neighbors_valid = adj_ok-AllValid env (record i' { state = elected_state i' }) i.neighbors h;
    })

fall_to_init-IsValid : (n : Neighbor) → Nbr.IsValid n → Nbr.IsValid (fall_to_init n)
unfolding State.reset
fall_to_init-IsValid n v = ground arith

fall_down-IsValid : (n : Neighbor) → Nbr.IsValid n → Nbr.IsValid (fall_down n)
unfolding State.reset
fall_down-IsValid n v = ground arith

time_out-IsValid : (n : Neighbor) → Nbr.IsValid n → Nbr.IsValid (time_out n)
unfolding State.reset
time_out-IsValid n v = ground arith

-- A change of one neighbor that keeps it valid.
pub on_neighbor-IsValid :
    (ip : Ipv4Addr) (f : Neighbor → Neighbor) (i : Interface)
    → ((n : Neighbor) → Nbr.IsValid n → Nbr.IsValid (f n))
    → IsValid i
    → IsValid (on_neighbor ip f i)
on_neighbor-IsValid ip f i keep v = record {
  addressed = v.addressed;
  vacant = v.vacant;
  elected = v.elected;
  neighbors_valid = modify-AllValid ip f i.neighbors keep v.neighbors_valid;
}

pub neighbor_change-IsValid :
    (env : Env) (i : Interface) → IsValid i → IsValid (neighbor_change env i)
unfolding neighbor_change
neighbor_change-IsValid env i v = elim (Bool-cases (has_elected i.state)) [
  | inl e ↦ rw e (select_dr-IsValid env i v.addressed v.neighbors_valid)
  | inr e ↦ rw e v
]

pub end_waiting-IsValid : (env : Env) (i : Interface) → IsValid i → IsValid (end_waiting env i)
unfolding end_waiting
end_waiting-IsValid env i v = elim (Bool-cases (is_waiting i.state)) [
  | inl e ↦ rw e (select_dr-IsValid env i v.addressed v.neighbors_valid)
  | inr e ↦ rw e v
]

interface_up-IsValid :
    (dev : NetworkInterface) (i : Interface) → IsValid i → IsValid (interface_up dev i)
unfolding interface_up
interface_up-IsValid dev i v = ground arith

pub one_way_received-IsValid :
    (env : Env) (ip : Ipv4Addr) (i : Interface) → IsValid i → IsValid (one_way_received env ip i)
unfolding one_way_received
one_way_received-IsValid env ip i v = elim (Option-cases (get ip i.neighbors)) [
  | inl e ↦ rw (e, one_way_received) v
  | inr (n, e) ↦ elim (Bool-cases (ge_state n.state two_way)) [
    | inl q ↦
        rw (e, one_way_received, q)
          (neighbor_change-IsValid env (on_neighbor ip fall_to_init i)
            (on_neighbor-IsValid ip fall_to_init i fall_to_init-IsValid v))
    | inr q ↦ rw (e, one_way_received, q) v
  ]
]

-- The events of `InterfaceEvent`, those of `NeighborEvent` that end in `neighbor_change`, those that
-- change one neighbor alone, and `shrink_neighbors`.
pub data Event : Type 0 where
  up : NetworkInterface → Event
  wait_over : Event
  nbr_change : Event
  loop : Event
  unloop : Event
  shut : Event
  one_way : Ipv4Addr → Event
  killed : Ipv4Addr → Event
  timed_out : Ipv4Addr → Event
  nbr : Ipv4Addr → Nbr.Event → Event
  shrink : Event

unfoldable pub step : Env → Event → Interface → Interface
step env (up dev) i = interface_up dev i
step env wait_over i = end_waiting env i
step env nbr_change i = neighbor_change env i
step env loop i = loop_ind i
step env unloop i = unloop_ind i
step env shut i = interface_down i
step env (one_way ip) i = one_way_received env ip i
step env (killed ip) i = kill_nbr env ip i
step env (timed_out ip) i = inactivity_timer env ip i
step env (nbr ip e) i = on_neighbor ip (Nbr.step env i e) i
step env shrink i = shrink_neighbors i

-- Every event keeps an interface valid.
pub step-IsValid : (env : Env) (e : Event) (i : Interface) → IsValid i → IsValid (step env e i)
unfolding step loop_ind unloop_ind interface_down kill_nbr inactivity_timer shrink_neighbors
    IfState.reset
step-IsValid env (up dev) i v = interface_up-IsValid dev i v
step-IsValid env wait_over i v = end_waiting-IsValid env i v
step-IsValid env nbr_change i v = neighbor_change-IsValid env i v
step-IsValid env loop i v = ground arith
step-IsValid env unloop i v = ground arith
step-IsValid env shut i v = ground arith
step-IsValid env (one_way ip) i v = one_way_received-IsValid env ip i v
step-IsValid env (killed ip) i v =
    neighbor_change-IsValid env (on_neighbor ip fall_down i)
      (on_neighbor-IsValid ip fall_down i fall_down-IsValid v)
step-IsValid env (timed_out ip) i v =
    neighbor_change-IsValid env (on_neighbor ip time_out i)
      (on_neighbor-IsValid ip time_out i time_out-IsValid v)
step-IsValid env (nbr ip e) i v =
    on_neighbor-IsValid ip (Nbr.step env i e) i (λ n. Nbr.step-IsValid env i e {n = n}) v
step-IsValid env shrink i v = record {
  addressed = v.addressed;
  vacant = v.vacant;
  elected = v.elected;
  neighbors_valid =
      All-filter (λ p. Nbr.IsValid p.1) (λ p. not (eq_state p.1.state State.NeighborState.down))
        i.neighbors v.neighbors_valid;
}

-- A history of an interface.
unfoldable pub run : List (Env × Event) → Interface → Interface
run [] i = i
run ((env, e) ∷ es) i = run es (step env e i)
