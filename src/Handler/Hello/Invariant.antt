-- ===== src/Handler/Hello/Invariant.antt =====
-- Hello packets and the invariant of the interface.
use rust_ospfd.Prelude.{
  Bool, true, false, inl, inr, arith, get, nat_eq, Bool-cases, Option-cases, contains,
  if◌then◌else◌, ◌&&◌, ◌==◌,
}
use rust_ospfd.Packet.Lsa.{Ipv4Addr}
use rust_ospfd.Packet.Types.{HelloPacket}
use rust_ospfd.Neighbor.State.{Neighbor}
use rust_ospfd.Neighbor.State
use rust_ospfd.Neighbor.Event.{Env, hello_receive, two_way_received}
use rust_ospfd.Neighbor.Invariant as Nbr
use rust_ospfd.Interface.State.{Interface}
use rust_ospfd.Interface.Event.{on_neighbor, is_waiting}
use rust_ospfd.Interface.Invariant.{
  IsValid, on_neighbor-IsValid, neighbor_change-IsValid, end_waiting-IsValid,
  one_way_received-IsValid,
}
use rust_ospfd.Handler.Hello.{
  handle, accepts, greet, record_hello, two_way_part, check_dr, check_bdr, check_priority,
  changed_claim,
}

greeted-IsValid :
    (p : HelloPacket) (n : Neighbor)
    → Nbr.IsValid n
    → Nbr.IsValid (hello_receive (record_hello p n))
unfolding hello_receive
greeted-IsValid p n v = ground arith

greet-IsValid :
    (ip : Ipv4Addr) (p : HelloPacket) (i : Interface) → IsValid i → IsValid (greet ip p i)
unfolding greet
greet-IsValid ip p i v =
    on_neighbor-IsValid ip (λ n. hello_receive (record_hello p n)) i (greeted-IsValid p) v

-- A choice between three changes that keep an interface valid.
choose :
    (a b : Bool) (i j k : Interface)
    → IsValid i
    → IsValid j
    → IsValid k
    → IsValid (if a then i else if b then j else k)
choose true b i j k x y z = x
choose false true i j k x y z = y
choose false false i j k x y z = z

check_dr-IsValid :
    (env : Env) (p : HelloPacket) (n : Neighbor) (i : Interface)
    → IsValid i
    → IsValid (check_dr env p n i)
unfolding check_dr
check_dr-IsValid env p n i v =
    choose
      (p.designated_router == n.ip_addr && (p.backup_designated_router == 0 && is_waiting i.state))
      (changed_claim p.designated_router n.ip_addr (State.is_dr n)) _ _ _
      (end_waiting-IsValid env i v) (neighbor_change-IsValid env i v) v

check_bdr-IsValid :
    (env : Env) (p : HelloPacket) (n : Neighbor) (i : Interface)
    → IsValid i
    → IsValid (check_bdr env p n i)
unfolding check_bdr
check_bdr-IsValid env p n i v =
    choose (p.backup_designated_router == n.ip_addr && is_waiting i.state)
      (changed_claim p.backup_designated_router n.ip_addr (State.is_bdr n)) _ _ _
      (end_waiting-IsValid env i v) (neighbor_change-IsValid env i v) v

check_priority-IsValid :
    (env : Env) (p : HelloPacket) (n : Neighbor) (i : Interface)
    → IsValid i
    → IsValid (check_priority env p n i)
check_priority-IsValid env p n i v = elim (Bool-cases (p.router_priority == n.priority)) [
  | inl e ↦ rw e v
  | inr e ↦ rw e (neighbor_change-IsValid env i v)
]

two_way_part-IsValid :
    (env : Env) (ip : Ipv4Addr) (p : HelloPacket) (n : Neighbor) (i : Interface)
    → IsValid i
    → IsValid (two_way_part env ip p n i)
unfolding two_way_part
two_way_part-IsValid env ip p n i v =
    let i1 = on_neighbor ip (two_way_received env i) i in
    let v1 =
      on_neighbor-IsValid ip (two_way_received env i) i
        (λ m. Nbr.two_way_received-IsValid env i {n = m}) v in
    let i2 = check_priority env p n i1 in
    let v2 = check_priority-IsValid env p n i1 v1 in
    check_bdr-IsValid env p n (check_dr env p n i2) (check_dr-IsValid env p n i2 v2)

-- A hello packet, with the events and elections that it may bring about, keeps an interface valid.
pub handle-IsValid :
    (env : Env) (ip : Ipv4Addr) (p : HelloPacket) (i : Interface)
    → IsValid i
    → IsValid (handle env ip p i)
unfolding handle
handle-IsValid env ip p i v = elim (Option-cases (get ip i.neighbors)) [
  | inl g ↦ rw (g, handle) v
  | inr (n, g) ↦ elim (Bool-cases (accepts i p)) [
    | inr a ↦ rw (g, handle, a) v
    | inl a ↦ elim (Bool-cases (contains p.neighbors env.router_id)) [
      | inl c ↦
          rw (g, handle, a, c)
            (two_way_part-IsValid env ip p n (greet ip p i) (greet-IsValid ip p i v))
      | inr c ↦
          rw (g, handle, a, c)
            (one_way_received-IsValid env ip (greet ip p i) (greet-IsValid ip p i v))
    ]
  ]
]
