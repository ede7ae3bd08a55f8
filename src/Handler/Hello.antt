-- ===== src/Handler/Hello.antt =====
-- ospfd/handler/hello.rs.
pub mod Invariant
use rust_ospfd.Prelude.{
  ℕ, Bool, true, false, List, Option, some, none, ◌==◌, not, ◌&&◌, ◌||◌, if◌then◌else◌, get, nat_eq,
  contains,
}
use rust_ospfd.Packet.Lsa.{Ipv4Addr}
use rust_ospfd.Packet.Types.{HelloPacket, is_set, option_e}
use rust_ospfd.Neighbor.State
use rust_ospfd.Neighbor.State.{Neighbor}
use rust_ospfd.Neighbor.Event.{Env, hello_receive, two_way_received}
use rust_ospfd.Interface.State.{Interface, is_p2p_or_virtual}
use rust_ospfd.Interface.Event.{
  on_neighbor, one_way_received, neighbor_change, end_waiting, is_waiting,
}

abbrev pub same_bool : Bool → Bool → Bool
same_bool true b = b
same_bool false b = not b

-- The guards at the head of the handler.
unfoldable pub accepts : Interface → HelloPacket → Bool
accepts i p =
    i.hello_interval == p.hello_interval
    && (i.dead_interval == p.router_dead_interval
        && ((is_p2p_or_virtual i.net_type || i.ip_mask == p.network_mask)
            && same_bool i.external_routing (is_set p.options option_e)))

abbrev pub record_hello : HelloPacket → Neighbor → Neighbor
record_hello p n = record n {
  option = p.options;
  dr = p.designated_router;
  bdr = p.backup_designated_router;
  priority = p.router_priority;
}

-- `HelloReceived`, for the neighbor as the packet describes it.
unfoldable pub greet : Ipv4Addr → HelloPacket → Interface → Interface
greet ip p i = on_neighbor ip (λ n. hello_receive (record_hello p n)) i

-- A neighbor that declares itself DR or BDR for the first time, or no more.
abbrev pub changed_claim : Ipv4Addr → Ipv4Addr → Bool → Bool
changed_claim claimed ip before = claimed == ip && not before || before && not (claimed == ip)

-- The neighbor's claim to be DR, against what it claimed before.
unfoldable pub check_dr : Env → HelloPacket → Neighbor → Interface → Interface
check_dr env p prev i =
    if p.designated_router == prev.ip_addr
      && (p.backup_designated_router == 0 && is_waiting i.state)
    then end_waiting env i
    else if changed_claim p.designated_router prev.ip_addr (State.is_dr prev)
    then neighbor_change env i
    else i

-- The neighbor's claim to be BDR.
unfoldable pub check_bdr : Env → HelloPacket → Neighbor → Interface → Interface
check_bdr env p prev i =
    if p.backup_designated_router == prev.ip_addr && is_waiting i.state
    then end_waiting env i
    else if changed_claim p.backup_designated_router prev.ip_addr (State.is_bdr prev)
    then neighbor_change env i
    else i

abbrev pub check_priority : Env → HelloPacket → Neighbor → Interface → Interface
check_priority env p prev i =
    if p.router_priority == prev.priority then i else neighbor_change env i

-- What follows `HelloReceived`; `prev` is the neighbor as it was when the packet came.
unfoldable pub two_way_part : Env → Ipv4Addr → HelloPacket → Neighbor → Interface → Interface
two_way_part env ip p prev i =
    let i1 = on_neighbor ip (two_way_received env i) i in
    let i2 = check_priority env p prev i1 in
    let i3 = check_dr env p prev i2 in check_bdr env p prev i3

-- `handle`, for the packet of the neighbor at `ip`.
unfoldable pub handle : Env → Ipv4Addr → HelloPacket → Interface → Interface
handle env ip p i = elim (get ip i.neighbors) [
  | none ↦ i
  | some prev ↦
      let i1 = greet ip p i in
      let answered =
        if contains p.neighbors env.router_id
        then two_way_part env ip p prev i1
        else one_way_received env ip i1 in
      if accepts i p then answered else i
]
