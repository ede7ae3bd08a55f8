-- ===== src/Neighbor/Event.antt =====
-- ospfd/neighbor/state.rs and the LSR sender of ospfd/neighbor/pair.rs: the events that change one
-- neighbor alone. Those that go on to the interface's `neighbor_change` are in Interface.Event.
-- A `RefNeighbor` is the interface, read for `judge_connect`, and the neighbor. `start` is a
-- `todo!()` in the source, and is left out.
use rust_ospfd.Prelude.{
  ℕ, Bool, false, List, [], ◌∷◌, ◌++◌, ◌==◌, leb, not, ◌&&◌, ◌||◌, if◌then◌else◌, ◌%◌, ◌^◌, drop,
  is_empty, Option, some, none,
}
use rust_ospfd.Packet.Lsa.{LsaHeader}
use rust_ospfd.Packet.Types.{DbDescription, LsRequest}
use rust_ospfd.Neighbor.State
use rust_ospfd.Neighbor.State.{
  NeighborState, init, two_way, ex_start, exchange, loading, full, rank, ge_state, eq_state,
  Neighbor, running, idle, is_finished, no_task, handle, nothing,
}
use rust_ospfd.Interface.State.{Interface, always_adjacent}
use rust_ospfd.Interface.State as IfState

-- What the code reads from its process: the router's identifier, the wall clock in seconds, and the
-- monotonic clock in milliseconds.
pub record Env : Type 0 where
  pub router_id : ℕ
  pub unix_secs : ℕ
  pub now : ℕ

-- `judge_connect`
unfoldable pub judge_connect : Interface → Neighbor → Bool
judge_connect i n =
    always_adjacent i.net_type
    || (IfState.is_bdr i || (IfState.is_dr i || (State.is_bdr n || State.is_dr n)))

-- The first DD packet, which `ex_start` gives to `spawn_master_send_dd`.
unfoldable pub first_dd : Neighbor → DbDescription
first_dd n = record {
  interface_mtu = 0;
  options = n.option;
  init = 1;
  more = 1;
  master = 1;
  db_sequence_number = n.dd_seq_num;
  lsa_header = [];
}

-- `RefNeighbor::spawn_master_send_dd`
unfoldable pub spawn_master_send_dd : DbDescription → Neighbor → Neighbor
spawn_master_send_dd p n = record n { dd_rxmt = handle p }

-- `ex_start`; `as u16 as u32` keeps the low 16 bits of the clock.
unfoldable pub begin_ex_start : Env → Neighbor → Neighbor
unfolding first_dd spawn_master_send_dd
begin_ex_start env n =
    let m = record n { dd_seq_num = env.unix_secs % 2 ^ 16; master = false } in
    if eq_state n.state ex_start && n.dd_seq_num == 0
    then spawn_master_send_dd (first_dd m) m
    else n

-- `hello_receive`, with `reset_timer`.
unfoldable pub hello_receive : Neighbor → Neighbor
hello_receive n = record n {
  state = if leb (rank n.state) 1 then init else n.state;
  inactive_timer = running;
}

-- `two_way_received`
unfoldable pub two_way_received : Env → Interface → Neighbor → Neighbor
unfolding judge_connect begin_ex_start
two_way_received env i n =
    let next = record n { state = if judge_connect i n then ex_start else two_way } in
    if eq_state n.state init then begin_ex_start env next else n

-- `negotiation_done`; `headers` are those that `summary_lsa` adds.
unfoldable pub negotiation_done : List LsaHeader → Neighbor → Neighbor
negotiation_done headers n =
    if eq_state n.state ex_start
    then record n { db_summary_list = n.db_summary_list ++ headers; state = exchange }
    else n

-- `RefNeighbor::spawn_lsr_sender`: a new sender if the last one has ended.
unfoldable pub spawn_lsr_sender : Neighbor → Neighbor
spawn_lsr_sender n =
    if is_finished n.lsr_handle.master_task
    then record n { lsr_handle = record { master_task = running; child_task = idle } }
    else n

-- `exchange_done`
unfoldable pub exchange_done : Neighbor → Neighbor
unfolding spawn_lsr_sender
exchange_done n =
    let m = record n { dd_rxmt = nothing } in
    if eq_state n.state exchange
    then (if is_empty n.ls_request_list
        then record m { state = full }
        else spawn_lsr_sender (record m { state = loading }))
    else n

-- `bad_ls_req` and `seq_number_mismatch`: the exchange starts again.
unfoldable pub restart_exchange : Env → Neighbor → Neighbor
unfolding begin_ex_start State.reset
restart_exchange env n =
    if ge_state n.state exchange
    then begin_ex_start env (record (State.reset n) { state = ex_start })
    else n

-- `loading_done`
unfoldable pub loading_done : Neighbor → Neighbor
loading_done n = if eq_state n.state loading then record n { state = full } else n

-- `adj_ok`
unfoldable pub adj_ok : Env → Interface → Neighbor → Neighbor
unfolding judge_connect begin_ex_start State.reset
adj_ok env i n =
    let judged = judge_connect i n in
    let joined = record n { state = if judged then ex_start else two_way } in
    if eq_state n.state two_way
    then begin_ex_start env joined
    else (if ge_state n.state ex_start && not judged
        then State.reset (record n { state = two_way })
        else n)

-- One round of the task of `spawn_lsr_sender`: the request for the first wanted LSA, which a child
-- task repeats, or `loading_done` and the end of the task.
unfoldable pub lsr_round : Neighbor → Neighbor × Option LsRequest
unfolding loading_done
lsr_round n = elim n.ls_request_list [
  | [] ↦ (record (loading_done n) { lsr_handle = record n.lsr_handle { master_task = idle } }, none)
  | h ∷ rest ↦ (
    record n { lsr_handle = record n.lsr_handle { child_task = running } },
    some (record {
      ls_type = h.ls_type;
      ls_id = h.link_state_id;
      advertising_router = h.advertising_router;
    }),
  )
]

-- `RefNeighbor::lsr_recv_update`
unfoldable pub lsr_recv_update : Neighbor → Neighbor
lsr_recv_update n = record n {
  ls_request_list = drop 1 n.ls_request_list;
  lsr_handle = record n.lsr_handle { child_task = idle };
}
