-- ===== src/Handler/Dd.antt =====
-- ospfd/handler/dd.rs: the exchange of database descriptions. `none` is a panic: a missing area, or
-- an overflow of the sequence number (as in a build with overflow checks).
pub mod Invariant
pub mod Roles
use rust_ospfd.Prelude.{
  ℕ, Bool, true, false, List, [], ◌∷◌, ◌++◌, Option, some, none, ◌==◌, not, ◌&&◌, ◌||◌, ltb, leb,
  if◌then◌else◌, ◌+◌, ◌^◌, min, take, drop, length, is_empty, get, nat_eq, ◌>>=◌, ◌>>◌, assert,
}
use rust_ospfd.Packet.Lsa.{Ipv4Addr, LsaHeader, as_external_lsa}
use rust_ospfd.Packet.Types.{DbDescription, dd}
use rust_ospfd.Neighbor.State.{
  Neighbor, NeighborState, down, attempt, init, two_way, ex_start, exchange, loading, full,
  ge_state, eq_state, DdPacketCache, cache_of, DdRxmt, packet, nothing,
}
use rust_ospfd.Neighbor.Event.{
  Env, two_way_received, negotiation_done, restart_exchange, spawn_lsr_sender, exchange_done,
  spawn_master_send_dd,
}
use rust_ospfd.Interface.State.{Interface}
use rust_ospfd.Interface.Event.{on_neighbor}
use rust_ospfd.Area.Lsdb as Lsdb
use rust_ospfd.Database
use rust_ospfd.Database.{ProtocolDb}
use rust_ospfd.Sender.{World, send_packet}

abbrev pub bit : Bool → ℕ
bit true = 1
bit false = 0

-- `!=` on Booleans.
abbrev pub differ : Bool → Bool → Bool
differ true b = not b
differ false b = b

-- The derived `PartialEq` of `DdPacketCache`.
abbrev pub cache_beq : DdPacketCache → DdPacketCache → Bool
cache_beq a b =
    a.sequence_number == b.sequence_number
    && (not (differ a.init_bit b.init_bit)
        && (not (differ a.more_bit b.more_bit) && not (differ a.master_bit b.master_bit)))

-- `u32` addition of 1.
abbrev pub next_seq : ℕ → Option ℕ
next_seq s = assert (ltb (s + 1) (2 ^ 32)) >> some (s + 1)

-- What the `match` on the state decides: the handler returns, having sent a packet or not, or goes on.
pub data Verdict : Type 0 where
  ignored : Verdict
  resend : DbDescription → Verdict
  mismatched : Verdict
  accepted : Neighbor → Verdict

-- The headers that `summary_lsa` adds; none if the area is not known.
unfoldable pub summary : Env → Interface → ProtocolDb → List LsaHeader
summary env i db = elim (get i.area_id db.areas) [
  | none ↦ []
  | some a ↦ Lsdb.get_all_lsa env.now a db.external
]

-- In `ExStart`: the neighbor is the master, or the slave that has confirmed, or the packet is
-- dropped. `n` has the new `dd_last_packet` already, and is otherwise the `prev_state`.
unfoldable pub negotiate : Env → List LsaHeader → DbDescription → Neighbor → Verdict
negotiate env headers p n =
    let c = cache_of p in
    let by_master =
      c.init_bit
      && (c.more_bit
          && (c.master_bit && (is_empty p.lsa_header && ltb env.router_id n.router_id))) in
    let by_slave =
      not c.init_bit
      && (not c.master_bit
          && (c.sequence_number == n.dd_seq_num && ltb n.router_id env.router_id)) in
    if by_master
    then accepted (
        negotiation_done headers
          (record n { option = p.options; master = true; dd_seq_num = c.sequence_number }))
    else if by_slave
    then accepted (negotiation_done headers (record n { option = p.options; master = false }))
    else ignored

-- A packet that repeats the last one: the slave sends its answer again.
unfoldable pub repeated : Neighbor → Verdict
repeated n =
    let answer : Verdict = elim n.dd_rxmt [
      | packet p ↦ resend p
      | DdRxmt.handle p ↦ ignored
      | nothing ↦ ignored
    ] in
    if n.master then answer else ignored

-- In `Exchange`: the tests on the bits, the options and the sequence number.
unfoldable pub check_exchange : DbDescription → Neighbor → Option Verdict
check_exchange p n =
    let c = cache_of p in
    let wrong_bits = differ c.master_bit n.master || (c.init_bit || not (p.options == n.option)) in
    let by_master = do
      want ← next_seq n.dd_seq_num
      some (if c.sequence_number == want then accepted n else mismatched)
    in let by_slave = some (if c.sequence_number == n.dd_seq_num then accepted n else mismatched) in
      if wrong_bits then some mismatched else if c.master_bit then by_master else by_slave

-- The `match` on `prev_state.state`; `same` says that the packet repeats `dd_last_packet`.
unfoldable pub judge :
    Env → List LsaHeader → DbDescription → Bool → NeighborState → Neighbor → Option Verdict
unfolding negotiate repeated check_exchange
judge env headers p same ex_start n = some (negotiate env headers p n)
judge env headers p same exchange n = if same then some (repeated n) else check_exchange p n
judge env headers p same loading n = some (if same then repeated n else mismatched)
judge env headers p same full n = some (if same then repeated n else mismatched)
judge env headers p same down n = some ignored
judge env headers p same attempt n = some ignored
judge env headers p same init n = some ignored
judge env headers p same two_way n = some ignored

-- The two `must!` tests on a header: a known type, and AS-external LSAs only where they belong.
abbrev pub is_wanted : Interface → LsaHeader → Bool
is_wanted i h =
    (leb 1 h.ls_type && leb h.ls_type 5)
    && (not (h.ls_type == as_external_lsa) || i.external_routing)

-- The request for a header that the database lacks.
abbrev pub enlist_request : Bool → LsaHeader → Neighbor → Neighbor
enlist_request new h n =
    if new then record n { ls_request_list = n.ls_request_list ++ h ∷ [] } else n

-- The loop over the headers. The second component is false where it ends in `SeqNumberMismatch`.
unfoldable pub collect :
    Env → Interface → ProtocolDb → List LsaHeader → Neighbor → Option (Neighbor × Bool)
collect env i db [] n = some (n, true)
collect env i db (h ∷ hs) n =
    let rest = do
      new ← Database.need_update env.now db i.area_id h
      collect env i db hs (enlist_request new h n)
    in if is_wanted i h then rest else some (restart_exchange env n, false)

-- A description packet of the exchange phase.
abbrev pub describe : Neighbor → ℕ → ℕ → List LsaHeader → DbDescription
describe n more master headers = record {
  interface_mtu = 0;
  options = n.option;
  init = 0;
  more = more;
  master = master;
  db_sequence_number = n.dd_seq_num;
  lsa_header = headers;
}

-- The answer to a master, which is sent once and kept.
unfoldable pub answer_master :
    Env → DdPacketCache → Interface → Neighbor → World → Option (Neighbor × World)
answer_master env c i n w =
    let len = if c.more_bit then min (length n.db_summary_list) 8 else length n.db_summary_list in
    let m = record n { dd_seq_num = c.sequence_number } in
    let p = describe m (bit c.more_bit) 0 (take len n.db_summary_list) in
    let sent = record m { db_summary_list = drop len n.db_summary_list; dd_rxmt = packet p } in
    do
      w' ← send_packet env i (dd p) n.ip_addr w
      some (if c.more_bit then sent else exchange_done sent, w')

-- The next packet to a slave, which a task sends again and again.
unfoldable pub answer_slave : DdPacketCache → ℕ → Neighbor → Option Neighbor
answer_slave c prev_seq n = do
  seq ← next_seq prev_seq
  let m = record n { dd_seq_num = seq }
  let len = min (length n.db_summary_list) 12
  let p = describe m (bit (ltb len (length n.db_summary_list))) 1 (take len n.db_summary_list)
  let next = spawn_master_send_dd p (record m { db_summary_list = drop len n.db_summary_list })
  some (if c.more_bit || ltb 0 len then next else exchange_done m)

-- After the `match`: the headers are collected and the next packet is sent. `prev_seq` is the
-- sequence number of `prev_state`.
unfoldable pub proceed :
    Env → DbDescription → ℕ → Interface → Neighbor → World → Option (Neighbor × World)
unfolding collect answer_master answer_slave
proceed env p prev_seq i n w =
    let reply = λ (m : Neighbor).
      if m.master
      then answer_master env (cache_of p) i m w
      else (answer_slave (cache_of p) prev_seq m >>= λ s. some (s, w)) in
    do
      (m, complete) ← collect env i w.db p.lsa_header n
      if complete then reply (spawn_lsr_sender m) else some (m, w)

-- The rest of the handler, by the verdict. `cached` is the neighbor with the new `dd_last_packet`.
unfoldable pub enact :
    Env → DbDescription → Interface → Neighbor → World → Verdict → Option (Neighbor × World)
unfolding proceed
enact env p i cached w ignored = some (cached, w)
enact env p i cached w (resend q) = do
  w' ← send_packet env i (dd q) cached.ip_addr w
  some (cached, w')
enact env p i cached w mismatched = some (restart_exchange env cached, w)
enact env p i cached w (accepted m) = proceed env p cached.dd_seq_num i m w

-- The handler past its first two tests. `n` is the neighbor after them.
unfoldable pub receive :
    Env → DbDescription → Interface → Neighbor → World → Option (Neighbor × World)
unfolding judge enact summary
receive env p i n w = do
  let cached = record n { dd_last_packet = cache_of p }
  v ← judge env (summary env i w.db) p (cache_beq n.dd_last_packet (cache_of p)) n.state cached
  enact env p i cached w v

-- `handle`, on the neighbor.
unfoldable pub handle_neighbor :
    Env → DbDescription → Interface → Neighbor → World → Option (Neighbor × World)
handle_neighbor env p i n w =
    let entered = if eq_state n.state init then two_way_received env i n else n in
    if ge_state n.state init then receive env p i entered w else some (n, w)

-- `handle`
unfoldable pub handle :
    Env → Ipv4Addr → DbDescription → Interface → World → Option (Interface × World)
unfolding handle_neighbor
handle env ip p i w = do
  n ← get ip i.neighbors
  (n', w') ← handle_neighbor env p i n w
  some (on_neighbor ip (λ _. n') i, w')
