-- ===== src/Handler/Dd/Invariant.antt =====
-- The handler of database descriptions keeps a neighbor valid.
use rust_ospfd.Prelude.{
  ℕ, Bool, true, List, [], ◌∷◌, ◌≡◌, refl, Option, some, none, arith, Bool-cases, Option-cases, inl,
  inr,
}
use rust_ospfd.Packet.Lsa.{LsaHeader}
use rust_ospfd.Packet.Types.{DbDescription}
use rust_ospfd.Neighbor.State.{Neighbor, NeighborState, exchange, DdPacketCache, cache_of}
use rust_ospfd.Neighbor.Event.{
  Env, negotiation_done, spawn_lsr_sender, exchange_done, spawn_master_send_dd, two_way_received,
}
use rust_ospfd.Neighbor.Invariant.{IsValid, restart_exchange-IsValid, two_way_received-IsValid}
use rust_ospfd.Interface.State.{Interface}
use rust_ospfd.Database
use rust_ospfd.Database.{ProtocolDb}
use rust_ospfd.Sender.{World}
use rust_ospfd.Handler.Dd.{
  Verdict, accepted, ignored, resend, mismatched, negotiate, judge, collect, answer_master,
  answer_slave, proceed, enact, receive, handle_neighbor, summary, cache_beq, is_wanted,
  enlist_request,
}

-- A neighbor in the exchange phase.
abbrev pub Exchanging : Neighbor → Type 0
Exchanging n = IsValid n × (n.state ≡ exchange)

abbrev Sound : Verdict → Type 0
Sound (accepted m) = Exchanging m
Sound ignored = Unit
Sound (resend p) = Unit
Sound mismatched = Unit

negotiate-Sound :
    (env : Env) (hs : List LsaHeader) (p : DbDescription) (n : Neighbor)
    → IsValid n
    → n.state ≡ NeighborState.ex_start
    → Sound (negotiate env hs p n)
unfolding negotiate negotiation_done
negotiate-Sound env hs p n v e = ground arith

judge-Sound :
    (env : Env) (hs : List LsaHeader) (p : DbDescription) (same : Bool) (s : NeighborState)
    (n : Neighbor) {r : Verdict}
    → IsValid n
    → n.state ≡ s
    → judge env hs p same s n ≡ some r
    → Sound r
unfolding judge negotiation_done
judge-Sound env hs p same s n v e q = ground arith

enlist_request-Exchanging :
    (new : Bool) (x : LsaHeader) (n : Neighbor) → Exchanging n → Exchanging (enlist_request new x n)
enlist_request-Exchanging new x n h = ground arith

-- The loop over the headers keeps a neighbor valid; where it runs to its end, the neighbor is still
-- in the exchange phase.
collect_keeps :
    (env : Env) (i : Interface) (db : ProtocolDb) (hs : List LsaHeader) (n : Neighbor)
    {m : Neighbor} {complete : Bool}
    → Exchanging n
    → collect env i db hs n ≡ some (m, complete)
    → IsValid m × (complete ≡ true → m.state ≡ exchange)
unfolding collect
collect_keeps env i db [] n {m} {complete} h q = ground arith
collect_keeps env i db (x ∷ hs) n {m} {complete} h q = elim (Bool-cases (is_wanted i x)) [
  | inl e ↦ elim (Option-cases (Database.need_update env.now db i.area_id x)) [
    | inl d ↦ absurd (cc (rw (e, d) at q))
    | inr (new, d) ↦
        collect_keeps env i db hs (enlist_request new x n) {m = m} {complete = complete}
          (enlist_request-Exchanging new x n h) (rw (e, d) at q)
  ]
  | inr e ↦ ground (arith, restart_exchange-IsValid env h.0)
]

spawn_lsr_sender-Exchanging : {n : Neighbor} → Exchanging n → Exchanging (spawn_lsr_sender n)
unfolding spawn_lsr_sender
spawn_lsr_sender-Exchanging h = ground arith

answer_master-IsValid :
    (env : Env) (c : DdPacketCache) (i : Interface) (n : Neighbor) (w : World) {m : Neighbor}
    {w' : World}
    → Exchanging n
    → answer_master env c i n w ≡ some (m, w')
    → IsValid m
unfolding answer_master exchange_done
answer_master-IsValid env c i n w h q = ground arith

answer_slave-IsValid :
    (c : DdPacketCache) (s : ℕ) (n : Neighbor) {m : Neighbor}
    → Exchanging n
    → answer_slave c s n ≡ some m
    → IsValid m
unfolding answer_slave exchange_done spawn_master_send_dd
answer_slave-IsValid c s n h q = ground arith

proceed-IsValid :
    (env : Env) (p : DbDescription) (s : ℕ) (i : Interface) (n : Neighbor) (w : World)
    {m : Neighbor} {w' : World}
    → Exchanging n
    → proceed env p s i n w ≡ some (m, w')
    → IsValid m
unfolding proceed
proceed-IsValid env p s i n w {m} {w'} h q = by_collect (collect env i w.db p.lsa_header n) refl
  where
    by_collect : (r : Option (Neighbor × Bool)) → collect env i w.db p.lsa_header n ≡ r → IsValid m
    by_collect none e = absurd (ground arith)
    by_collect (some (k, complete)) e = ground (
      arith,
      collect_keeps env i w.db p.lsa_header n {m = k} {complete = complete} h e,
      spawn_lsr_sender-Exchanging {n = k},
      answer_master-IsValid env (cache_of p) i (spawn_lsr_sender k) w {m = m} {w' = w'},
      answer_slave-IsValid (cache_of p) s (spawn_lsr_sender k) {m = m},
    )

enact-IsValid :
    (env : Env) (p : DbDescription) (i : Interface) (n : Neighbor) (w : World) (r : Verdict)
    {m : Neighbor} {w' : World}
    → IsValid n
    → Sound r
    → enact env p i n w r ≡ some (m, w')
    → IsValid m
unfolding enact
enact-IsValid env p i n w ignored v s q = ground arith
enact-IsValid env p i n w (resend d) v s q = ground arith
enact-IsValid env p i n w mismatched v s q = ground (arith, restart_exchange-IsValid env v)
enact-IsValid env p i n w (accepted k) v s q = proceed-IsValid env p n.dd_seq_num i k w s q

receive-IsValid :
    (env : Env) (p : DbDescription) (i : Interface) (n : Neighbor) (w : World) {m : Neighbor}
    {w' : World}
    → IsValid n
    → receive env p i n w ≡ some (m, w')
    → IsValid m
unfolding receive
receive-IsValid env p i n w {m} {w'} v q = by_verdict (judged) refl
  where
    cached : Neighbor
    cached = record n { dd_last_packet = cache_of p }

    judged : Option Verdict
    judged =
        judge env (summary env i w.db) p (cache_beq n.dd_last_packet (cache_of p)) n.state cached

    by_verdict : (r : Option Verdict) → judged ≡ r → IsValid m
    by_verdict none e = absurd (ground arith)
    by_verdict (some r) e =
        enact-IsValid env p i cached w r (ground arith)
          (judge-Sound env (summary env i w.db) p (cache_beq n.dd_last_packet (cache_of p)) n.state
            cached (ground arith) refl e)
          (rw e at q)

-- Whenever the handler of database descriptions does not panic, it leaves a valid neighbor valid,
-- whatever the packet.
pub handle_neighbor-IsValid :
    (env : Env) (p : DbDescription) (i : Interface) (n : Neighbor) (w : World) {m : Neighbor}
    {w' : World}
    → IsValid n
    → handle_neighbor env p i n w ≡ some (m, w')
    → IsValid m
unfolding handle_neighbor
handle_neighbor-IsValid env p i n w {m} {w'} v q = ground (
  arith,
  two_way_received-IsValid env i v,
  receive-IsValid env p i n w {m = m} {w' = w'} v,
  receive-IsValid env p i (two_way_received env i n) w {m = m} {w' = w'},
)
