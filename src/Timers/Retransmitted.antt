-- ===== src/Timers/Retransmitted.antt =====
-- What a round of the retransmission timer sends.
use mathlib.Core.Option.{some-injective}
use rust_ospfd.Prelude.{
  true, List, [], ◌∷◌, Option, some, ◌≡◌, refl, inl, inr, ap, sym, ◌∙◌, arith, ◌≤◌, ltb,
  if◌then◌else◌, length, take, values, All, In, Bool-cases, Option-cases, length-take_le,
}
use rust_ospfd.Packet.Lsa.{Ipv4Addr, Lsa, LsaIndex}
use rust_ospfd.Packet.Types.{LsUpdate, lsu}
use rust_ospfd.Neighbor.State.{Neighbor, exchange, ge_state}
use rust_ospfd.Neighbor.Event.{Env}
use rust_ospfd.Interface.State.{Interface}
use rust_ospfd.Database.{ProtocolDb}
use rust_ospfd.Sender.{World, Sent, create_packet, send_packet}
use rust_ospfd.Flooding.Sends.{send_packet-out}
use rust_ospfd.Timers.{find_lsas, owed_packets, send_all, retransmit, update_with}

length-find_lsas :
    (env : Env) (db : ProtocolDb) (area : Ipv4Addr) (ks : List LsaIndex) {ls : List Lsa}
    → find_lsas env db area ks ≡ some ls
    → length ls ≤ length ks
unfolding find_lsas
length-find_lsas env db area [] {ls} e = ground arith
length-find_lsas env db area (k ∷ ks) {ls} e = elim (Option-cases (find_lsas env db area ks)) [
  | inl q ↦ absurd (ground (arith, q))
  | inr (ms, q) ↦ ground (arith, q, length-find_lsas env db area ks {ls = ms} q)
]

-- A packet of up to eight LSAs, which its count agrees with, to a neighbor in `Exchange` or beyond.
abbrev pub IsOwed : List Neighbor → LsUpdate × Ipv4Addr → Type 0
IsOwed ns (p, ip) =
    (p.num_lsa ≡ length p.lsa)
    × (length p.lsa ≤ 8)
    × ((n : Neighbor) × In n ns × (ge_state n.state exchange ≡ true) × (ip ≡ n.ip_addr))

IsOwed-weaken :
    (m : Neighbor) (ns : List Neighbor) (ps : List (LsUpdate × Ipv4Addr))
    → All (IsOwed ns) ps
    → All (IsOwed (m ∷ ns)) ps
IsOwed-weaken m ns [] h = tt
IsOwed-weaken m ns ((p, ip) ∷ ps) ((c, b, (n, i, s, a)), h) =
    ((c, b, (n, inr i, s, a)), IsOwed-weaken m ns ps h)

owed_packets-IsOwed :
    (env : Env) (db : ProtocolDb) (area : Ipv4Addr) (ns : List Neighbor)
    {ps : List (LsUpdate × Ipv4Addr)}
    → owed_packets env db area ns ≡ some ps
    → All (IsOwed ns) ps
unfolding owed_packets
owed_packets-IsOwed env db area [] {ps} e = rw (← some-injective _ _ e) tt
owed_packets-IsOwed env db area (n ∷ ns) {ps} e = elim (Bool-cases (ge_state n.state exchange)) [
  | inr z ↦ IsOwed-weaken n ns ps (owed_packets-IsOwed env db area ns {ps = ps} (rw z at e))
  | inl z ↦ elim (Option-cases (find_lsas env db area (take 8 n.ls_retransmission_list))) [
    | inl q ↦ absurd (cc (rw (z, q) at e))
    | inr (ls, q) ↦ elim (Option-cases (owed_packets env db area ns)) [
      | inl r ↦ absurd (cc (rw (z, q, r) at e))
      | inr (qs, r) ↦
          let p : (update_with ls, n.ip_addr) ∷ qs ≡ ps = some-injective _ _ (rw (z, q, r) at e) in
          let few : length ls ≤ 8 = omega (
            arith,
            length-find_lsas env db area (take 8 n.ls_retransmission_list) {ls = ls} q,
            length-take_le 8 n.ls_retransmission_list,
          ) in
          rw (← p) (
            (refl, few, (n, inl refl, z, refl)),
            IsOwed-weaken n ns qs (owed_packets-IsOwed env db area ns {ps = qs} r),
          )
    ]
  ]
]

-- The log after the packets have been sent, but for the empty ones.
abbrev pub log_after : Env → Interface → List (LsUpdate × Ipv4Addr) → List Sent → List Sent
log_after env i [] out = out
log_after env i ((p, ip) ∷ ps) out =
    log_after env i ps (if ltb 0 p.num_lsa then create_packet env i (lsu p) ip ∷ out else out)

send_all-log :
    (env : Env) (i : Interface) (ps : List (LsUpdate × Ipv4Addr)) (w : World) {w' : World}
    → send_all env i ps w ≡ some w'
    → w'.out ≡ log_after env i ps w.out
unfolding send_all
send_all-log env i [] w {w'} e =
    let s : ◌≡◌ {A = Option World} (some w) (some w') = e in
    let same : w ≡ w' = cc in ap (λ (v : World). v.out) (sym same)
send_all-log env i ((p, ip) ∷ ps) w {w'} e = elim (Bool-cases (ltb 0 p.num_lsa)) [
  | inr z ↦ rw z (send_all-log env i ps w {w' = w'} (rw z at e))
  | inl z ↦ elim (Option-cases (send_packet env i (lsu p) ip w)) [
    | inl q ↦ absurd (cc (rw (z, q) at e))
    | inr (w1, q) ↦ rw z (
        send_all-log env i ps w1 {w' = w'} (rw (z, q) at e)
        ∙ ap (log_after env i ps) (send_packet-out env i (lsu p) ip w q))
  ]
]

-- A round of the retransmission timer that does not panic sends, in order and but for the empty
-- ones, packets to neighbors in Exchange or beyond, at their addresses, each with at most eight
-- LSAs and their right count.
pub retransmit-Owed :
    (env : Env) (i : Interface) (w : World) {w' : World}
    → retransmit env i w ≡ some w'
    → (ps : List (LsUpdate × Ipv4Addr)) × All (IsOwed (values i.neighbors)) ps
      × (w'.out ≡ log_after env i ps w.out)
unfolding retransmit
retransmit-Owed env i w {w'} e =
    elim (Option-cases (owed_packets env w.db i.area_id (values i.neighbors))) [
      | inl q ↦ absurd (cc (rw q at e))
      | inr (ps, q) ↦ (
        ps,
        owed_packets-IsOwed env w.db i.area_id (values i.neighbors) q,
        send_all-log env i ps w (rw q at e),
      )
    ]
